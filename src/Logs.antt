-- ===== src/Logs.antt =====
-- internal/logs: a container's raw log stream as filtered, paginated, structured lines. A text is a
-- list of code points, so that a byte offset of an ASCII separator is an offset of the list.
pub mod Text
pub mod Line
pub mod Parse
pub mod Cursor
pub mod Filter
pub mod Page
mod Examples
