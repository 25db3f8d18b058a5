-- ===== src/Api.antt =====
-- internal/api: the parts of the HTTP API's server that keep or change state.
pub mod Attach
pub mod Partition
pub mod Cutting
pub mod Funding
pub mod TopUp
pub mod Alerting
mod Examples
