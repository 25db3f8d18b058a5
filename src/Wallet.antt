-- ===== src/Wallet.antt =====
-- internal/walletsvc: what the wallet believes against what the network did, and the sustained send.
pub mod Tracker
pub mod Send
pub mod Spend
pub mod Shapes
