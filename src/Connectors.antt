-- ===== src/Connectors.antt =====
-- connectors/connectors.go: what the connectors share to make the resources that they send.
pub mod Metric
pub mod Service
pub mod Text
pub mod Functions
pub mod Expression
pub mod Synthetic
pub mod Send
pub mod Build
pub mod Made
pub mod Sanitized
pub mod Pointers
mod Tests
