-- ===== src/Api.antt =====
-- src/threshold/api: the HTTP service.
pub mod Origin
pub mod Errors
pub mod Node
pub mod Reads
pub mod Commands
pub mod Stop
pub mod Issuing
pub mod Owner
pub mod Withheld
pub mod Samples
mod Examples
