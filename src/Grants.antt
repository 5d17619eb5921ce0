-- ===== src/Grants.antt =====
-- src/threshold/grants: the grant lifecycle.
pub mod Manager
pub mod Record
pub mod Store
pub mod Platform
pub mod Authority
