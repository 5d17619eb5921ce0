-- ===== src/Housefile.antt =====
-- src/threshold/housefile: what a grant may see of the housefile.
pub mod ScopedView
