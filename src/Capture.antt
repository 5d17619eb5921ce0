-- ===== src/Capture.antt =====
-- src/threshold/capture: what is drawn from a capture before a person reviews it.
pub mod Geometry
