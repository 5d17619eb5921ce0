-- ===== src/Capture/Geometry/Layout.antt =====
-- The grid of capture/geometry.py.
use threshold_node.Base.{ℕ, ◌+◌, ◌≤◌, ◌≢◌, ◌⊎◌, arith}
use threshold_node.Capture.Geometry.{Rectangle, boundary_of}

-- One rectangle ends before the other begins, along one of the axes.
abbrev pub Apart : Rectangle → Rectangle → Type 0
Apart a b =
    (a.x + a.width ≤ b.x)
    ⊎ ((b.x + b.width ≤ a.x) ⊎ ((a.y + a.height ≤ b.y) ⊎ (b.y + b.height ≤ a.y)))

-- The rectangles of two rooms at different places in the order do not overlap.
pub boundary_of-Apart : (i j : ℕ) → i ≢ j → Apart (boundary_of i) (boundary_of j)
unfolding boundary_of
boundary_of-Apart i j n = ground arith
