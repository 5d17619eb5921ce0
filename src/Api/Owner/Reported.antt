-- ===== src/Api/Owner/Reported.antt =====
-- What the owner's status route of api/server.py reports.
use threshold_node.Base.{length, Selects, ℕ, ◌≡◌, List}
use threshold_node.Core.Types.{active, Grant}
use threshold_node.Api.Node.{Node}

abbrev pub IsActive : Grant → Type 0
IsActive g = g.status ≡ active

-- The number is that of the active grants.
abbrev pub CountsActive : List Grant → ℕ → Type 0
CountsActive gs n =
    (actives : List Grant) × (Selects IsActive (λ g h. h ≡ g) gs actives × (n ≡ length actives))
