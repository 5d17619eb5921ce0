-- ===== src/Housefile/ScopedView/Examples.antt =====
-- Runs of housefile/scoped_view.py, and its theorems at concrete inputs.
use threshold_node.Housefile.ScopedView.NonInterference.{scoped_view_blind}
use threshold_node.Housefile.ScopedView.Redaction.{redact}
use threshold_node.Housefile.ScopedView.Rules.{MayView}
use threshold_node.Housefile.ScopedView.Disclosure.{scoped_view-MayView}
use threshold_node.Base.{ℕ, String, ◌≡◌, refl, false, none, some, [], ◌∷◌}
use threshold_node.Core.Types.{
  open_access, no_go, read_layout, read_inventory, cmd_navigate, active, Coordinate, Boundary,
  Housefile, Grant,
}
use threshold_node.Housefile.ScopedView.{
  blocked, disclosed, Disclosed, active_view, grantable, scoped_view,
}

abbrev metres : ℕ → Coordinate
metres n = record { negative = false; mantissa = n; halvings = 0 }

abbrev square : Boundary
square = record { x = metres 0; y = metres 0; w = metres 150; h = metres 100 }

abbrev house_with : String → Housefile
house_with secret = record {
  dwelling_name = "Demo";
  zones =
      record {
        id = "kitchen";
        name = "Kitchen";
        access = open_access;
        boundary = square;
        note = "";
        outdoor = false;
      }
      ∷ record {
        id = "workshop";
        name = secret;
        access = no_go;
        boundary = square;
        note = secret;
        outdoor = false;
      }
      ∷ [];
  systems = [];
  inventory =
      record {
        id = "inv-edge";
        name = secret;
        zone = "workshop";
        flags = "do-not-touch" ∷ [];
        note = secret;
      }
      ∷ [];
  quirks = [];
  policies = record {
    quiet_start = "21:30";
    quiet_end = "06:30";
    timezone = "Etc/UTC";
    teleop = "per-session";
    residency = "local-first";
  };
  schema = "ths/0.1";
  rev = "A";
}

abbrev robot : Grant
robot = record {
  id = "g-neo";
  name = "NEO";
  kind = "humanoid";
  scopes = read_layout ∷ read_inventory ∷ cmd_navigate ∷ [];
  zones = "kitchen" ∷ "workshop" ∷ [];
  window = "standing";
  expires = "revocable";
  status = active;
  issued = "";
  credential_digest = "d";
}

robot_zones :
    (d : Disclosed) × (scoped_view (house_with "Lab") robot ≡ active_view d)
    × (d.zones
        ≡ some (
            disclosed "kitchen" "Kitchen" "open" square none false
            ∷ blocked "workshop" square
            ∷ []))
    × (d.inventory ≡ some [])
    × (d.capabilities ≡ "command:navigate" ∷ [])
unfolding scoped_view
robot_zones = (_, refl, refl, refl, refl)

scoped_view_blind_example :
    scoped_view (house_with "Lab") robot ≡ scoped_view (house_with "Safe") robot
unfolding redact grantable
scoped_view_blind_example = scoped_view_blind (house_with "Lab") (house_with "Safe") robot refl

scoped_view-MayView_example :
    MayView (house_with "Lab") robot (scoped_view (house_with "Lab") robot)
scoped_view-MayView_example = scoped_view-MayView (house_with "Lab") robot
