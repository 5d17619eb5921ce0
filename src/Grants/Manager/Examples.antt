-- ===== src/Grants/Manager/Examples.antt =====
-- Runs of grants/manager.py, and its theorems at concrete inputs.
use threshold_node.Core.Types.{
  open_access, cmd_navigate, active, revoked, Coordinate, Boundary, Housefile, Grant,
}
use threshold_node.Grants.Manager.{
  unknown_zone, parse_timestamp, parse_window, expire_now, allow, decision, credential_in,
  check_zones, issue, revoke,
}
use threshold_node.Base.{
  if◌then◌else◌, is_digit, ok, err, ℕ, ◌+◌, ◌-◌, ◌*◌, ◌≡◌, refl, ◌↔◌, true, false, Option, some,
  List, [], ◌∷◌,
}
use threshold_node.Core.Timestamp.{Moment, aware, is_rfc3339, replace_z, split_first}
use threshold_node.Grants.Manager.Decisions.{Usable, decision-allowed_iff}
use threshold_node.Grants.Manager.Issue.{
  AllBacked, DistinctCredentials, issue-AllBacked, issue-DistinctCredentials,
}

-- The digits of a timestamp as one number, which orders those in UTC.
abbrev digits_from : ℕ → List ℕ → ℕ
digits_from n [] = n
digits_from n (c ∷ r) = if is_digit c then digits_from (n * 10 + (c - b'0')) r else digits_from n r

abbrev read_clock : List ℕ → Option Moment
read_clock v = some (aware (digits_from 0 v))

abbrev ten_o_clock : ℕ
ten_o_clock = 202607151000000000

abbrev noon : ℕ
noon = 202607151200000000

abbrev unit_square : Boundary
unit_square =
    let zero_metres : Coordinate = record { negative = false; mantissa = 0; halvings = 0 } in
    let one_metre : Coordinate = record { negative = false; mantissa = 1; halvings = 0 } in
    record { x = zero_metres; y = zero_metres; w = one_metre; h = one_metre }

abbrev house : Housefile
house = record {
  dwelling_name = "Demo";
  zones =
      record {
        id = "kitchen";
        name = "Kitchen";
        access = open_access;
        boundary = unit_square;
        note = "";
        outdoor = false;
      }
      ∷ [];
  systems = [];
  inventory = [];
  quirks = [];
  policies = record {
    quiet_start = "22:00";
    quiet_end = "07:00";
    timezone = "America/New_York";
    teleop = "prohibited";
    residency = "on-device";
  };
  schema = "threshold.housefile/0.1";
  rev = "r1";
}

abbrev courier : Grant
courier = record {
  id = "gr_1";
  name = "Courier";
  kind = "manipulator";
  scopes = cmd_navigate ∷ [];
  zones = "kitchen" ∷ [];
  window = "2026-07-15T09:00:00Z/2026-07-15T11:00:00Z";
  expires = "2026-07-15T11:30:00Z";
  status = active;
  issued = "2026-07-15T08:00:00Z";
  credential_digest = "d1";
}

abbrev keeper : Grant
keeper = record courier {
  id = "gr_2";
  window = "standing";
  expires = "revocable";
  credential_digest = "d2";
}

run_at_ten : decision read_clock 0 courier (some (aware ten_o_clock)) ≡ allow
unfolding decision is_rfc3339 replace_z split_first parse_timestamp parse_window
run_at_ten = refl

run_at_noon : decision read_clock 0 courier (some (aware noon)) ≡ expire_now
unfolding decision is_rfc3339 replace_z split_first parse_timestamp parse_window
run_at_noon = refl

run_unknown_zone :
    issue read_clock 0 house [] (record courier { zones = "attic" ∷ [] }) (some (aware ten_o_clock))
    ≡ err (unknown_zone "attic")
unfolding issue check_zones credential_in
run_unknown_zone = refl

issued_first :
    issue read_clock 0 house [] courier (some (aware ten_o_clock)) ≡ ok (("gr_1", courier) ∷ [])
unfolding issue check_zones credential_in is_rfc3339 replace_z split_first parse_timestamp
    parse_window
issued_first = refl

issued_second :
    issue read_clock 0 house (("gr_1", courier) ∷ []) keeper (some (aware ten_o_clock))
    ≡ ok (("gr_1", courier) ∷ ("gr_2", keeper) ∷ [])
unfolding issue check_zones credential_in is_rfc3339 replace_z split_first parse_timestamp
    parse_window
issued_second = refl

none_backed : AllBacked house []
none_backed k g h = cc

none_distinct : DistinctCredentials []
none_distinct j k g h at_j = cc

one_backed : AllBacked house (("gr_1", courier) ∷ [])
one_backed =
    issue-AllBacked read_clock 0 house [] (("gr_1", courier) ∷ []) courier
      (some (aware ten_o_clock)) none_backed issued_first

one_distinct : DistinctCredentials (("gr_1", courier) ∷ [])
one_distinct =
    issue-DistinctCredentials read_clock 0 house [] (("gr_1", courier) ∷ []) courier
      (some (aware ten_o_clock)) none_distinct issued_first

issue-AllBacked_example : AllBacked house (("gr_1", courier) ∷ ("gr_2", keeper) ∷ [])
issue-AllBacked_example =
    issue-AllBacked read_clock 0 house (("gr_1", courier) ∷ [])
      (("gr_1", courier) ∷ ("gr_2", keeper) ∷ []) keeper (some (aware ten_o_clock)) one_backed
      issued_second

issue-DistinctCredentials_example : DistinctCredentials (("gr_1", courier) ∷ ("gr_2", keeper) ∷ [])
issue-DistinctCredentials_example =
    issue-DistinctCredentials read_clock 0 house (("gr_1", courier) ∷ [])
      (("gr_1", courier) ∷ ("gr_2", keeper) ∷ []) keeper (some (aware ten_o_clock)) one_distinct
      issued_second

decision-allowed_iff_example :
    ((decision read_clock 0 courier (some (aware ten_o_clock))).allowed ≡ true)
    ↔ Usable read_clock courier ten_o_clock
decision-allowed_iff_example = decision-allowed_iff read_clock 0 courier ten_o_clock

run_revoke :
    revoke (("gr_1", courier) ∷ ("gr_2", keeper) ∷ []) "gr_1"
    ≡ some (("gr_1", record courier { status = revoked }) ∷ ("gr_2", keeper) ∷ [])
unfolding revoke
run_revoke = refl
