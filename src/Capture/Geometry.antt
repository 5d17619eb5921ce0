-- ===== src/Capture/Geometry.antt =====
-- src/threshold/capture/geometry.py: the rectangles that an order of rooms is given, and the checks of
-- one binding. `strip` and `is_printable` are those of `str`.
pub mod Layout
pub mod Artifact
mod Examples
use threshold_node.Base.{
  leb, eqb, if◌then◌else◌, length, all, codes, is_digit, is_lower, Result, ok, err, ◌>>=◌, ℕ, ◌+◌,
  ◌*◌, ◌/◌, ◌%◌, String, Bool, true, false, not, ◌&&◌, ◌||◌, List, [], ◌∷◌, ◌==◌,
}
use threshold_node.Core.LedgerEntry.{is_digest}

abbrev pub max_rooms : ℕ
max_rooms = 64

abbrev pub max_room_name_length : ℕ
max_room_name_length = 80

abbrev pub max_geometry_bytes : ℕ
max_geometry_bytes = 131072

abbrev pub zone_candidate : String
zone_candidate = "zone-candidate-001"

pub record Rectangle : Type 0 where
  pub x : ℕ
  pub y : ℕ
  pub width : ℕ
  pub height : ℕ

pub record RoomBinding : Type 0 where
  pub zone_id : String
  pub suggested_name : String
  pub proposal_sha256 : String
  pub zone_candidate_id : String

pub record GeometryRoom : Type 0 where
  pub order : ℕ
  pub zone_id : String
  pub suggested_name : String
  pub proposal_sha256 : String
  pub zone_candidate_id : String
  pub boundary : Rectangle

pub record GeometryArtifact : Type 0 where
  pub canonical_bytes : List ℕ
  pub geometry_sha256 : String
  pub rooms : List GeometryRoom

-- The reasons of `GeometryValidationError`.
pub data GeometryError : Type 0 where
  invalid_zone_id invalid_suggested_name invalid_proposal_digest : GeometryError
  invalid_zone_candidate_id invalid_room_count duplicate_zone_id : GeometryError
  duplicate_proposal_digest invalid_geometry_document invalid_geometry_room : GeometryError
  invalid_geometry_boundary invalid_geometry_digest invalid_geometry_bytes : GeometryError
  geometry_digest_mismatch invalid_geometry_json noncanonical_geometry_json : GeometryError

-- `_boundary`
unfoldable pub boundary_of : ℕ → Rectangle
boundary_of order = record { x = order % 8 * 400; y = order / 8 * 300; width = 400; height = 300 }

-- What may follow in `_ZONE_ID`; the test says that a hyphen stands before.
zone_tail : Bool → List ℕ → Bool
zone_tail hyphen [] = not hyphen
zone_tail hyphen (c ∷ r) =
    let after_letter = zone_tail false r in
    let after_hyphen = zone_tail true r in
    if is_lower c || is_digit c
    then after_letter
    else (if eqb c b'-' then (not hyphen && after_hyphen) else false)

zone_codes : List ℕ → Bool
unfolding zone_tail
zone_codes [] = false
zone_codes (c ∷ r) = is_lower c && zone_tail false r

-- `_valid_zone_id`
unfoldable pub valid_zone_id : String → Bool
unfolding zone_codes
valid_zone_id value = leb (length (codes value)) 64 && zone_codes (codes value)

abbrev pub zone_ids : List GeometryRoom → List String
zone_ids [] = []
zone_ids (r ∷ rest) = r.zone_id ∷ zone_ids rest

abbrev pub proposal_digests : List GeometryRoom → List String
proposal_digests [] = []
proposal_digests (r ∷ rest) = r.proposal_sha256 ∷ proposal_digests rest

module _ (strip : String → String) (is_printable : ℕ → Bool) where
  -- `_valid_name`
  unfoldable pub valid_name : String → Bool
  valid_name value =
      let n = length (codes value) in
      (value == strip value)
      && leb 1 n
      && leb n max_room_name_length
      && all is_printable (codes value)

  -- `_validated_binding`
  unfoldable pub validated_binding : RoomBinding → ℕ → Result GeometryError GeometryRoom
  validated_binding b order =
      if not (valid_zone_id b.zone_id)
      then err invalid_zone_id
      else if not (valid_name b.suggested_name)
      then err invalid_suggested_name
      else if not (is_digest b.proposal_sha256)
      then err invalid_proposal_digest
      else if not (b.zone_candidate_id == zone_candidate)
      then err invalid_zone_candidate_id
      else ok (record {
        order = order;
        zone_id = b.zone_id;
        suggested_name = b.suggested_name;
        proposal_sha256 = b.proposal_sha256;
        zone_candidate_id = zone_candidate;
        boundary = boundary_of order;
      })

  unfoldable pub validated_from : ℕ → List RoomBinding → Result GeometryError (List GeometryRoom)
  validated_from order [] = ok []
  validated_from order (b ∷ rest) = do
    room ← validated_binding b order
    rooms ← validated_from (order + 1) rest
    ok (room ∷ rooms)
