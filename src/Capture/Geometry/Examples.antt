-- ===== src/Capture/Geometry/Examples.antt =====
-- Runs of capture/geometry.py, and its theorems at concrete inputs. Every document is written as one
-- byte, which is read as the document of two rooms.
use threshold_node.Core.LedgerEntry.{is_digest}
use threshold_node.Base.{
  leb, ok, err, ℕ, String, ◌≡◌, refl, Bool, true, Option, some, List, [], ◌∷◌, arith,
}
use threshold_node.Capture.Geometry.{
  Rectangle, RoomBinding, GeometryRoom, GeometryArtifact, duplicate_zone_id, boundary_of,
  valid_zone_id, valid_name, validated_binding, validated_from,
}
use threshold_node.Capture.Geometry.Artifact.{Document, document_of, build_geometry, parse_geometry}
use threshold_node.Capture.Geometry.Layout.{Apart, boundary_of-Apart}
use threshold_node.Capture.Geometry.Artifact.Binding.{build-parse}

abbrev digest_a : String
digest_a = "00000000000000000000000000000000000000000000000000000000000000aa"

abbrev digest_b : String
digest_b = "00000000000000000000000000000000000000000000000000000000000000bb"

abbrev kitchen : RoomBinding
kitchen = record {
  zone_id = "kitchen";
  suggested_name = "Kitchen";
  proposal_sha256 = digest_a;
  zone_candidate_id = "zone-candidate-001";
}

abbrev living_room : RoomBinding
living_room = record {
  zone_id = "living-room-2";
  suggested_name = "Living room";
  proposal_sha256 = digest_b;
  zone_candidate_id = "zone-candidate-001";
}

abbrev room_at : RoomBinding → ℕ → Rectangle → GeometryRoom
room_at b order boundary = record {
  order = order;
  zone_id = b.zone_id;
  suggested_name = b.suggested_name;
  proposal_sha256 = b.proposal_sha256;
  zone_candidate_id = "zone-candidate-001";
  boundary = boundary;
}

abbrev two_rooms : List GeometryRoom
two_rooms =
    room_at kitchen 0 (record { x = 0; y = 0; width = 400; height = 300 })
    ∷ room_at living_room 1 (record { x = 400; y = 0; width = 400; height = 300 })
    ∷ []

abbrev same_text : String → String
same_text t = t

abbrev from_space : ℕ → Bool
from_space c = leb 32 c

abbrev digest : List ℕ → String
digest bytes = digest_b

abbrev one_byte : Document → List ℕ
one_byte d = 123 ∷ []

abbrev read_two : List ℕ → Option Document
read_two bytes = some (document_of two_rooms)

abbrev two_room_artifact : GeometryArtifact
two_room_artifact = record {
  canonical_bytes = 123 ∷ [];
  geometry_sha256 = digest_b;
  rooms = two_rooms;
}

run_build :
    build_geometry same_text from_space digest one_byte read_two (kitchen ∷ living_room ∷ [])
    ≡ ok two_room_artifact
unfolding build_geometry validated_from validated_binding valid_zone_id valid_name is_digest
    boundary_of
run_build = refl

run_build_twice :
    build_geometry same_text from_space digest one_byte read_two (kitchen ∷ kitchen ∷ [])
    ≡ err duplicate_zone_id
unfolding build_geometry validated_from validated_binding valid_zone_id valid_name is_digest
    boundary_of
run_build_twice = refl

hex_digest_b : is_digest digest_b ≡ true
unfolding is_digest
hex_digest_b = refl

build-parse_example :
    parse_geometry same_text from_space digest one_byte read_two (123 ∷ []) digest_b
    ≡ ok two_room_artifact
build-parse_example =
    build-parse same_text from_space digest one_byte read_two (λ bytes. hex_digest_b)
      (kitchen ∷ living_room ∷ []) two_room_artifact run_build refl (omega arith) (omega arith)

boundary_of-Apart_example : Apart (boundary_of 7) (boundary_of 8)
boundary_of-Apart_example = boundary_of-Apart 7 8 (λ e. absurd (omega arith))
