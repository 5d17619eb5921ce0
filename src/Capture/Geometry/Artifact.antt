-- ===== src/Capture/Geometry/Artifact.antt =====
-- src/threshold/capture/geometry.py: build_geometry and parse_geometry. `dumps` gives the canonical
-- bytes of a document, and `loads` the document in some bytes, or `none` where they hold none. A
-- sequence of bindings that changes while it is read is not modelled.
pub mod Binding
use threshold_node.Base.{
  leb, eqb, if◌then◌else◌, length, text_in, distinct, Result, ok, err, ◌>>=◌, ◌>>◌, raise_if, ℕ,
  ◌+◌, String, Bool, true, false, not, ◌&&◌, Option, none, some, List, [], ◌∷◌, map, ◌==◌,
}
use threshold_node.Core.LedgerEntry.{is_digest}
use threshold_node.Capture.Geometry.{
  max_rooms, max_geometry_bytes, zone_candidate, Rectangle, RoomBinding, GeometryRoom,
  GeometryArtifact, GeometryError, invalid_room_count, duplicate_zone_id, duplicate_proposal_digest,
  invalid_geometry_document, invalid_geometry_room, invalid_geometry_boundary,
  invalid_geometry_digest, invalid_geometry_bytes, geometry_digest_mismatch, invalid_geometry_json,
  noncanonical_geometry_json, boundary_of, valid_zone_id, zone_ids, proposal_digests, valid_name,
  validated_from,
}

-- A room of a parsed document: `none` is a value that is no `int`, is a `bool` or is negative.
pub record RawRoom : Type 0 where
  pub order : Option ℕ
  pub zone_id : String
  pub suggested_name : String
  pub proposal_sha256 : String
  pub zone_candidate_id : String
  pub boundary : List (Option ℕ)

pub record Document : Type 0 where
  pub schema : String
  pub algorithm : String
  pub rooms : List RawRoom
  pub canonical_housefile_written : Bool

-- `tuple(raw_boundary) != expected_boundary`, with the checks of the list before it.
pub same_boundary : List (Option ℕ) → Rectangle → Bool
same_boundary (some x ∷ some y ∷ some w ∷ some h ∷ []) b =
    eqb x b.x && eqb y b.y && eqb w b.width && eqb h b.height
same_boundary _ b = false

pub same_order : Option ℕ → ℕ → Bool
same_order none order = false
same_order (some n) order = eqb n order

module _ (strip : String → String) (is_printable : ℕ → Bool) where
  -- The checks of one room of a document, and its projection.
  unfoldable pub validate_room :
      ℕ → List String → List String → RawRoom → Result GeometryError GeometryRoom
  unfolding same_boundary same_order
  validate_room order ids digests raw =
      if not (
        same_order raw.order order
        && valid_zone_id raw.zone_id
        && valid_name strip is_printable raw.suggested_name
        && is_digest raw.proposal_sha256
        && (raw.zone_candidate_id == zone_candidate))
      then err invalid_geometry_room
      else if not (same_boundary raw.boundary (boundary_of order))
      then err invalid_geometry_boundary
      else if text_in raw.zone_id ids
      then err duplicate_zone_id
      else if text_in raw.proposal_sha256 digests
      then err duplicate_proposal_digest
      else ok (record {
        order = order;
        zone_id = raw.zone_id;
        suggested_name = raw.suggested_name;
        proposal_sha256 = raw.proposal_sha256;
        zone_candidate_id = zone_candidate;
        boundary = boundary_of order;
      })

  unfoldable pub validate_rooms :
      ℕ → List String → List String → List RawRoom → Result GeometryError (List GeometryRoom)
  validate_rooms order ids digests [] = ok []
  validate_rooms order ids digests (raw ∷ rest) = do
    room ← validate_room order ids digests raw
    rooms ← validate_rooms (order + 1) (raw.zone_id ∷ ids) (raw.proposal_sha256 ∷ digests) rest
    ok (room ∷ rooms)

  -- `_validate_document`
  unfoldable pub validate_document : Document → Result GeometryError (List GeometryRoom)
  validate_document d =
      let rooms = validate_rooms 0 [] [] d.rooms in
      let n = length d.rooms in
      if not (
        (d.schema == "ths/geometry-proposal/0.1")
        && (d.algorithm == "ths/rectangular-strip-grid/0.1")
        && not d.canonical_housefile_written)
      then err invalid_geometry_document
      else if leb 1 n && leb n max_rooms
      then rooms
      else err invalid_room_count

-- `GeometryRoom.as_dict`
abbrev pub raw_of : GeometryRoom → RawRoom
raw_of r = record {
  order = some r.order;
  zone_id = r.zone_id;
  suggested_name = r.suggested_name;
  proposal_sha256 = r.proposal_sha256;
  zone_candidate_id = r.zone_candidate_id;
  boundary =
      some r.boundary.x ∷ some r.boundary.y ∷ some r.boundary.width ∷ some r.boundary.height ∷ [];
}

-- `GeometryArtifact.as_dict`
abbrev pub document_of : List GeometryRoom → Document
document_of rooms = record {
  schema = "ths/geometry-proposal/0.1";
  algorithm = "ths/rectangular-strip-grid/0.1";
  rooms = map raw_of rooms;
  canonical_housefile_written = false;
}

-- The comparison of two byte strings.
pub same_bytes_as : List ℕ → List ℕ → Bool
same_bytes_as [] [] = true
same_bytes_as [] (d ∷ s) = false
same_bytes_as (c ∷ r) [] = false
same_bytes_as (c ∷ r) (d ∷ s) = eqb c d && same_bytes_as r s

module _ (strip : String → String) (is_printable : ℕ → Bool) (sha256 : List ℕ → String)
    (dumps : Document → List ℕ) (loads : List ℕ → Option Document) where
  -- `_artifact`
  abbrev pub artifact_of : List GeometryRoom → GeometryArtifact
  artifact_of rooms = record {
    canonical_bytes = dumps (document_of rooms);
    geometry_sha256 = sha256 (dumps (document_of rooms));
    rooms = rooms;
  }

  -- `build_geometry`
  unfoldable pub build_geometry : List RoomBinding → Result GeometryError GeometryArtifact
  build_geometry bindings =
      let n = length bindings in
      if leb 1 n && leb n max_rooms
      then (do
        rooms ← validated_from strip is_printable 0 bindings
        raise_if (not (distinct (zone_ids rooms))) duplicate_zone_id
        raise_if (not (distinct (proposal_digests rooms))) duplicate_proposal_digest
        ok (artifact_of rooms))
      else err invalid_room_count

  same_artifact :
      List ℕ
      → String
      → Result GeometryError (List GeometryRoom)
      → Result GeometryError GeometryArtifact
  unfolding same_bytes_as
  same_artifact bytes expected (err e) = err e
  same_artifact bytes expected (ok rooms) =
      let a = artifact_of rooms in
      if not (same_bytes_as a.canonical_bytes bytes)
      then err noncanonical_geometry_json
      else if not (a.geometry_sha256 == expected)
      then err geometry_digest_mismatch
      else ok a

  parsed_document : List ℕ → String → Option Document → Result GeometryError GeometryArtifact
  unfolding same_artifact
  parsed_document bytes expected none = err invalid_geometry_json
  parsed_document bytes expected (some d) =
      same_artifact bytes expected (validate_document strip is_printable d)

  -- `parse_geometry`
  unfoldable pub parse_geometry : List ℕ → String → Result GeometryError GeometryArtifact
  unfolding parsed_document
  parse_geometry bytes expected =
      let n = length bytes in
      if not (is_digest expected)
      then err invalid_geometry_digest
      else if not (leb 1 n && leb n max_geometry_bytes)
      then err invalid_geometry_bytes
      else if not (sha256 bytes == expected)
      then err geometry_digest_mismatch
      else parsed_document bytes expected (loads bytes)
