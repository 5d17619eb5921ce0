-- ===== src/Capture/Geometry/Artifact/Binding.antt =====
-- What capture/geometry.py builds, it reads back; what it reads, it has built.
use threshold_node.Core.LedgerEntry.{is_digest}
use threshold_node.Base.{
  Option-cases, length, text_in, distinct, ok, Result-cases, ℕ, suc, ◌+◌, ◌≤◌, String, ◌≡◌, refl,
  sym, ap, ◌∙◌, subst, inl, inr, Bool, true, false, Option, some, List, [], ◌∷◌, map, arith, eq_iff,
  eq_refl,
}
use threshold_node.Capture.Geometry.{
  max_rooms, max_geometry_bytes, zone_candidate, RoomBinding, GeometryRoom, GeometryArtifact,
  boundary_of, valid_zone_id, zone_ids, proposal_digests, valid_name, validated_binding,
  validated_from,
}
use threshold_node.Capture.Geometry.Artifact.{
  Document, validate_room, validate_rooms, validate_document, raw_of, document_of, same_bytes_as,
  artifact_of, build_geometry, parse_geometry,
}

same_bytes_as_refl : (xs : List ℕ) → same_bytes_as xs xs ≡ true
unfolding same_bytes_as
same_bytes_as_refl [] = refl
same_bytes_as_refl (x ∷ xs) = ground (arith, same_bytes_as_refl xs)

same_bytes_as_lem : (xs ys : List ℕ) → same_bytes_as xs ys ≡ true → xs ≡ ys
unfolding same_bytes_as
same_bytes_as_lem [] [] h = refl
same_bytes_as_lem [] (y ∷ ys) h = cc
same_bytes_as_lem (x ∷ xs) [] h = cc
same_bytes_as_lem (x ∷ xs) (y ∷ ys) h = ground (arith, same_bytes_as_lem xs ys)

-- No text of the one list is in the other.
abbrev pub Fresh : List String → List String → Type 0
Fresh xs seen = (x : String) → text_in x xs ≡ true → text_in x seen ≡ false

Fresh-tail :
    (x : String) (xs seen : List String)
    → distinct (x ∷ xs) ≡ true
    → Fresh (x ∷ xs) seen
    → (text_in x seen ≡ false) × Fresh xs (x ∷ seen)
Fresh-tail x xs seen h fresh =
    (fresh x (ground (arith, eq_refl x)), λ y m. ground (arith, fresh y, eq_iff y x))

module _ (strip : String → String) (is_printable : ℕ → Bool) where
  abbrev room_of : RoomBinding → ℕ → GeometryRoom
  room_of b order = record {
    order = order;
    zone_id = b.zone_id;
    suggested_name = b.suggested_name;
    proposal_sha256 = b.proposal_sha256;
    zone_candidate_id = zone_candidate;
    boundary = boundary_of order;
  }

  validated_room_of :
      (b : RoomBinding) (order : ℕ) (r : GeometryRoom)
      → validated_binding strip is_printable b order ≡ ok r
      → (room_of b order ≡ r)
        × (valid_zone_id b.zone_id ≡ true)
        × (valid_name strip is_printable b.suggested_name ≡ true)
        × (is_digest b.proposal_sha256 ≡ true)
  unfolding validated_binding
  validated_room_of b order r h = (ground arith, ground arith, ground arith, ground arith)

  room_of_valid :
      (b : RoomBinding) (order : ℕ) (ids digests : List String)
      → valid_zone_id b.zone_id ≡ true
      → valid_name strip is_printable b.suggested_name ≡ true
      → is_digest b.proposal_sha256 ≡ true
      → text_in b.zone_id ids ≡ false
      → text_in b.proposal_sha256 digests ≡ false
      → validate_room strip is_printable order ids digests (raw_of (room_of b order))
        ≡ ok (room_of b order)
  unfolding validate_room boundary_of
  room_of_valid b order ids digests hz hn hd fi fd = rw (hz, hn, hd, fi, fd) (ground arith)

  validated_room :
      (b : RoomBinding) (order : ℕ) (r : GeometryRoom) (ids digests : List String)
      → validated_binding strip is_printable b order ≡ ok r
      → text_in r.zone_id ids ≡ false
      → text_in r.proposal_sha256 digests ≡ false
      → validate_room strip is_printable order ids digests (raw_of r) ≡ ok r
  validated_room b order r ids digests h fi fd =
      let (same, hz, hn, hd) = validated_room_of b order r h in
      subst (λ x. validate_room strip is_printable order ids digests (raw_of x) ≡ ok x) same
        (room_of_valid b order ids digests hz hn hd (ap (λ x. text_in x.zone_id ids) same ∙ fi)
          (ap (λ x. text_in x.proposal_sha256 digests) same ∙ fd))

  RebuildsRooms : ℕ → List String → List String → List GeometryRoom → Type 0
  RebuildsRooms order ids digests rooms =
      distinct (zone_ids rooms) ≡ true
      → distinct (proposal_digests rooms) ≡ true
      → Fresh (zone_ids rooms) ids
      → Fresh (proposal_digests rooms) digests
      → validate_rooms strip is_printable order ids digests (map raw_of rooms) ≡ ok rooms

  rebuilds_nil : (order : ℕ) (ids digests : List String) → RebuildsRooms order ids digests []
  unfolding RebuildsRooms validate_rooms
  rebuilds_nil order ids digests di dd fi fd = refl

  rebuilds_cons :
      (b : RoomBinding) (order : ℕ) (r : GeometryRoom) (rs : List GeometryRoom)
      (ids digests : List String)
      → validated_binding strip is_printable b order ≡ ok r
      → RebuildsRooms (order + 1) (r.zone_id ∷ ids) (r.proposal_sha256 ∷ digests) rs
      → RebuildsRooms order ids digests (r ∷ rs)
  unfolding RebuildsRooms validate_rooms
  rebuilds_cons b order r rs ids digests e later di dd fi fd =
      let (new_id, ids_fresh) = Fresh-tail r.zone_id (zone_ids rs) ids di fi in
      let (new_digest, digests_fresh) =
        Fresh-tail r.proposal_sha256 (proposal_digests rs) digests dd fd in
      let room = validated_room b order r ids digests e new_id new_digest in
      let rest = later (ground arith) (ground arith) ids_fresh digests_fresh in ground arith

  validated_rooms :
      (order : ℕ) (bindings : List RoomBinding) (rooms : List GeometryRoom)
      (ids digests : List String)
      → validated_from strip is_printable order bindings ≡ ok rooms
      → RebuildsRooms order ids digests rooms
  unfolding validated_from
  validated_rooms order [] rooms ids digests h =
      let nil : [] ≡ rooms = ground arith in
      subst (RebuildsRooms order ids digests) nil (rebuilds_nil order ids digests)
  validated_rooms order (b ∷ rest) rooms ids digests h =
      elim (Result-cases (validated_binding strip is_printable b order)) [
        | inl (r, e) ↦ elim (Result-cases (validated_from strip is_printable (order + 1) rest)) [
          | inl (rs, es) ↦
              let cons : r ∷ rs ≡ rooms = ground arith in
              subst (RebuildsRooms order ids digests) cons (
                rebuilds_cons b order r rs ids digests e (
                  validated_rooms (order + 1) rest rs (r.zone_id ∷ ids)
                    (r.proposal_sha256 ∷ digests) es))
          | inr (x, es) ↦ absurd (ground arith)
        ]
        | inr (x, e) ↦ absurd (ground arith)
      ]

  validated-length :
      (order : ℕ) (bindings : List RoomBinding) (rooms : List GeometryRoom)
      → validated_from strip is_printable order bindings ≡ ok rooms
      → length (map raw_of rooms) ≡ length bindings
  unfolding validated_from
  validated-length order [] rooms h = let nil : rooms ≡ [] = ground arith in rw nil refl
  validated-length order (b ∷ rest) rooms h =
      elim (Result-cases (validated_binding strip is_printable b order)) [
        | inl (r, e) ↦ elim (Result-cases (validated_from strip is_printable (order + 1) rest)) [
          | inl (rs, es) ↦
              let cons : rooms ≡ r ∷ rs = ground arith in
              rw cons (ap suc (validated-length (order + 1) rest rs es))
          | inr (x, es) ↦ absurd (ground arith)
        ]
        | inr (x, e) ↦ absurd (ground arith)
      ]

  document_valid :
      (bindings : List RoomBinding) (rooms : List GeometryRoom)
      → validated_from strip is_printable 0 bindings ≡ ok rooms
      → distinct (zone_ids rooms) ≡ true
      → distinct (proposal_digests rooms) ≡ true
      → 1 ≤ length bindings
      → length bindings ≤ max_rooms
      → validate_document strip is_printable (document_of rooms) ≡ ok rooms
  unfolding validate_document RebuildsRooms
  document_valid bindings rooms h di dd some_rooms few =
      let long : length (map raw_of rooms) ≡ length bindings =
        validated-length 0 bindings rooms h in
      let again = validated_rooms 0 bindings rooms [] [] h di dd (λ x m. refl) (λ x m. refl) in
      rw (again, long) (ground arith)

  module _ (sha256 : List ℕ → String) (dumps : Document → List ℕ)
      (loads : List ℕ → Option Document) where
    parse_artifact :
        (rooms : List GeometryRoom)
        → is_digest (sha256 (dumps (document_of rooms))) ≡ true
        → loads (dumps (document_of rooms)) ≡ some (document_of rooms)
        → 1 ≤ length (dumps (document_of rooms))
        → length (dumps (document_of rooms)) ≤ max_geometry_bytes
        → validate_document strip is_printable (document_of rooms) ≡ ok rooms
        → parse_geometry strip is_printable sha256 dumps loads
            (dumps (document_of rooms))
            (sha256 (dumps (document_of rooms)))
          ≡ ok (artifact_of strip is_printable sha256 dumps loads rooms)
    unfolding parse_geometry
    parse_artifact rooms hex reads some_bytes few valid =
        let bytes = dumps (document_of rooms) in
        rw (hex, eq_refl, reads, valid, same_bytes_as_refl) (ground (arith, eq_refl (sha256 bytes)))

    -- With a digest of 64 hexadecimal digits and a `loads` that reads back the document that was
    -- written, the artifact that is built from bindings, if it has from 1 byte to 128 KiB, is parsed
    -- from its bytes and digest as itself.
    pub build-parse :
        (hex_digest : (bytes : List ℕ) → is_digest (sha256 bytes) ≡ true)
        (bindings : List RoomBinding) (a : GeometryArtifact)
        → build_geometry strip is_printable sha256 dumps loads bindings ≡ ok a
        → loads a.canonical_bytes ≡ some (document_of a.rooms)
        → 1 ≤ length a.canonical_bytes
        → length a.canonical_bytes ≤ max_geometry_bytes
        → parse_geometry strip is_printable sha256 dumps loads a.canonical_bytes a.geometry_sha256
          ≡ ok a
    unfolding build_geometry
    build-parse hex_digest bindings a h reads some_bytes few =
        elim (Result-cases (validated_from strip is_printable 0 bindings)) [
          | inl (rooms, e) ↦
              let same : artifact_of strip is_printable sha256 dumps loads rooms ≡ a =
                ground arith in
              subst
                (λ x.
                  parse_geometry strip is_printable sha256 dumps loads x.canonical_bytes
                    x.geometry_sha256
                  ≡ ok x)
                same
                (parse_artifact rooms (hex_digest _)
                  (subst (λ x. loads x.canonical_bytes ≡ some (document_of x.rooms)) (sym same)
                    reads)
                  (subst (λ x. 1 ≤ length x.canonical_bytes) (sym same) some_bytes)
                  (subst (λ x. length x.canonical_bytes ≤ max_geometry_bytes) (sym same) few)
                  (document_valid bindings rooms e (ground arith) (ground arith) (ground arith)
                    (ground arith)))
          | inr (x, e) ↦ absurd (ground arith)
        ]

    -- A parsed artifact holds the very bytes and digest that were given, the bytes are the
    -- canonical ones of its rooms, and the digest is theirs.
    pub parse-canonical :
        (bytes : List ℕ) (expected : String) (a : GeometryArtifact)
        → parse_geometry strip is_printable sha256 dumps loads bytes expected ≡ ok a
        → (a.canonical_bytes ≡ bytes)
          × (a.geometry_sha256 ≡ expected)
          × (dumps (document_of a.rooms) ≡ bytes)
          × (sha256 bytes ≡ expected)
    unfolding parse_geometry
    parse-canonical bytes expected a h = elim (Option-cases (loads bytes)) [
      | inl e ↦ absurd (ground arith)
      | inr (d, e) ↦ elim (Result-cases (validate_document strip is_printable d)) [
        | inl (rooms, v) ↦
            let same : dumps (document_of rooms) ≡ bytes =
              same_bytes_as_lem (dumps (document_of rooms)) bytes (ground arith) in
            let made : artifact_of strip is_printable sha256 dumps loads rooms ≡ a = ground arith in
            let hashed : sha256 bytes ≡ expected =
              (eq_iff (sha256 bytes) expected).0 (ground arith) in
            (
              ap (λ x. x.canonical_bytes) (sym made) ∙ same,
              ap (λ x. x.geometry_sha256) (sym made) ∙ ap sha256 same ∙ hashed,
              ap (λ x. dumps (document_of x.rooms)) (sym made) ∙ same,
              hashed,
            )
        | inr (x, v) ↦ absurd (ground arith)
      ]
    ]
