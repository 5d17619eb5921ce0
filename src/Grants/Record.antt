-- ===== src/Grants/Record.antt =====
-- src/threshold/grants/store.py: which grant records the metadata store accepts. `is_printable` is
-- `str.isprintable` of a character and `fromisoformat` reads a timestamp. That a value has the
-- expected Python type is given by its type here.
pub mod Distinct
use threshold_node.Base.{
  ltb, leb, eqb, if◌then◌else◌, is_some, length, all, codes, is_digit, is_lower, is_upper, text_in,
  distinct, Dict, values, ℕ, String, Bool, true, false, not, ◌&&◌, ◌||◌, Option, none, some, List,
  [], ◌∷◌, ◌==◌,
}
use threshold_node.Core.Types.{Scope, has_scope, Grant}
use threshold_node.Core.Timestamp.{Moment, aware, is_rfc3339, replace_z, split_first}
use threshold_node.Core.LedgerEntry.{is_digest}

abbrev pub max_grants : ℕ
max_grants = 1024

abbrev pub max_zones_per_grant : ℕ
max_zones_per_grant = 64

abbrev pub max_name_length : ℕ
max_name_length = 128

abbrev pub max_policy_length : ℕ
max_policy_length = 128

-- `[A-Za-z0-9]` and `[A-Za-z0-9._-]`
is_alphanumeric : ℕ → Bool
is_alphanumeric c = is_digit c || is_lower c || is_upper c

is_id_char : ℕ → Bool
unfolding is_alphanumeric
is_id_char c = is_alphanumeric c || eqb c b'.' || eqb c b'_' || eqb c b'-'

-- `[A-Za-z0-9][A-Za-z0-9._-]{0,n}\Z`
is_identifier : ℕ → List ℕ → Bool
unfolding is_alphanumeric is_id_char
is_identifier n [] = false
is_identifier n (c ∷ r) = is_alphanumeric c && leb (length r) n && all is_id_char r

after_g : List ℕ → Bool
unfolding is_identifier
after_g (a ∷ b ∷ r) = eqb a b'g' && eqb b b'-' && is_identifier 125 r
after_g _ = false

-- `_GRANT_ID`
unfoldable pub is_grant_id : String → Bool
unfolding after_g
is_grant_id value = after_g (codes value)

-- `_ZONE_ID`
unfoldable pub is_zone_id : String → Bool
unfolding is_identifier
is_zone_id value = is_identifier 127 (codes value)

-- `len(set(scopes)) == len(scopes)`
distinct_scopes : List Scope → Bool
distinct_scopes [] = true
distinct_scopes (s ∷ rest) = if has_scope s rest then false else distinct_scopes rest

-- `_KINDS`
is_kind : String → Bool
is_kind k = k == "agent" || k == "human" || k == "humanoid"

module _ (is_printable : ℕ → Bool) (fromisoformat : List ℕ → Option Moment) where
  -- `_bounded_text`
  unfoldable pub bounded_text : String → ℕ → Bool
  bounded_text value maximum =
      let n = length (codes value) in leb 1 n && leb n maximum && all is_printable (codes value)

  aware_time : Option Moment → Option ℕ
  aware_time (some (aware t)) = some t
  aware_time _ = none

  -- The instant of an accepted timestamp: `_valid_timestamp`, with the value that was parsed.
  unfoldable pub timestamp_of : List ℕ → Option ℕ
  unfolding aware_time
  timestamp_of value =
      if ltb max_policy_length (length value) || not (is_rfc3339 value)
      then none
      else aware_time (fromisoformat (replace_z value))

  abbrev pub stored_timestamp : String → Bool
  stored_timestamp value = is_some (timestamp_of (codes value))

  before_end : Option ℕ → Option ℕ → Bool
  before_end (some start) (some end) = ltb start end
  before_end _ _ = false

  window_parts : List ℕ × List (List ℕ) → Bool
  unfolding before_end
  window_parts (first, []) = false
  window_parts (first, second ∷ []) = before_end (timestamp_of first) (timestamp_of second)
  window_parts (first, second ∷ third ∷ rest) = false

  -- `_valid_window`
  unfoldable pub valid_window : String → Bool
  unfolding window_parts
  valid_window value =
      if value == "standing"
      then true
      else if ltb max_policy_length (length (codes value))
      then false
      else window_parts (split_first b'/' (codes value))

  -- `_validate_record`
  unfoldable pub validate_record : Grant → Bool
  unfolding distinct_scopes is_kind
  validate_record g =
      is_grant_id g.id
      && bounded_text g.name max_name_length
      && is_kind g.kind
      && leb 1 (length g.scopes)
      && leb (length g.scopes) 5
      && distinct_scopes g.scopes
      && leb 1 (length g.zones)
      && leb (length g.zones) max_zones_per_grant
      && all is_zone_id g.zones
      && distinct g.zones
      && valid_window g.window
      && (g.expires == "revocable" || stored_timestamp g.expires)
      && stored_timestamp g.issued
      && is_digest g.credential_digest

  -- The loop of `_records_to_grants` and of `_normalize_outgoing` over records in order: every one
  -- valid, no id and no digest seen before.
  unfoldable pub distinct_records : List String → List String → List Grant → Bool
  distinct_records ids digests [] = true
  distinct_records ids digests (g ∷ rest) =
      let later = distinct_records (g.id ∷ ids) (g.credential_digest ∷ digests) rest in
      if validate_record g && not (text_in g.id ids) && not (text_in g.credential_digest digests)
      then later
      else false

  -- `key == grant.id` for each item.
  keys_match : Dict Grant → Bool
  keys_match [] = true
  keys_match ((k, g) ∷ rest) = (k == g.id) && keys_match rest

  -- What `_normalize_outgoing` accepts of a dict.
  unfoldable pub valid_grants : Dict Grant → Bool
  unfolding keys_match distinct_records
  valid_grants grants =
      keys_match grants && leb (length grants) max_grants && distinct_records [] [] (values grants)

-- The order of Python's texts: by code points.
pub text_leb : List ℕ → List ℕ → Bool
text_leb [] ys = true
text_leb (x ∷ xs) [] = false
text_leb (x ∷ xs) (y ∷ ys) =
    let rest = text_leb xs ys in if ltb x y then true else if eqb x y then rest else false

unfoldable pub insert_record : Grant → List Grant → List Grant
unfolding text_leb
insert_record g [] = g ∷ []
insert_record g (h ∷ rest) =
    if text_leb (codes g.id) (codes h.id) then g ∷ h ∷ rest else h ∷ insert_record g rest

-- `sorted(normalized, key=lambda record: record["id"])`
unfoldable pub sorted_records : List Grant → List Grant
unfolding insert_record
sorted_records [] = []
sorted_records (g ∷ rest) = insert_record g (sorted_records rest)
