-- ===== src/Core/Timestamp.antt =====
-- The RFC 3339 timestamps of grants/manager.py, grants/store.py and core/ledger.py, which hold the
-- same pattern. `datetime` is a parameter where it is read: `fromisoformat` takes the code points.
use threshold_node.Base.{
  eqb, if◌then◌else◌, is_digit, ℕ, zero, suc, Bool, true, false, ◌&&◌, ◌||◌, Option, none, some,
  List, [], ◌∷◌,
}

-- A value where a `datetime` is expected: none at all, one without an offset, or an aware one by its
-- UTC microsecond.
pub data Moment : Type 0 where
  not_a_datetime naive : Moment
  aware : ℕ → Moment

-- What is left after `n` characters of `[0-9]`.
after_digits : ℕ → List ℕ → Option (List ℕ)
after_digits zero r = some r
after_digits (suc n) [] = none
after_digits (suc n) (c ∷ r) = if is_digit c then after_digits n r else none

-- What is left after the one character `c`.
after_char : ℕ → Option (List ℕ) → Option (List ℕ)
after_char c none = none
after_char c (some []) = none
after_char c (some (d ∷ r)) = if eqb d c then some r else none

then_digits : ℕ → Option (List ℕ) → Option (List ℕ)
then_digits n none = none
then_digits n (some r) = after_digits n r

skip_digits : List ℕ → List ℕ
skip_digits [] = []
skip_digits (c ∷ r) = if is_digit c then skip_digits r else c ∷ r

-- `(?:\.[0-9]+)?`: no digit may start what follows, so the longest run is the only match.
after_fraction : List ℕ → Option (List ℕ)
after_fraction [] = some []
after_fraction (c ∷ r) =
    if eqb c b'.'
    then (elim (after_digits 1 r) [ none ↦ none | some rest ↦ some (skip_digits rest) ])
    else some (c ∷ r)

ends_here : Option (List ℕ) → Bool
ends_here none = false
ends_here (some []) = true
ends_here (some (c ∷ r)) = false

-- `(?:Z|[+-][0-9]{2}:[0-9]{2})\Z`
is_offset : List ℕ → Bool
unfolding after_digits after_char then_digits ends_here
is_offset [] = false
is_offset (c ∷ r) =
    if eqb c b'Z'
    then ends_here (some r)
    else ((eqb c b'+' || eqb c b'-')
        && ends_here (then_digits 2 (after_char b':' (after_digits 2 r))))

-- `RFC3339_TIMESTAMP.fullmatch(value)`
unfoldable pub is_rfc3339 : List ℕ → Bool
unfolding after_digits after_char then_digits after_fraction skip_digits is_offset
is_rfc3339 v =
    let date =
      then_digits 2 (after_char b'-' (then_digits 2 (after_char b'-' (after_digits 4 v)))) in
    let hour = then_digits 2 (after_char b'T' date) in
    let time = then_digits 2 (after_char b':' (then_digits 2 (after_char b':' hour))) in
    elim time [
      | none ↦ false
      | some r ↦ elim (after_fraction r) [ none ↦ false | some rest ↦ is_offset rest ]
    ]

-- `value.replace("Z", "+00:00")`
unfoldable pub replace_z : List ℕ → List ℕ
replace_z [] = []
replace_z (c ∷ r) =
    if eqb c b'Z' then b'+' ∷ b'0' ∷ b'0' ∷ b':' ∷ b'0' ∷ b'0' ∷ replace_z r else c ∷ replace_z r

-- `value.split(sep)`: the first part and the others.
unfoldable pub split_first : ℕ → List ℕ → List ℕ × List (List ℕ)
split_first sep [] = ([], [])
split_first sep (c ∷ r) =
    let (part, others) = split_first sep r in
    if eqb c sep then ([], part ∷ others) else (c ∷ part, others)
