-- ===== src/Base/Text.antt =====
-- Texts: the native `String` where the program compares, its code points where it walks.
use Prim.Native.Nat.{ℕ}
use Prim.Native.Char.{code}
use Prim.Native.String.{String}
use mathlib.Core.Bool.{Bool, true, false, ◌&&◌, ◌||◌}
use mathlib.Core.List.{List, [], ◌∷◌}
use text.Mathlib.Text.{◌==◌}
use threshold_node.Base.Tests.{leb, if◌then◌else◌}

abbrev pub codes : String → List ℕ
codes String.[] = []
codes (String.◌∷◌ c s) = code c ∷ codes s

-- The character class `[0-9]`.
abbrev pub is_digit : ℕ → Bool
is_digit c = leb b'0' c && leb c b'9'

-- The character class `[0-9a-f]`.
abbrev pub is_hex : ℕ → Bool
is_hex c = is_digit c || (leb b'a' c && leb c b'f')

abbrev pub is_lower : ℕ → Bool
is_lower c = leb b'a' c && leb c b'z'

abbrev pub is_upper : ℕ → Bool
is_upper c = leb b'A' c && leb c b'Z'

-- `x in xs` for texts.
abbrev pub text_in : String → List String → Bool
text_in x [] = false
text_in x (y ∷ ys) = if x == y then true else text_in x ys

-- `len(set(xs)) == len(xs)` for texts.
abbrev pub distinct : List String → Bool
distinct [] = true
distinct (x ∷ xs) = if text_in x xs then false else distinct xs

-- `a + b` for texts.
abbrev pub append_text : String → String → String
append_text String.[] t = t
append_text (String.◌∷◌ c s) t = String.◌∷◌ c (append_text s t)
