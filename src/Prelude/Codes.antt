-- ===== src/Prelude/Codes.antt =====
-- Text as the list of its characters' codes, and the character classes of the plugin's patterns.
use Prim.Native.Nat.{ℕ, zero, suc, ◌+◌, ◌*◌, ◌-◌, ◌/◌}
use Prim.Native.Char.{code}
use Prim.Native.String.{String}
use mathlib.Core.Path.{◌≡◌, refl}
use mathlib.Core.Bool.{Bool, true, false, not, ◌&&◌, ◌||◌}
use mathlib.Core.List.{List, [], ◌∷◌}
use native.Mathlib.Omega.{arith}
use sidewisp_plugin.Prelude.Tests.{leb, eqb, ltb, if◌then◌else◌}

abbrev pub Text : Type 0
Text = List ℕ

abbrev pub codes : String → Text
codes String.[] = []
codes (String.◌∷◌ c s) = code c ∷ codes s

-- `value.length`, in UTF-16 units
abbrev pub units : Text → ℕ
units [] = 0
units (c ∷ s) = (if leb 65536 c then 2 else 1) + units s

-- The first unit of a pair
abbrev pub high_half : ℕ → ℕ
high_half c = 55296 + (c - 65536) / 1024

-- `text.slice(0, n)`, in UTF-16 units, half of a pair at its end included
abbrev pub slice_units : ℕ → Text → Text
slice_units zero s = []
slice_units (suc n) [] = []
slice_units (suc n) (c ∷ s) =
    let one = slice_units n s in
    let two = slice_units (n - 1) s in
    if not (leb 65536 c) then c ∷ one else if eqb n 0 then high_half c ∷ [] else c ∷ two

abbrev pub is_digit : ℕ → Bool
is_digit c = leb 48 c && leb c 57

abbrev pub is_lower : ℕ → Bool
is_lower c = leb 97 c && leb c 122

abbrev pub is_upper : ℕ → Bool
is_upper c = leb 65 c && leb c 90

-- `===` on texts.
unfoldable pub same_text : Text → Text → Bool
same_text [] [] = true
same_text [] (d ∷ t) = false
same_text (c ∷ s) [] = false
same_text (c ∷ s) (d ∷ t) = eqb c d && same_text s t

pub same_text→eq : (s t : Text) → same_text s t ≡ true → s ≡ t
unfolding same_text
same_text→eq [] [] h = refl
same_text→eq [] (d ∷ t) h = ground arith
same_text→eq (c ∷ s) [] h = ground arith
same_text→eq (c ∷ s) (d ∷ t) h = ground (arith, same_text→eq s t)

pub same_text_refl : (s : Text) → same_text s s ≡ true
unfolding same_text
same_text_refl [] = refl
same_text_refl (c ∷ s) = ground (arith, same_text_refl s)

-- `>` on texts.
unfoldable pub text_gt : Text → Text → Bool
text_gt [] t = false
text_gt (c ∷ s) [] = true
text_gt (c ∷ s) (d ∷ t) = if ltb d c then true else if ltb c d then false else text_gt s t

pub text_gt_asymm : (s t : Text) → text_gt s t ≡ true → text_gt t s ≡ false
unfolding text_gt
text_gt_asymm [] t h = ground arith
text_gt_asymm (c ∷ s) [] h = refl
text_gt_asymm (c ∷ s) (d ∷ t) h = ground (arith, text_gt_asymm s t)

pub text_gt_trans : (s t u : Text) → text_gt s t ≡ true → text_gt t u ≡ true → text_gt s u ≡ true
unfolding text_gt
text_gt_trans [] t u h k = ground arith
text_gt_trans (c ∷ s) [] u h k = ground arith
text_gt_trans (c ∷ s) (d ∷ t) [] h k = refl
text_gt_trans (c ∷ s) (d ∷ t) (e ∷ u) h k = ground (arith, text_gt_trans s t u)

-- `BigInt(text)` of a text of digits.
unfoldable pub number_from : ℕ → Text → ℕ
number_from n [] = n
number_from n (c ∷ s) = number_from (n * 10 + (c - 48)) s

abbrev pub number : Text → ℕ
number = number_from 0

-- `toLowerCase`, as far as the result may be an ASCII text: the Kelvin sign is the one other character whose
-- lower case is an ASCII letter.
abbrev pub lower_code : ℕ → ℕ
lower_code c = if is_upper c then c + 32 else if eqb c 8490 then 107 else c

-- `toUpperCase` likewise: ß, ı, ſ and the ligatures from ﬀ to ﬆ become ASCII letters.
abbrev pub upper_code : ℕ → Text
upper_code c =
    if is_lower c
    then (c - 32) ∷ []
    else if eqb c 223
    then codes "SS"
    else if eqb c 305
    then codes "I"
    else if eqb c 383
    then codes "S"
    else if eqb c 64256
    then codes "FF"
    else if eqb c 64257
    then codes "FI"
    else if eqb c 64258
    then codes "FL"
    else if eqb c 64259
    then codes "FFI"
    else if eqb c 64260
    then codes "FFL"
    else if eqb c 64261 || eqb c 64262
    then codes "ST"
    else c ∷ []
