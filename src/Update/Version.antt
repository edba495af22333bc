-- ===== src/Update/Version.antt =====
-- src/update/directive.js: versions, `parseVersion`, `comparePrerelease` and `isNewerVersion`.
pub mod Order
use sidewisp_plugin.Prelude.{
  ℕ, zero, suc, ◌+◌, String, Bool, true, false, not, ◌&&◌, ◌||◌, Option, none, some, List, [], ◌∷◌,
  ltb, leb, eqb, if◌then◌else◌, any, all,
}
use sidewisp_plugin.Prelude.Codes.{
  Text, codes, is_digit, is_lower, is_upper, same_text, text_gt, number,
}

pub record Version : Type 0 where
  pub major : ℕ
  pub minor : ℕ
  pub patch : ℕ
  pub prerelease : Option (List Text)

-- The longest prefix of digits, and the rest.
unfoldable pub span_digits : Text → Text × Text
span_digits [] = ([], [])
span_digits (c ∷ s) =
    if is_digit c then (let (ds, rest) = span_digits s in (c ∷ ds, rest)) else ([], c ∷ s)

-- `0|[1-9]\d*`
abbrev pub is_numeral : Text → Bool
is_numeral [] = false
is_numeral (c ∷ []) = true
is_numeral (c ∷ d ∷ ds) = not (eqb c b'0')

-- A numeral at the head of a text.
unfoldable pub parse_number : Text → Option (ℕ × Text)
unfolding span_digits
parse_number s =
    let (ds, rest) = span_digits s in if is_numeral ds then some (number ds, rest) else none

abbrev pub parse_dot : Text → Option Text
parse_dot [] = none
parse_dot (c ∷ s) = if eqb c b'.' then some s else none

-- `[0-9A-Za-z-]`
abbrev pub is_identifier_code : ℕ → Bool
is_identifier_code c = is_digit c || is_upper c || is_lower c || eqb c b'-'

abbrev pub push : ℕ → List Text → List Text
push c [] = (c ∷ []) ∷ []
push c (p ∷ ps) = (c ∷ p) ∷ ps

-- `split(".")`
unfoldable pub split_dots : Text → List Text
split_dots [] = [] ∷ []
split_dots (c ∷ s) = let parts = split_dots s in if eqb c b'.' then [] ∷ parts else push c parts

abbrev pub is_identifier : Text → Bool
is_identifier [] = false
is_identifier (c ∷ s) = all is_identifier_code (c ∷ s)

-- `/^\d+$/`
abbrev pub is_numeric : Text → Bool
is_numeric [] = false
is_numeric (c ∷ s) = all is_digit (c ∷ s)

-- `/^\d+$/.test(part) && part.length > 1 && part.startsWith("0")`
abbrev pub is_padded : Text → Bool
is_padded (c ∷ d ∷ s) = is_numeric (c ∷ d ∷ s) && eqb c b'0'
is_padded _ = false

-- What may stand behind the three numbers: nothing, or a dash and dotted identifiers.
unfoldable pub parse_prerelease : Text → Option (Option (List Text))
unfolding split_dots
parse_prerelease [] = some none
parse_prerelease (c ∷ s) =
    let parts = split_dots s in
    if not (eqb c b'-')
    then none
    else if not (all is_identifier parts)
    then none
    else if any is_padded parts
    then none
    else some (some parts)

infixl 5 ◌>>=◌
abbrev pub ◌>>=◌ : {A B : Type 0} → Option A → (A → Option B) → Option B
none >>= f = none
some a >>= f = f a

unfoldable pub parse_version : Text → Option Version
unfolding parse_number parse_prerelease
parse_version s = do
  (major, s₁) ← parse_number s
  s₂ ← parse_dot s₁
  (minor, s₃) ← parse_number s₂
  s₄ ← parse_dot s₃
  (patch, s₅) ← parse_number s₄
  prerelease ← parse_prerelease s₅
  some (record { major = major; minor = minor; patch = patch; prerelease = prerelease })

pub data Sign : Type 0 where
  less equal greater : Sign

-- The comparison of two different identifiers.
unfoldable pub compare_identifier : Text → Text → Sign
unfolding text_gt
compare_identifier l r =
    if is_numeric l && is_numeric r
    then (if ltb (number r) (number l) then greater else less)
    else if is_numeric l
    then less
    else if is_numeric r
    then greater
    else if text_gt l r
    then greater
    else less

unfoldable pub compare_identifiers : List Text → List Text → Sign
unfolding compare_identifier same_text
compare_identifiers [] [] = equal
compare_identifiers [] (r ∷ rs) = less
compare_identifiers (l ∷ ls) [] = greater
compare_identifiers (l ∷ ls) (r ∷ rs) =
    if same_text l r then compare_identifiers ls rs else compare_identifier l r

unfoldable pub compare_prerelease : Option (List Text) → Option (List Text) → Sign
unfolding compare_identifiers
compare_prerelease none none = equal
compare_prerelease none (some r) = greater
compare_prerelease (some l) none = less
compare_prerelease (some l) (some r) = compare_identifiers l r

abbrev pub is_greater : Sign → Bool
is_greater greater = true
is_greater _ = false

-- `isNewerVersion` on parsed versions.
unfoldable pub is_newer : Version → Version → Bool
unfolding compare_prerelease
is_newer next installed =
    if not (eqb next.major installed.major)
    then ltb installed.major next.major
    else if not (eqb next.minor installed.minor)
    then ltb installed.minor next.minor
    else if not (eqb next.patch installed.patch)
    then ltb installed.patch next.patch
    else is_greater (compare_prerelease next.prerelease installed.prerelease)

abbrev pub newer_parsed : Option Version → Option Version → Bool
newer_parsed (some next) (some installed) = is_newer next installed
newer_parsed _ _ = false

unfoldable pub is_newer_version : Text → Text → Bool
unfolding parse_version is_newer
is_newer_version candidate current = newer_parsed (parse_version candidate) (parse_version current)
