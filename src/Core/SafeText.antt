-- ===== src/Core/SafeText.antt =====
-- src/core/sanitize.js: the patterns `SAFE_TEXT` and `SECRET_VALUE`, as tests of lists of character codes.
use sidewisp_plugin.Prelude.{
  ℕ, ◌+◌, Bool, true, false, ◌&&◌, ◌||◌, Option, none, some, [], ◌∷◌, leb, eqb, if◌then◌else◌,
  is_some, all, map, length,
}
use sidewisp_plugin.Prelude.Codes.{Text, codes, is_digit, is_lower, is_upper}

abbrev pub is_word_code : ℕ → Bool
is_word_code c = is_upper c || is_lower c || is_digit c

-- `[A-Za-z0-9._:/+\-]`
abbrev pub is_safe_code : ℕ → Bool
is_safe_code c =
    is_word_code c
    || eqb c b'.'
    || eqb c b'_'
    || eqb c b':'
    || eqb c b'/'
    || eqb c b'+'
    || eqb c b'-'

-- `SAFE_TEXT`
unfoldable pub is_safe_text : Text → Bool
is_safe_text [] = false
is_safe_text (c ∷ s) = is_word_code c && leb (length s) 255 && all is_safe_code s

-- `\s` for a code
abbrev pub is_space : ℕ → Bool
is_space c =
    leb 9 c && leb c 13
    || eqb c 32
    || eqb c 160
    || eqb c 5760
    || leb 8192 c && leb c 8202
    || eqb c 8232
    || eqb c 8233
    || eqb c 8239
    || eqb c 8287
    || eqb c 12288
    || eqb c 65279

-- The case folding of a pattern with the flag `i`, as far as it meets an ASCII letter
abbrev pub folded : ℕ → ℕ
folded c = if is_upper c then c + 32 else c

-- What follows the word, where the text starts with it.
unfoldable pub after : Text → Text → Option Text
after [] s = some s
after (c ∷ p) [] = none
after (c ∷ p) (d ∷ s) = if eqb c d then after p s else none

abbrev pub starts_with_space : Option Text → Bool
starts_with_space none = false
starts_with_space (some []) = false
starts_with_space (some (c ∷ s)) = is_space c

abbrev pub skip_dash : Text → Text
skip_dash [] = []
skip_dash (c ∷ s) = if eqb c b'_' || eqb c b'-' then s else c ∷ s

abbrev pub starts_with_key : Option Text → Bool
unfolding after
starts_with_key none = false
starts_with_key (some s) =
    is_some (after (codes "key") (skip_dash s)) || is_some (after (codes "key") s)

-- `+` of the codes that are neither spaces nor one of the two given, up to the first other code
abbrev pub run_to : ℕ → ℕ → (empty : Bool) → Text → Option Text
run_to stop other empty [] = none
run_to stop other empty (c ∷ s) =
    if eqb c stop
    then (if empty then none else some s)
    else if is_space c || eqb c other
    then none
    else run_to stop other false s

-- `:\/\/[^\s/:]+:[^\s/@]+@`
abbrev pub is_login : Option Text → Bool
is_login none = false
is_login (some s) = elim (run_to b':' b'/' true s) [
  | none ↦ false
  | some rest ↦ is_some (run_to b'@' b'/' true rest)
]

-- A scheme's last letter, and what follows it
abbrev pub is_address : Text → Bool
unfolding after
is_address [] = false
is_address (c ∷ s) = is_lower c && is_login (after (codes "://") s)

-- Whether `SECRET_VALUE` matches at the start of a text.
abbrev pub is_secret_here : Text → Bool
unfolding after
is_secret_here s =
    starts_with_space (after (codes "bearer") s)
    || is_some (after (codes "authorization") s)
    || starts_with_key (after (codes "api") s)
    || is_some (after (codes "token") s)
    || is_some (after (codes "password") s)
    || is_some (after (codes "secret") s)
    || is_some (after (codes "credential") s)
    || is_address s

unfoldable pub has_secret : Text → Bool
unfolding after
has_secret [] = false
has_secret (c ∷ s) = is_secret_here (c ∷ s) || has_secret s

-- `SECRET_VALUE.test(value)`
abbrev pub is_secret : Text → Bool
is_secret s = has_secret (map folded s)
