-- ===== src/Core/ProhibitedText.antt =====
-- src/core/diagnostics.js: `PROHIBITED`, the words that no text of a snapshot may have.
use sidewisp_plugin.Prelude.{
  ℕ, ◌+◌, Bool, false, not, ◌&&◌, ◌||◌, Option, none, some, List, [], ◌∷◌, map, is_some, eqb,
  if◌then◌else◌, any,
}
use sidewisp_plugin.Prelude.Codes.{Text, codes, is_upper}
use sidewisp_plugin.Update.Directive.{strip_prefix}

abbrev pub lower : ℕ → ℕ
lower c = if is_upper c then c + 32 else c

unfoldable pub has_infix : Text → Text → Bool
unfolding strip_prefix
has_infix p [] = is_some (strip_prefix p [])
has_infix p (c ∷ s) = is_some (strip_prefix p (c ∷ s)) || has_infix p s

abbrev pub is_line_end : ℕ → Bool
is_line_end c = eqb c 10 || eqb c 13 || eqb c 8232 || eqb c 8233

-- `.?key` at the head of a text.
abbrev pub has_optional_key : Text → Bool
has_optional_key [] = false
has_optional_key (c ∷ s) =
    is_some (strip_prefix (codes "key") (c ∷ s))
    || (not (is_line_end c) && is_some (strip_prefix (codes "key") s))

abbrev pub follows : Option Text → Bool
follows none = false
follows (some rest) = has_optional_key rest

-- `api.?key`
unfoldable pub has_api_key : Text → Bool
unfolding strip_prefix
has_api_key [] = false
has_api_key (c ∷ s) = follows (strip_prefix (codes "api") (c ∷ s)) || has_api_key s

abbrev pub prohibited_words : List Text
prohibited_words =
    codes "prompt"
    ∷ codes "message"
    ∷ codes "content"
    ∷ codes "body"
    ∷ codes "payload"
    ∷ codes "argument"
    ∷ codes "result"
    ∷ codes "log"
    ∷ codes "command"
    ∷ codes "environment"
    ∷ codes "credential"
    ∷ codes "token"
    ∷ codes "password"
    ∷ codes "secret"
    ∷ codes "path"
    ∷ codes "file"
    ∷ codes "email"
    ∷ []

-- `PROHIBITED.test(s)`, whatever the case of the letters.
unfoldable pub is_prohibited : Text → Bool
unfolding has_infix has_api_key
is_prohibited s = let t = map lower s in any (λ w. has_infix w t) prohibited_words || has_api_key t
