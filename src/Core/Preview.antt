-- ===== src/Core/Preview.antt =====
-- src/core/message-preview.js: `sanitizeMessagePreview`, the only free text of an event. What Unicode and the patterns of
-- credentials decide is a `Scan`; a value, a type or a detail that is no text is none.
pub mod Bounds
use sidewisp_plugin.Prelude.{
  ℕ, ◌+◌, ◌-◌, Bool, true, false, not, ◌&&◌, ◌||◌, String, Option, none, some, List, [], ◌∷◌, ◌++◌,
  leb, eqb, if◌then◌else◌, any, map,
}
use sidewisp_plugin.Prelude.Codes.{Text, codes, units, lower_code, same_text}
use sidewisp_plugin.Core.SafeText.{is_space}

-- `normalize` is NFC without format characters, with single spaces and none at the ends; `is_unsafe` tests for control
-- characters and, after NFKC, for credentials and opaque keys.
pub record Scan : Type 0 where
  pub normalize : Text → Text
  pub is_unsafe : Text → Bool

-- `MESSAGE_PREVIEW_MAX`
abbrev pub message_preview_max : ℕ
message_preview_max = 160

abbrev pub preview_types : List String
preview_types =
    "turn.progress" ∷ "turn.completed" ∷ "turn.cancelled" ∷ "turn.failed" ∷ "turn.timeout"
    ∷ "message.delivered" ∷ []

abbrev pub wait_tool_types : List String
wait_tool_types =
    "tool.started" ∷ "tool.completed" ∷ "tool.failed" ∷ "tool.timeout" ∷ "tool.cancelled" ∷ []

abbrev pub has_word : List String → Option Text → Bool
has_word words none = false
has_word words (some s) = any (λ w. same_text s (codes w)) words

-- `operation.toLowerCase().replaceAll("-", "_")`
abbrev pub plain_operation : Option Text → Option Text
plain_operation none = none
plain_operation (some s) =
    some (map (λ c. let d = lower_code c in if eqb d b'-' then b'_' else d) s)

-- `allowsPreview`
unfoldable pub allows_preview : (type status operation : Option Text) → Bool
unfolding same_text
allows_preview type status operation =
    if has_word preview_types type
    then true
    else if has_word ("turn.started" ∷ []) type
    then has_word ("resumed" ∷ []) status
    else has_word wait_tool_types type
      && has_word ("request_user_input" ∷ "user_approval" ∷ []) (plain_operation operation)

abbrev pub width : ℕ → ℕ
width c = if leb 65536 c then 2 else 1

-- The prefix of so many UTF-16 units, without half of a pair at its end
unfoldable pub take_units : ℕ → Text → Text
take_units n [] = []
take_units n (c ∷ s) =
    let rest = take_units (n - width c) s in if leb (width c) n then c ∷ rest else []

abbrev pub trimmed : ℕ → Text → Text
trimmed c [] = if is_space c then [] else c ∷ []
trimmed c (d ∷ s) = c ∷ d ∷ s

-- `trimEnd`
unfoldable pub trim_end : Text → Text
trim_end [] = []
trim_end (c ∷ s) = trimmed c (trim_end s)

-- The preview of a text that is safe
unfoldable pub shorten : Text → Text
unfolding take_units trim_end
shorten s =
    if leb (units s) message_preview_max then s else trim_end (take_units 159 s) ++ codes "…"

abbrev pub is_empty : Text → Bool
is_empty [] = true
is_empty (c ∷ s) = false

-- `sanitizeMessagePreview`
unfoldable pub sanitize_message_preview :
    Scan → (value type status operation : Option Text) → Option Text
unfolding allows_preview shorten
sanitize_message_preview scan none type status operation = none
sanitize_message_preview scan (some s) type status operation =
    let t = scan.normalize s in
    if not (allows_preview type status operation) || not (leb (units s) 16384)
    then none
    else if is_empty t || scan.is_unsafe t
    then none
    else some (shorten t)
