-- ===== src/OpenClaw/Observers/Messages.antt =====
-- src/adapters/openclaw/hooks.js: the `after_tool_call` hook of `registerOpenClawHooks`, which reads a message that a
-- tool has sent as progress or as the final reply. The preview of its text is left out.
use sidewisp_plugin.Prelude.{
  ℕ, zero, suc, String, Bool, true, false, not, ◌&&◌, ◌||◌, ◌≡◌, ◌⊎◌, inl, inr, refl, sym, Option,
  none, some, [], ◌∷◌, leb, eqb, if◌then◌else◌, holds_text, arith,
}
use sidewisp_plugin.Prelude.Codes.{Text}

-- `event.result.details`. Each Boolean is that the property is `true`.
pub record Receipt : Type 0 where
  pub ok : Bool
  pub source_reply_route : Option String
  pub partial : Bool
  pub dry_run : Bool
  pub non_delivery : Bool
  pub no_op : Bool

-- The `final` parameter: `true`, `false`, or something else.
pub data Finality : Type 0 where
  final not_final unsaid : Finality

pub record ToolCall : Type 0 where
  pub tool_name : Option String
  pub has_error : Bool
  pub action : Option String
  pub dry_run : Bool
  pub result_is_error : Bool
  pub receipt : Option Receipt
  pub finality : Finality
  pub message : Option Text
  pub caption : Option Text

-- The input: `turn_progress` of a source message, or `turn_end` with a final reply.
pub data Sent : Type 0 where
  progress final_reply : Sent

-- `\s` for a code
abbrev pub is_space : ℕ → Bool
is_space c =
    leb 9 c && leb c 13
    || eqb c 32
    || eqb c 160
    || eqb c 5760
    || leb 8192 c && leb c 8202
    || eqb c 8232
    || eqb c 8233
    || eqb c 8239
    || eqb c 8287
    || eqb c 12288
    || eqb c 65279

-- `/\S/u.test(text.slice(0, n))`: the spaces are one unit each.
unfoldable pub has_word : ℕ → Text → Bool
has_word zero s = false
has_word (suc n) [] = false
has_word (suc n) (c ∷ s) = not (is_space c) || has_word n s

abbrev pub reads_as_text : Option Text → Bool
reads_as_text none = false
reads_as_text (some s) = has_word 16384 s

-- The text that is read: the message, or else the caption.
abbrev pub text_of : ToolCall → Option Text
text_of t = if reads_as_text t.message then t.message else t.caption

abbrev pub is_delivered : Option Receipt → Bool
is_delivered none = false
is_delivered (some r) =
    r.ok
    && holds_text r.source_reply_route "current-source"
    && not r.partial
    && not r.dry_run
    && not r.non_delivery
    && not r.no_op

-- The guards of the hook
abbrev pub is_source_send : ToolCall → Bool
is_source_send t =
    holds_text t.tool_name "message"
    && not t.has_error
    && holds_text t.action "send"
    && not t.dry_run
    && not t.result_is_error
    && is_delivered t.receipt

abbrev pub is_progress : Finality → (has_text : Bool) → Bool
is_progress not_final has_text = true
is_progress final has_text = false
is_progress unsaid has_text = not has_text

-- `after_tool_call`
unfoldable pub after_tool_call : ToolCall → Option Sent
unfolding has_word
after_tool_call t =
    if is_source_send t
    then some (if is_progress t.finality (reads_as_text (text_of t)) then progress else final_reply)
    else none

-- Whether the message, or else the caption, has a word in it.
has_text-either :
    (t : ToolCall)
    → reads_as_text (text_of t) ≡ (reads_as_text t.message || reads_as_text t.caption)
has_text-either t = by_test (reads_as_text t.message) refl
  where
    by_test :
        (b : Bool)
        → reads_as_text t.message ≡ b
        → reads_as_text (if b then t.message else t.caption) ≡ (b || reads_as_text t.caption)
    by_test true e = e
    by_test false e = refl

-- A final reply is taken only from a message that was delivered to its source, and that is declared final or has a
-- word in its text or its caption; it is never taken from one that is declared not to be final.
pub after_tool_call-IsFinal :
    (t : ToolCall)
    → after_tool_call t ≡ some final_reply
    → (is_source_send t ≡ true)
      × ((t.finality ≡ final)
          ⊎ ((t.finality ≡ unsaid) × ((reads_as_text t.message || reads_as_text t.caption) ≡ true)))
unfolding after_tool_call
after_tool_call-IsFinal t h =
    by_tests (is_source_send t) t.finality (reads_as_text (text_of t)) (has_text-either t) h
  where
    by_tests :
        (s : Bool) (f : Finality) (b : Bool)
        → b ≡ (reads_as_text t.message || reads_as_text t.caption)
        → (if s then some (if is_progress f b then progress else final_reply) else none)
          ≡ some final_reply
        → (s ≡ true)
          × ((f ≡ final)
              ⊎ ((f ≡ unsaid) × ((reads_as_text t.message || reads_as_text t.caption) ≡ true)))
    by_tests false f b e g = ground arith
    by_tests true final b e g = (refl, inl refl)
    by_tests true not_final b e g = ground arith
    by_tests true unsaid true e g = (refl, inr (refl, sym e))
    by_tests true unsaid false e g = ground arith
