-- ===== src/Tests/Questions.antt =====
-- A question of a run, from its call to the execution that follows its answer.
use sidewisp_plugin.Prelude.{true, false, ◌≡◌, refl, Option, none, some, List, [], ◌∷◌}
use sidewisp_plugin.Prelude.Codes.{Text, codes, same_text}
use sidewisp_plugin.OpenClaw.Questions.{Happening, observes, happen_all, key_of}
use sidewisp_plugin.OpenClaw.QuestionCalls.{
  present, Question, Host, Event, Wait, wait_started, wait_ended, initial,
}
use sidewisp_plugin.OpenClaw.Questions.Soundness.{IsPaired}
use sidewisp_plugin.OpenClaw.Questions.Pairing.{happen_all-IsPaired}

abbrev registered : Text → Option Question
registered id = some (record {
  own_id = none;
  session_key = present (codes "main");
  is_answerable = true;
  expires_at = some 900;
})

abbrev host : Host
host = record { registry = some registered; claims = λ key. none; now = 100 }

-- The digest of a key is the key itself.
abbrev digest : Text → Text
digest key = key

abbrev asked : Event
asked = record {
  seq = some 1;
  run_id = some (codes "r1");
  session_key = present (codes "main");
  stream = "tool";
  phase = "start";
  kind = "";
  name = "ask_user";
  tool_call_id = some (codes "c1");
  status = "";
  has_failed = false;
}

abbrev answered : Event
answered = record asked { seq = some 2; phase = "result"; status = "answered" }

abbrev continued : Event
continued = record asked { seq = some 3; stream = "assistant"; name = ""; tool_call_id = none }

abbrev life : List Happening
life = observes host asked ∷ observes host answered ∷ observes host continued ∷ []

abbrev waiting : Wait
waiting = record {
  session = some (codes "main");
  turn = codes "r1";
  question = key_of (codes "r1") (some (codes "c1"));
}

question_waits :
    (happen_all digest 1000 life initial).emitted ≡ wait_ended waiting ∷ wait_started waiting ∷ []
unfolding happen_all same_text
question_waits = refl

happen_all-IsPaired_example : IsPaired (happen_all digest 1000 life initial).emitted
happen_all-IsPaired_example = happen_all-IsPaired digest 1000 life
