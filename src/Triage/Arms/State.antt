-- ===== src/Triage/Arms/State.antt =====
-- The variables of the loop of `run_arm` in triage/arms.py, and its bookkeeping.
use airtrace.Prelude.{ℕ, ◌+◌, Bool, false, Option, none, some, List, [], ◌∷◌, ◌++◌, ◌||◌}
use airtrace.Text.Base.{Text, codes}
use airtrace.Text.Order.{text_eq}
use airtrace.Json.{Json}
use airtrace.Triage.Arms.Types.{Completion, Outcome, Stage, TraceEntry, ArmResult}

-- The variables of the loop.
pub record Loop : Type 0 where
  pub messages : List Json
  pub tool_rounds : ℕ
  pub repair_used : Bool
  pub call_index : ℕ
  pub result : ArmResult
  pub trace : List TraceEntry

pub data Next : Type 0 where
  again : Loop → Next
  done : Loop → Next

-- A sum that is unknown as soon as one part is.
unfoldable pub add_known : Option ℕ → Option ℕ → Option ℕ
add_known none b = none
add_known (some a) none = none
add_known (some a) (some b) = some (a + b)

-- The bookkeeping behind each completion.
unfoldable pub account : Loop → Completion → Loop
account s c =
    let r = s.result in
    record s {
      call_index = s.call_index + 1;
      result = record r {
        finish_reason = c.finish_reason;
        truncation_suspected = r.truncation_suspected || c.truncation_suspected;
        pricing = c.pricing;
        cost = add_known r.cost c.cost;
        tokens = record {
          prompt = add_known r.tokens.prompt c.tokens.prompt;
          completion = add_known r.tokens.completion c.tokens.completion;
          total = add_known r.tokens.total c.tokens.total;
        };
      };
    }

-- `trace.append(completion.record)`
unfoldable pub traced : Loop → Completion → Stage → Loop
traced s c stage = record s { trace = s.trace ++ record { completion = c; stage = stage } ∷ [] }

-- The loop ends with an outcome and an error text.
unfoldable pub closed : Loop → Outcome → Option Text → Loop
closed s outcome text =
    let r = s.result in record s { result = record r { outcome = outcome; error = text } }

unfoldable pub is_length : Option Text → Bool
is_length none = false
is_length (some t) = text_eq t (codes "length")
