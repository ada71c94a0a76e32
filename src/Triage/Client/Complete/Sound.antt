-- ===== src/Triage/Client/Complete/Sound.antt =====
-- What a completion without an error holds.
use airtrace.Prelude.{ℕ, ◌≡◌, refl, ap, ◌∙◌, [], Bool, true, false, Option, none, some, arith}
use airtrace.Text.Base.{Text, codes}
use airtrace.Json.{Json, object, array, item, Items, Fields, get}
use airtrace.Triage.Arms.Types.{or_null}
use airtrace.Triage.Client.Estimate.{Limits}
use airtrace.Triage.Client.Cost.{Prices}
use airtrace.Triage.Client.Retry.{Attempt, Sent, send}
use airtrace.Triage.Client.Complete.{
  CallRecord, Envelope, read_tokens, read_usage, read_message, read_choice, read_envelope,
  error_unless, decoded, finish, Key, unset, not_needed, known, with_key,
}

-- The first choice of the body holds the message.
abbrev pub Holds : Fields → Envelope → Type 0
Holds body e =
    (choice : Fields) × (more : Items) × (m : Fields) × (get body (codes "choices")
      ≡ some (array (item (object choice) more)))
    × (get choice (codes "message") ≡ some (object m))
    × (e.message ≡ object m)

read_usage-message :
    (n : ℕ) (r : CallRecord) (message usage : Json)
    → (read_usage n r message usage).message ≡ message
unfolding read_usage read_tokens
read_usage-message n r message (object u) = refl
read_usage-message n r message _ = ground arith

read_message-Holds :
    (n : ℕ) (r : CallRecord) (message : Option Json) (usage : Json)
    → (read_message n r message usage).accepted ≡ true
    → (m : Fields) × (message ≡ some (object m))
      × ((read_message n r message usage).message ≡ object m)
unfolding read_message
read_message-Holds n r none usage h = cc
read_message-Holds n r (some (object m)) usage h =
    (m, refl, read_usage-message n r (object m) usage)
read_message-Holds n r (some _) usage h = cc

read_choice-Holds :
    (n : ℕ) (r : CallRecord) (body : Fields) (choices : Option Json) (usage : Json)
    → get body (codes "choices") ≡ choices
    → (read_choice n r choices usage).accepted ≡ true
    → Holds body (read_choice n r choices usage)
unfolding read_choice
read_choice-Holds n r body (some (array (item (object choice) more))) usage h k =
    let (m, e, same) =
      read_message-Holds n
        (record r { finish_reason = or_null (get choice (codes "finish_reason")) })
        (get choice (codes "message")) usage k in
    (choice, more, m, h, e, same)
read_choice-Holds n r body _ usage h k = cc

read_envelope-Holds :
    (n : ℕ) (prices : Prices) (decoded : Option Json)
    → (read_envelope n prices decoded).accepted ≡ true
    → (body : Fields) × (decoded ≡ some (object body)) × Holds body (read_envelope n prices decoded)
unfolding read_envelope
read_envelope-Holds n prices (some (object body)) h = (
  body,
  refl,
  read_choice-Holds n _ body (get body (codes "choices")) (or_null (get body (codes "usage"))) refl
      h,
)
read_envelope-Holds n prices _ h = cc

error_unless-none : (b : Bool) → error_unless b ≡ none → b ≡ true
unfolding error_unless
error_unless-none true h = refl
error_unless-none false h = cc

-- The text that a completion was read from.
abbrev pub IsRead : (Text → Option Json) → Option Text → Json → Type 0
IsRead loads raw message =
    (body : Fields) × (decoded loads raw ≡ some (object body))
    × ((choice : Fields) × (more : Items) × (m : Fields) × (get body (codes "choices")
          ≡ some (array (item (object choice) more)))
        × (get choice (codes "message") ≡ some (object m))
        × (message ≡ object m))

finish-IsRead :
    (loads : Text → Option Json) (limits : Limits) (prices : Prices) (estimated : ℕ) (s : Sent)
    (o : Option Text)
    → (finish loads limits prices estimated s o).error ≡ none
    → let c = finish loads limits prices estimated s o in
      (o ≡ none) × (c.sent ≡ s) × IsRead loads c.sent.raw c.message
unfolding finish
finish-IsRead loads limits prices estimated s (some e) h = cc
finish-IsRead loads limits prices estimated s none h =
    let e : Envelope = read_envelope limits.context_length prices (decoded loads s.raw) in
    (
      refl,
      refl,
      read_envelope-Holds limits.context_length prices (decoded loads s.raw)
          (error_unless-none e.accepted h),
    )

finished-IsRead :
    (loads : Text → Option Json) (limits : Limits) (prices : Prices) (estimated : ℕ) (s : Sent)
    → let c = finish loads limits prices estimated s s.error in
      c.error ≡ none → (c.sent.error ≡ none) × IsRead loads c.sent.raw c.message
finished-IsRead loads limits prices estimated s h =
    let (e, same, read) = finish-IsRead loads limits prices estimated s s.error h in
    (ap (λ (t : Sent). t.error) same ∙ e, read)

-- A completion without an error comes from requests that ended without one, and the last response is
-- the JSON text of an object whose first choice is an object with the completion's message, which is
-- an object too.
pub with_key-IsRead :
    (loads : Text → Option Json) (limits : Limits) (prices : Prices) (redact : Text → Text → Text)
    (post : ℕ → Attempt) (retries estimated : ℕ) (key : Key)
    → let c = with_key loads limits prices redact post retries estimated key in
      c.error ≡ none → (c.sent.error ≡ none) × IsRead loads c.sent.raw c.message
unfolding with_key
with_key-IsRead loads limits prices redact post retries estimated unset h = cc
with_key-IsRead loads limits prices redact post retries estimated not_needed h =
    finished-IsRead loads limits prices estimated (send (redact []) post retries) h
with_key-IsRead loads limits prices redact post retries estimated (known key) h =
    finished-IsRead loads limits prices estimated (send (redact key) post retries) h
