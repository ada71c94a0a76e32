-- ===== src/Triage/Schema.antt =====
-- triage/schema.py: diagnoses, and the fallback `unknown` with its automatic citation. Validation by
-- pydantic is not modelled here: a `Diagnosis` is what it accepts.
use airtrace.Prelude.{
  ℕ, ◌+◌, ◌-◌, Bool, true, false, not, Option, none, some, List, [], ◌∷◌, ◌&&◌, leb, ltb, length,
  take, count_by, if◌then◌else◌,
}
use airtrace.Text.Base.{Text, codes, is_space}
use airtrace.Json.{object, Fields, end, field, sorted, dumps, sort_fields}
use airtrace.Triage.Data.{Source, View, Logs, render_frame, Cited, frame, log}

-- `CLASS_IDS`
pub data ClassId : Type 0 where
  ok wrong_passphrase akm_mismatch pmf_required_unsupported : ClassId
  mac_denied ap_full dhcp_no_server ap_deauth ssid_not_found : ClassId

pub data RootCause : Type 0 where
  class : ClassId → RootCause
  unknown_cause : RootCause

pub record Evidence : Type 0 where
  pub source : Cited
  pub ref : ℕ
  pub quote : Text
  pub auto : Bool

-- The confidence is kept as the text of its JSON number.
pub record Diagnosis : Type 0 where
  pub root_cause : RootCause
  pub evidence : List Evidence
  pub confidence : Text
  pub fix : Text

abbrev pub quote_limit : ℕ
quote_limit = 2000

-- `len("".join(quote.split()))`: the characters that are not blank.
unfoldable pub solid_chars : Text → ℕ
solid_chars t = count_by (λ c. not (is_space c)) t

-- The first line of one log with at least twelve such characters in its first 2000.
unfoldable pub citable_line : Source → ℕ → List Text → Option Evidence
citable_line source number [] = none
citable_line source number (line ∷ lines) =
    let later = citable_line source (number + 1) lines in
    if leb 12 (solid_chars (take quote_limit line))
    then some
        (record { source = log source; ref = number; quote = take quote_limit line; auto = true })
    else later

unfoldable pub citable_log : Logs → Option Evidence
citable_log [] = none
citable_log ((source, lines) ∷ logs) =
    let later = citable_log logs in
    elim (citable_line source 1 lines) [ none ↦ later | some e ↦ some e ]

-- The text without its first and last character, `text[1:-1]`.
unfoldable pub strip_ends : Text → Text
strip_ends [] = []
strip_ends (c ∷ cs) = take (length (c ∷ cs) - 2) cs

-- The rendered members of a frame, in the order of its keys.
unfoldable pub members : Fields → List Text
members end = []
members (field k v fs) = strip_ends (dumps sorted (object (field k v end))) ∷ members fs

-- `next((member for member in members if len(member) <= 2000), "")`
unfoldable pub short_member : List Text → Text
short_member [] = []
short_member (m ∷ ms) =
    let later = short_member ms in if leb (length m) quote_limit then m else later

is_empty_frame : Fields → Bool
is_empty_frame end = true
is_empty_frame (field k v fs) = false

is_empty_text : Text → Bool
is_empty_text [] = true
is_empty_text (c ∷ cs) = false

unfoldable pub frame_quote : Fields → Text
frame_quote fields =
    let rendered = render_frame fields in
    if ltb quote_limit (length rendered)
    then short_member (members (sort_fields fields))
    else rendered

unfoldable pub citable_frame : List (ℕ × Fields) → Option Evidence
unfolding is_empty_frame is_empty_text
citable_frame [] = none
citable_frame ((number, fields) ∷ frames) =
    let later = citable_frame frames in
    if not (is_empty_text (frame_quote fields)) && not (is_empty_frame fields)
    then some (record { source = frame; ref = number; quote = frame_quote fields; auto = true })
    else later

-- `unknown(view, fix)`; `none` is the `ValueError` of a view with nothing to cite.
unfoldable pub unknown : View → Text → Option Diagnosis
unknown view fix =
    let fallback = λ (e : Evidence). some (record {
      root_cause = unknown_cause;
      evidence = e ∷ [];
      confidence = codes "0.0";
      fix = take 300 fix;
    }) in
    elim (citable_log view.logs) [
      | some e ↦ fallback e
      | none ↦ elim (citable_frame view.frames) [ none ↦ none | some e ↦ fallback e ]
    ]

-- The default of `fix`.
abbrev pub insufficient : Text
insufficient = codes "Insufficient evidence to diagnose this bundle."
