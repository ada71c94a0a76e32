-- ===== src/Triage/Arms/Run/Model.antt =====
-- What `_parse_diagnosis` of triage/arms.py accepts.
use airtrace.Prelude.{◌≡◌, ◌≢◌, refl, sym, subst, ◌∙◌, Bool, true, false, List, [], ◌∷◌, All, arith}
use airtrace.Text.Base.{codes}
use airtrace.Json.{Json, string, Fields, get}
use airtrace.Triage.Data.{Cited, frame, log, Source}
use airtrace.Triage.Schema.{Evidence, Diagnosis}
use airtrace.Triage.Arms.Types.{Arm, llm_raw, llm_tools, or_null}
use airtrace.Triage.Arms.Messages.{
  Checked, Tooling, parse_diagnosis, accept, parse_content, allowed_citations, cites_frame,
  not_automatic,
}

-- The citations that an arm may make: `llm_raw` cites no frame.
abbrev pub IsAllowed : Arm → Evidence → Type 0
IsAllowed llm_raw e = e.source ≢ frame
IsAllowed llm_tools e = Unit

-- A diagnosis that a model gave: no citation is marked automatic, and each is one the arm may make.
abbrev pub IsModelDiagnosis : Arm → Diagnosis → Type 0
IsModelDiagnosis arm d =
    All (λ (e : Evidence). e.auto ≡ false) d.evidence × All (IsAllowed arm) d.evidence

All-not_automatic : (es : List Evidence) → All (λ (e : Evidence). e.auto ≡ false) (not_automatic es)
unfolding not_automatic
All-not_automatic [] = tt
All-not_automatic (e ∷ es) = (refl, All-not_automatic es)

allowed_citations-eq :
    (arm : Arm) (c d : Diagnosis) → allowed_citations arm c ≡ Checked.valid d → c ≡ d
unfolding allowed_citations
allowed_citations-eq llm_raw c d h = ground arith
allowed_citations-eq llm_tools c d h = cc

is_log : Cited → Bool
is_log frame = false
is_log (log s) = true

log_lem : (s : Source) → Cited.log s ≢ frame
unfolding is_log
log_lem s e = cc

cites_frame-IsAllowed : (es : List Evidence) → cites_frame es ≡ false → All (IsAllowed llm_raw) es
unfolding cites_frame
cites_frame-IsAllowed [] h = tt
cites_frame-IsAllowed (e ∷ es) h = by_source e.source refl h (cites_frame-IsAllowed es)
  where
    by_source :
        (s : Cited)
        → e.source ≡ s
        → (elim s [ frame ↦ true | log l ↦ cites_frame es ]) ≡ false
        → (cites_frame es ≡ false → All (IsAllowed llm_raw) es)
        → (e.source ≢ frame) × All (IsAllowed llm_raw) es
    by_source frame k f rest = cc
    by_source (log l) k f rest = ((λ q. log_lem l (sym k ∙ q)), rest f)

All-anything : (es : List Evidence) → All (IsAllowed llm_tools) es
All-anything [] = tt
All-anything (e ∷ es) = (tt, All-anything es)

allowed_citations-IsAllowed :
    (arm : Arm) (c d : Diagnosis)
    → allowed_citations arm c ≡ Checked.valid d
    → All (IsAllowed arm) c.evidence
unfolding allowed_citations
allowed_citations-IsAllowed llm_raw c d h = cites_frame-IsAllowed c.evidence (ground (arith, h))
allowed_citations-IsAllowed llm_tools c d h = All-anything c.evidence

-- The check of the citations is the last step of a successful parse.
accept-IsModelDiagnosis :
    (tooling : Tooling) (arm : Arm) (v : Checked Diagnosis) (d : Diagnosis)
    → accept tooling arm v ≡ Checked.valid d
    → IsModelDiagnosis arm d
unfolding accept
accept-IsModelDiagnosis tooling arm (Checked.error e) d h = cc
accept-IsModelDiagnosis tooling arm (Checked.valid given) d h =
    let marked = record given { evidence = not_automatic given.evidence } in
    let same : marked ≡ d = allowed_citations-eq arm marked d h in
    subst (IsModelDiagnosis arm) same
      (All-not_automatic given.evidence, allowed_citations-IsAllowed arm marked d h)

parse_content-IsModelDiagnosis :
    (tooling : Tooling) (arm : Arm) (content : Json) (d : Diagnosis)
    → parse_content tooling arm content ≡ Checked.valid d
    → IsModelDiagnosis arm d
unfolding parse_content
parse_content-IsModelDiagnosis tooling arm (string text) d h =
    accept-IsModelDiagnosis tooling arm (tooling.validate text) d h
parse_content-IsModelDiagnosis tooling arm _ d h = cc

pub parse_diagnosis-valid :
    (tooling : Tooling) (m : Fields) (arm : Arm) (d : Diagnosis)
    → parse_diagnosis tooling m arm ≡ Checked.valid d
    → IsModelDiagnosis arm d
unfolding parse_diagnosis
parse_diagnosis-valid tooling m arm d h =
    parse_content-IsModelDiagnosis tooling arm (or_null (get m (codes "content"))) d (ground arith)
