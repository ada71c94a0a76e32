-- ===== src/Triage/Client/Estimate.antt =====
-- `estimate_prompt_tokens` and `check_context` of triage/llm.py.
use airtrace.Prelude.{ℕ, ◌+◌, ◌*◌, Option, none, some, List, [], ltb, length, if◌then◌else◌}
use airtrace.Text.Base.{codes}
use airtrace.Json.{Json, array, object, end, field, items, compact, dumps}

-- `tools or []`
abbrev pub tools_or_empty : Option (List Json) → List Json
tools_or_empty none = []
tools_or_empty (some tools) = tools

-- The canonical text is ASCII, so its UTF-8 bytes are its characters.
unfoldable pub estimate_prompt_tokens : List Json → Option (List Json) → ℕ
estimate_prompt_tokens messages tools =
    let text = dumps compact (
      object (
        field (codes "messages") (array (items messages))
          (field (codes "tools") (array (items (tools_or_empty tools))) end))) in
    length text + 32 * length messages + 256

-- The limits of a `ModelConfig` that the planning reads.
pub record Limits : Type 0 where
  pub max_tokens : ℕ
  pub context_length : ℕ

-- The estimate, or `none` for a `ContextLimitError`.
unfoldable pub check_context : Limits → List Json → Option (List Json) → Option ℕ
check_context limits messages tools =
    let estimate = estimate_prompt_tokens messages tools in
    if ltb limits.context_length (estimate + limits.max_tokens) then none else some estimate
