-- ===== src/Triage/Client/Cost/Usage.antt =====
-- When the cost of a response is known.
use airtrace.Prelude.{
  ℕ, ◌+◌, ◌-◌, ◌*◌, arith, ◌≤◌, ◌≡◌, refl, Option, none, some, leb, subst, leb→le, Bool-cases, inl,
  inr,
}
use airtrace.Text.Base.{codes}
use airtrace.Json.{Json, int, object, get}
use airtrace.Triage.Arms.Types.{or_null}
use airtrace.Triage.Client.Cost.{
  no_details, is_some, or_zero, Prices, estimated_from_returned_usage, CostDetails, cost_of, priced,
  cost_with, with_cached, details_or_empty, with_details, with_counts, estimate_cost,
}

-- The charge for cached tokens: without a price for them, there may be none.
abbrev pub IsCachedCharge : Option ℕ → ℕ → ℕ → Type 0
IsCachedCharge none cached charge = (cached ≡ 0) × (charge ≡ 0)
IsCachedCharge (some c) cached charge = charge ≡ cached * c

-- A cost that consists of the fresh tokens of the prompt, the completion and the cached tokens, each
-- at a price that is set.
abbrev pub IsCharged : Option ℕ → Option ℕ → Option ℕ → ℕ → ℕ → ℕ → ℕ → Type 0
IsCharged input output cached_input prompt completion cached cost =
    (i : ℕ) × (o : ℕ) × (fresh : ℕ) × (charge : ℕ) × (input ≡ some i)
    × (output ≡ some o)
    × (prompt ≡ fresh + cached)
    × IsCachedCharge cached_input cached charge
    × (cost ≡ fresh * i + completion * o + charge)

-- What a known cost rests on.
abbrev pub Known : Prices → ℕ → CostDetails → Type 0
Known prices cost details =
    (prompt : ℕ) × (completion : ℕ) × (cached : ℕ) × (details.status
      ≡ estimated_from_returned_usage)
    × (details.prompt_tokens ≡ int prompt)
    × (details.completion_tokens ≡ int completion)
    × (details.cached_tokens ≡ int cached)
    × (cached ≤ prompt)
    × IsCharged prices.input prices.output prices.cached_input prompt completion cached cost

abbrev pub IsPriced : Prices → Option ℕ → CostDetails → Type 0
IsPriced prices none details = Unit
IsPriced prices (some cost) details = Known prices cost details

some_cost : (x y : ℕ) → some x ≡ some y → y ≡ x
some_cost x y h = cc

cost_with-IsCharged :
    (input output cached_input : Option ℕ) (prompt completion cached cost : ℕ)
    → cached ≤ prompt
    → cost_with input output cached_input prompt completion cached ≡ some cost
    → IsCharged input output cached_input prompt completion cached cost
unfolding cost_with
cost_with-IsCharged (some i) (some o) (some c) prompt completion cached cost le h =
    (i, o, prompt - cached, cached * c, refl, refl, omega (arith, le), refl, some_cost _ _ h)
cost_with-IsCharged (some i) (some o) none prompt completion cached cost le h = (
  i,
  o,
  prompt - cached,
  0,
  refl,
  refl,
  omega (arith, le),
  (ground (arith, h), refl),
  ground (arith, h),
)
cost_with-IsCharged (some i) none c prompt completion cached cost le h = cc
cost_with-IsCharged none o c prompt completion cached cost le h = cc

module _ (prices : Prices) where
  priced-Known :
      (details : CostDetails) (prompt completion cached : ℕ)
      → details.prompt_tokens ≡ int prompt
      → details.completion_tokens ≡ int completion
      → details.cached_tokens ≡ int cached
      → cached ≤ prompt
      → (total : Option ℕ) → cost_of prices prompt completion cached ≡ total
      → IsPriced prices (priced details total).0 (priced details total).1
  unfolding priced cost_of
  priced-Known details prompt completion cached p c k h none e = tt
  priced-Known details prompt completion cached p c k h (some total) e = (
    prompt,
    completion,
    cached,
    refl,
    p,
    c,
    k,
    h,
    cost_with-IsCharged prices.input prices.output prices.cached_input prompt completion cached
        total h e,
  )

  with_cached-Known :
      (details : CostDetails) (prompt completion : ℕ) (j : Json)
      → details.prompt_tokens ≡ int prompt
      → details.completion_tokens ≡ int completion
      → details.cached_tokens ≡ j
      → let r = with_cached prices details prompt completion j in IsPriced prices r.0 r.1
  unfolding with_cached
  with_cached-Known details prompt completion (int cached) p c k =
      elim (Bool-cases (leb cached prompt)) [
        | inl le ↦ rw le (
            priced-Known details prompt completion cached p c k (leb→le cached prompt le)
              (cost_of prices prompt completion cached) refl)
        | inr gt ↦ rw gt tt
      ]
  with_cached-Known details prompt completion _ p c k = tt

  with_details-Known :
      (details : CostDetails) (prompt completion : ℕ) (j : Json)
      → details.prompt_tokens ≡ int prompt
      → details.completion_tokens ≡ int completion
      → let r = with_details prices details prompt completion j in IsPriced prices r.0 r.1
  unfolding with_details
  with_details-Known details prompt completion (object fields) p c =
      let cached = get fields (codes "cached_tokens") in
      with_cached-Known
        (record details { cached_tokens = or_zero cached; cached_tokens_reported = is_some cached })
        prompt completion (or_zero cached) p c refl
  with_details-Known details prompt completion _ p c = tt

  with_counts-Known :
      (details : CostDetails) (p c d : Json)
      → details.prompt_tokens ≡ p
      → details.completion_tokens ≡ c
      → let r = with_counts prices details p c d in IsPriced prices r.0 r.1
  unfolding with_counts
  with_counts-Known details (int prompt) (int completion) d p c =
      with_details-Known details prompt completion (details_or_empty d) p c
  with_counts-Known details _ _ d p c = tt

  IsPriced-usage : (usage : Json) → let r = estimate_cost prices usage in IsPriced prices r.0 r.1
  unfolding estimate_cost
  IsPriced-usage (object usage) =
      let prompt = or_null (get usage (codes "prompt_tokens")) in
      let completion = or_null (get usage (codes "completion_tokens")) in
      with_counts-Known
        (record no_details { prompt_tokens = prompt; completion_tokens = completion }) prompt
        completion (or_null (get usage (codes "prompt_tokens_details"))) refl refl
  IsPriced-usage _ = tt

-- In exact arithmetic, a cost is known only for reported counts of the prompt and the completion, with
-- a cached count that is at most the prompt's, and only where both prices are set, and the price of
-- cached tokens too unless there are none. It is then the sum of the fresh tokens of the prompt, the
-- completion and the cached tokens at their prices.
pub estimate_cost-Known :
    (prices : Prices) (usage : Json) (cost : ℕ)
    → (estimate_cost prices usage).0 ≡ some cost
    → Known prices cost (estimate_cost prices usage).1
estimate_cost-Known prices usage cost h =
    subst (λ o. IsPriced prices o (estimate_cost prices usage).1) h (IsPriced-usage prices usage)
