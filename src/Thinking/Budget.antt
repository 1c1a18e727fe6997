-- ===== src/Thinking/Budget.antt =====
-- How much an answer may hold (src/engine/llm_core.rs).
use studio_worker.Base.{
  ℕ, ◌+◌, ◌-◌, ◌^◌, ◌≤◌, ◌<◌, min, max, Option, none, some, ltb, ◌≡◌, ◌⊎◌, inl, inr, arith,
  Bool-cases, le_cases,
}
use studio_worker.Thinking.{room_for, plan_budget}

-- A prompt that leaves no room has no budget; another has what was asked for, at least a token, or the
-- room that is left, whichever is less.
abbrev pub IsBudget : ℕ → ℕ → ℕ → Option ℕ → Type 0
IsBudget prompt asked n_ctx none = n_ctx ≤ prompt
IsBudget prompt asked n_ctx (some b) =
    (1 ≤ b) × (prompt + b ≤ n_ctx) × (b ≤ max asked 1) × ((b ≡ max asked 1) ⊎ (prompt + b ≡ n_ctx))

least :
    (prompt asked n_ctx limit : ℕ)
    → prompt < n_ctx
    → n_ctx ≤ limit
    → IsBudget prompt asked n_ctx (some (min (max asked 1) (min (n_ctx - prompt) limit)))
least prompt asked n_ctx limit h l = (
  omega (arith, h, l),
  omega (arith, h, l),
  omega (arith, h, l),
  elim (le_cases (max asked 1) (n_ctx - prompt)) [
    | inl fits ↦ inl (omega (arith, h, l, fits))
    | inr less ↦ inr (omega (arith, h, l, less))
  ],
)

-- For a context whose size is a `u32`, prompt and answer together never exceed the context, an answer
-- has at least one token, and the budget is what was asked for or all the room there is; there is none
-- exactly if the prompt fills the context.
plan_budget-IsBudget :
    (prompt asked n_ctx : ℕ)
    → n_ctx < 2 ^ 32
    → IsBudget prompt asked n_ctx (plan_budget prompt asked n_ctx)
unfolding plan_budget room_for
plan_budget-IsBudget prompt asked n_ctx h = elim (Bool-cases (ltb prompt n_ctx)) [
  | inl e ↦
      rw (e, plan_budget)
        (least prompt asked n_ctx (2 ^ 32 - 1) (ground (arith, e)) (omega (arith, h)))
  | inr e ↦ rw (e, plan_budget) (ground (arith, e))
]
