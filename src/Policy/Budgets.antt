-- ===== src/Policy/Budgets.antt =====
-- src/policy/budgets.rs: the budget of a turn. The milliseconds since its start are an argument, and
-- so are the sum and the order of costs.
use rust_ia_micro_agents.Base.{
  ℕ, ◌+◌, ◌-◌, ◌%◌, ◌^◌, ◌≤◌, ◌<◌, min, ◌≡◌, Bool, not, ◌&&◌, List, [], ◌∷◌, arith, All, length,
  ltb, leb, if◌then◌else◌, F64, f64_zero,
}

pub record IdentityBudgets : Type 0 where
  pub max_steps : ℕ
  pub max_turn_cost_usd : F64
  pub max_input_tokens : ℕ
  pub max_output_tokens : ℕ
  pub max_tool_calls : ℕ
  pub timeout_ms : ℕ

pub record TurnBudget : Type 0 where
  pub max_steps : ℕ
  pub max_tool_calls : ℕ
  pub max_turn_cost_usd : F64
  pub timeout : ℕ
  pub used_steps : ℕ
  pub used_tool_calls : ℕ
  pub used_cost_usd : F64

unfoldable pub from_identity : IdentityBudgets → TurnBudget
from_identity budgets = record {
  max_steps = budgets.max_steps;
  max_tool_calls = budgets.max_tool_calls;
  max_turn_cost_usd = budgets.max_turn_cost_usd;
  timeout = budgets.timeout_ms;
  used_steps = 0;
  used_tool_calls = 0;
  used_cost_usd = f64_zero;
}

unfoldable pub is_timed_out : ℕ → TurnBudget → Bool
is_timed_out elapsed b = ltb b.timeout elapsed

-- `used_steps += 1` wraps in a release build.
unfoldable pub consume_step : ℕ → TurnBudget → Bool × TurnBudget
consume_step elapsed b =
    let used = (b.used_steps + 1) % 2 ^ 32 in
    (leb used b.max_steps && not (is_timed_out elapsed b), record b { used_steps = used })

unfoldable pub consume_tool_call : ℕ → TurnBudget → Bool × TurnBudget
consume_tool_call elapsed b =
    let used = (b.used_tool_calls + 1) % 2 ^ 32 in
    (leb used b.max_tool_calls && not (is_timed_out elapsed b), record b { used_tool_calls = used })

-- The sum of two costs, and whether one is at most another.
pub record Costs : Type 0 where
  pub sum : F64 → F64 → F64
  pub at_most : F64 → F64 → Bool

unfoldable pub add_cost : Costs → ℕ → F64 → TurnBudget → Bool × TurnBudget
add_cost costs elapsed cost b =
    let used = costs.sum b.used_cost_usd cost in
    (
      costs.at_most used b.max_turn_cost_usd && not (is_timed_out elapsed b),
      record b { used_cost_usd = used },
    )

-- How many steps are granted at the given readings of the clock.
unfoldable pub granted_steps : List ℕ → TurnBudget → ℕ
granted_steps [] b = 0
granted_steps (elapsed ∷ later) b =
    let (granted, b') = consume_step elapsed b in
    let rest = granted_steps later b' in if granted then rest + 1 else rest

-- Whatever the clock says, no more steps are granted than the budget has left, if fewer than 2^32
-- are asked for in all.
pub granted_steps-le :
    (clock : List ℕ) (b : TurnBudget)
    → b.used_steps + length clock < 2 ^ 32
    → granted_steps clock b ≤ b.max_steps - b.used_steps
unfolding granted_steps consume_step is_timed_out
granted_steps-le [] b h = omega arith
granted_steps-le (elapsed ∷ later) b h =
    let same : (b.used_steps + 1) % 2 ^ 32 ≡ b.used_steps + 1 = omega arith in
    let ih =
      granted_steps-le later (record b { used_steps = (b.used_steps + 1) % 2 ^ 32 })
        (rw same (omega arith)) in
    ground (arith, same, ih)

-- Asked for in time, steps are granted until the budget has none left, if fewer than 2^32 are asked
-- for in all.
pub granted_steps_in_time :
    (clock : List ℕ) (b : TurnBudget)
    → b.used_steps + length clock < 2 ^ 32
    → All (λ elapsed. elapsed ≤ b.timeout) clock
    → granted_steps clock b ≡ min (length clock) (b.max_steps - b.used_steps)
unfolding granted_steps consume_step is_timed_out
granted_steps_in_time [] b h a = omega arith
granted_steps_in_time (elapsed ∷ later) b h a =
    let same : (b.used_steps + 1) % 2 ^ 32 ≡ b.used_steps + 1 = omega arith in
    let ih =
      granted_steps_in_time later (record b { used_steps = (b.used_steps + 1) % 2 ^ 32 })
        (rw same (omega arith)) a.1 in
    ground (arith, same, ih, a.0)
