-- ===== src/Motion/Examples.antt =====
-- Tests of the models of planning_service/motion/, and the theorems at concrete inputs.
use planning_service.Prelude.{ℕ, zero, suc, ◌<◌, ◌≤◌, ◌≡◌, refl, true, none, some, arith}
use planning_service.Motion.Approaches.{
  Attempt, succeeds, fails, Expected, load_false, call_succeeds, call_fails, exchange_first,
  set_value, keep_message, fetch_other, System, pick, Reach, start, next, is_ended,
}
use planning_service.Motion.Approaches.Invariant.{IsJustified}
use planning_service.Motion.Approaches.Outcome.{setter_finds_none, ended_result, steps, steps_bound}

-- Approach 0 fails and approach 1 succeeds.
abbrev attempt : ℕ → Attempt ℕ
attempt zero = fails "no path"
attempt (suc i) = succeeds 7

abbrev before_set : (s : System ℕ) × Reach 2 attempt s
before_set = (
  _,
  next
      (next
        (next
          (next
            (next (next start (pick 0 (omega arith) (load_false refl)))
              (pick 1 (omega arith) (load_false refl)))
            (pick 1 (omega arith) (call_succeeds refl)))
          (pick 0 (omega arith) (call_fails refl)))
        (pick 1 (omega arith) (exchange_first refl)))
      (pick 0 (omega arith) keep_message),
)

abbrev all_ended : (s : System ℕ) × Reach 2 attempt s
all_ended = (
  _,
  next (next before_set.1 (pick 1 (omega arith) (set_value refl)))
      (pick 0 (omega arith) (fetch_other (omega arith))),
)

setter_finds_none_example : before_set.0.shared.result_promise ≡ none
setter_finds_none_example = setter_finds_none 2 attempt 1 before_set.1 (omega arith) refl

all_ended-is_ended : (i : ℕ) → i < 2 → is_ended (all_ended.0.task i) ≡ true
all_ended-is_ended zero lt = refl
all_ended-is_ended (suc zero) lt = refl
all_ended-is_ended (suc (suc i)) lt = absurd (omega arith)

ended_result_example :
    (x : Expected ℕ) × (all_ended.0.shared.result_promise ≡ some x) × IsJustified 2 attempt (some x)
ended_result_example = ended_result 2 attempt all_ended.1 (omega arith) all_ended-is_ended

steps_bound_example : steps 2 attempt all_ended.1 ≤ 12
steps_bound_example = steps_bound 2 attempt all_ended.1
