-- ===== src/Motion/Approaches/Outcome.antt =====
-- What a call of TryMultipleApproaches comes to (try_multiple_approaches.h).
use planning_service.Prelude.{
  ℕ, suc, ◌+◌, ◌*◌, ◌≤◌, ◌<◌, ◌≡◌, ◌≢◌, refl, inl, inr, true, false, Option, none, some, arith,
  Bool-cases, Option-cases, ◌==◌, ==_iff,
}
use planning_service.Prelude.Tasks.{
  how_many_none, how_many_full, how_many_some, total, total-replace, total-alike,
}
use planning_service.Motion.Approaches.{
  Attempt, succeeds, fails, raises, Expected, Shared, Task, pushed, calling, succeeded,
  setting_value, failed, counting, last, setting_error, stopped, gave_up, Move, load_true,
  load_false, call_succeeds, call_fails, call_raises, exchange_first, exchange_late, set_value,
  set_value_twice, keep_message, fetch_last, fetch_other, last_first, last_late, set_error,
  set_error_twice, System, Step, pick, Reach, start, next, is_ended,
}
use planning_service.Motion.Approaches.Invariant.{
  is_setting, is_counted, is_last, count_set, IsJustified,
}
use planning_service.Motion.Approaches.Steps.{Reach-Inv}

module _ {ℓ} {R : Type ℓ} (n : ℕ) (attempt : ℕ → Attempt R) where
  -- In every state that the tasks reach, a task that is about to call `set_value` finds the
  -- promise without a value: no call of it throws.
  pub setter_finds_none :
      {s : System R} (i : ℕ)
      → Reach n attempt s
      → i < n
      → is_setting (s.task i) ≡ true
      → s.shared.result_promise ≡ none
  setter_finds_none {s} i r lt h =
      let inv = Reach-Inv n attempt r in
      ground (arith, inv.setters, how_many_some is_setting n s.task i lt h)

  ended-not_setting : (t : Task R) → is_ended t ≡ true → is_setting t ≡ false
  ended-not_setting t h = ground arith

  ended-not_last : (t : Task R) → is_ended t ≡ true → is_last t ≡ false
  ended-not_last t h = ground arith

  ended-counted : (t : Task R) → is_ended t ≡ true → t ≢ stopped → is_counted t ≡ true
  ended-counted t h k = ground arith

  -- Where there is an approach and all tasks have ended, the flag is set.
  ended-has_value :
      {s : System R}
      → Reach n attempt s
      → 0 < n
      → ((i : ℕ) → i < n → is_ended (s.task i) ≡ true)
      → s.shared.has_value ≡ true
  ended-has_value {s} r pos ended = elim (Bool-cases s.shared.has_value) [
    | inl set ↦ set
    | inr clear ↦
        let inv = Reach-Inv n attempt r in
        let all =
          how_many_full is_counted n s.task
            (λ i lt. ended-counted (s.task i) (ended i lt) (λ e. ground (arith, inv.seen i e))) in
        let no_last =
          how_many_none is_last n s.task (λ i lt. ended-not_last (s.task i) (ended i lt)) in
        ground (arith, all, no_last, inv.counted, inv.pending pos)
  ]

  -- Where there is an approach and all tasks have ended, in any interleaving, the promise has
  -- its result: a value that some approach returned, or an error where each approach failed.
  pub ended_result :
      {s : System R}
      → Reach n attempt s
      → 0 < n
      → ((i : ℕ) → i < n → is_ended (s.task i) ≡ true)
      → (x : Expected R) × (s.shared.result_promise ≡ some x) × IsJustified n attempt (some x)
  ended_result {s} r pos ended =
      let inv = Reach-Inv n attempt r in
      let no_setter =
        how_many_none is_setting n s.task (λ i lt. ended-not_setting (s.task i) (ended i lt)) in
      let set = ended-has_value r pos ended in
      the_result s.shared.result_promise (ground (arith, no_setter, set, inv.setters)) inv.justified
    where
      the_result :
          (o : Option (Expected R))
          → count_set o ≡ 1
          → IsJustified n attempt o
          → (x : Expected R) × (o ≡ some x) × IsJustified n attempt (some x)
      the_result (some x) h j = (x, refl, j)
      the_result none h j = absurd (omega arith)

  -- How many more steps a task may take.
  abbrev rank : Task R → ℕ
  rank pushed = 6
  rank calling = 5
  rank (succeeded r) = 2
  rank (setting_value r) = 1
  rank (failed t) = 4
  rank counting = 3
  rank last = 2
  rank setting_error = 1
  rank stopped = 0
  rank gave_up = 0

  Move-rank :
      {i : ℕ} {a : Attempt R} {m m' : Shared R} {p p' : Task R}
      → (is_setting p ≡ true → m.result_promise ≡ none)
      → Move i a m p m' p'
      → rank p' < rank p
  Move-rank none_set (set_value_twice e) = absurd (ground (arith, none_set refl))
  Move-rank none_set (set_error_twice e) = absurd (ground (arith, none_set refl))
  Move-rank none_set mv = omega arith

  abbrev pub steps : {s : System R} → Reach n attempt s → ℕ
  steps start = 0
  steps (next r step) = suc (steps r)

  -- The tasks of `n` approaches take at most `6 * n` steps, in any interleaving.
  pub steps_bound : {s : System R} (r : Reach n attempt s) → steps r ≤ 6 * n
  steps_bound {s} r = ground (arith, steps-rank r)
    where
      steps-rank : {s : System R} (r : Reach n attempt s) → steps r + total rank n s.task ≤ 6 * n
      steps-rank start = rw (total-alike rank n pushed) (omega arith)
      steps-rank (next {s} r (pick i {t = t} lt mv)) = ground (
        arith,
        steps-rank r,
        total-replace rank n s.task i t lt,
        Move-rank (setter_finds_none i r lt) mv,
      )

  move :
      (i : ℕ) (a : Attempt R) (m : Shared R) (p : Task R)
      → is_ended p ≡ false
      → (m' : Shared R) × (p' : Task R) × Move i a m p m' p'
  move i a m pushed h = elim (Bool-cases m.has_value) [
    | inl e ↦ (_, _, load_true e)
    | inr e ↦ (_, _, load_false e)
  ]
  move i (succeeds x) m calling h = (_, _, call_succeeds refl)
  move i (fails t) m calling h = (_, _, call_fails refl)
  move i (raises t) m calling h = (_, _, call_raises refl)
  move i a m (succeeded x) h = elim (Bool-cases m.has_value) [
    | inl e ↦ (_, _, exchange_late e)
    | inr e ↦ (_, _, exchange_first e)
  ]
  move i a m (setting_value x) h = elim (Option-cases m.result_promise) [
    | inl e ↦ (_, _, set_value e)
    | inr (y, e) ↦ (_, _, set_value_twice e)
  ]
  move i a m (failed t) h = (_, _, keep_message)
  move i a m counting h = elim (Bool-cases (m.approaches_remaining == 1)) [
    | inl e ↦ (_, _, fetch_last ((==_iff _ 1).0 e))
    | inr e ↦ (_, _, fetch_other (λ k. ground (arith, k, e)))
  ]
  move i a m last h = elim (Bool-cases m.has_value) [
    | inl e ↦ (_, _, last_late e)
    | inr e ↦ (_, _, last_first e)
  ]
  move i a m setting_error h = elim (Option-cases m.result_promise) [
    | inl e ↦ (_, _, set_error e)
    | inr (y, e) ↦ (_, _, set_error_twice e)
  ]
  move i a m stopped h = cc
  move i a m gave_up h = cc

  -- A task that has not ended can take a step in any state: none waits for another one.
  pub unended_steps :
      (s : System R) (i : ℕ)
      → i < n
      → is_ended (s.task i) ≡ false
      → (t : System R) × Step n attempt s t
  unended_steps s i lt h =
      let (m, t, mv) = move i (attempt i) s.shared (s.task i) h in (_, pick i lt mv)

-- With no approach at all the promise never gets a result, and so `get()` never returns.
pub no_approach_no_result {ℓ} :
    {R : Type ℓ} (attempt : ℕ → Attempt R) {s : System R}
    → Reach 0 attempt s
    → s.shared.result_promise ≡ none
no_approach_no_result attempt start = refl
no_approach_no_result {R} attempt (next r step) = absurd (no_step step)
  where
    no_step : {s t : System R} → Step 0 attempt s t → ⊥
    no_step (pick i lt mv) = omega arith
