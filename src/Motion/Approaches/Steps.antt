-- ===== src/Motion/Approaches/Steps.antt =====
-- Each step of a task keeps the invariant.
use planning_service.Prelude.{
  ℕ, ◌+◌, ◌≤◌, ◌<◌, ◌≡◌, ◌≢◌, refl, ◌⊎◌, inl, inr, true, false, none, some, arith, ◌==◌, ==_iff,
  Bool-cases, subst,
}
use planning_service.Prelude.Tasks.{
  how_many, count_one, replace, how_many-le, how_many_none, how_many_all, how_many-replace,
}
use planning_service.Motion.Approaches.{
  Attempt, succeeds, fails, raises, Shared, Task, last, setting_error, stopped, gave_up, Move,
  load_true, load_false, call_succeeds, call_fails, call_raises, exchange_first, exchange_late,
  set_value, set_value_twice, keep_message, fetch_last, fetch_other, last_first, last_late,
  set_error, set_error_twice, System, init, pick, Reach, start, next,
}
use planning_service.Motion.Approaches.Invariant.{
  is_setting, is_counted, is_last, count_set, Failed, Fact, IsJustified, Inv,
}

module _ {ℓ} {R : Type ℓ} (n : ℕ) (attempt : ℕ → Attempt R) where
  Inv-init : Inv n attempt (init n).shared (init n).task
  Inv-init = record {
    setters = ground (arith, how_many_none is_setting n (init {R = R} n).task (λ i lt. refl));
    counted = ground (arith, how_many_none is_counted n (init {R = R} n).task (λ i lt. refl));
    seen = λ i h. cc;
    pending = λ h. inr (inl h);
    lone_last = λ i h. cc;
    lone_setter = λ i h. cc;
    facts = λ i. tt;
    justified = tt;
  }

module _ {ℓ} {R : Type ℓ} (n : ℕ) (attempt : ℕ → Attempt R) {m : Shared R} {task : ℕ → Task R}
    (inv : Inv n attempt m task) (i : ℕ) where
  open inv use {setters, counted, seen, pending, lone_last, lone_setter, facts, justified}

  -- Task `i` goes from `p` to `p'`, and the numbers of tasks change by its part alone.
  record Mover (p p' : Task R) : Type ℓ where
    here : task i ≡ p
    own : Fact (attempt i) p
    in_range : i < n
    settings :
        how_many is_setting n (replace task i p') + count_one (is_setting p)
        ≡ how_many is_setting n task + count_one (is_setting p')
    counteds :
        how_many is_counted n (replace task i p') + count_one (is_counted p)
        ≡ how_many is_counted n task + count_one (is_counted p')
    lasts :
        how_many is_last n (replace task i p') + count_one (is_last p)
        ≡ how_many is_last n task + count_one (is_last p')
    few : how_many is_counted n (replace task i p') ≤ n

  mover : i < n → (p' : Task R) → Mover (task i) p'
  mover lt p' = record {
    here = refl;
    own = facts i;
    in_range = lt;
    settings = how_many-replace is_setting n task i p' lt;
    counteds = how_many-replace is_counted n task i p' lt;
    lasts = how_many-replace is_last n task i p' lt;
    few = how_many-le is_counted n (replace task i p');
  }

  -- The premise of a move, for the clauses that cover all the moves at once.
  abbrev Premise : {a : Attempt R} {p p' : Task R} {m' : Shared R} → Move i a m p m' p' → Type ℓ
  Premise {a} (call_succeeds {r} h) = a ≡ succeeds r
  Premise {a} (call_fails {t} h) = a ≡ fails t
  Premise {a} (call_raises {t} h) = a ≡ raises t
  Premise (load_true h) = (m.has_value ≡ true) × Unit
  Premise (load_false h) = (m.has_value ≡ false) × Unit
  Premise (exchange_first h) = (m.has_value ≡ false) × Unit
  Premise (exchange_late h) = (m.has_value ≡ true) × Unit
  Premise (set_value h) = m.result_promise ≡ none
  Premise (set_value_twice {x} h) = m.result_promise ≡ some x
  Premise keep_message = Unit
  Premise (fetch_last h) = (m.approaches_remaining ≡ 1) × Unit
  Premise (fetch_other h) = (m.approaches_remaining ≢ 1) × Unit
  Premise (last_first h) = (m.has_value ≡ false) × Unit
  Premise (last_late h) = (m.has_value ≡ true) × Unit
  Premise (set_error h) = m.result_promise ≡ none
  Premise (set_error_twice {x} h) = m.result_promise ≡ some x

  premise : {a : Attempt R} {p p' : Task R} {m' : Shared R} (mv : Move i a m p m' p') → Premise mv
  premise (call_succeeds h) = h
  premise (call_fails h) = h
  premise (call_raises h) = h
  premise (load_true h) = (h, tt)
  premise (load_false h) = (h, tt)
  premise (exchange_first h) = (h, tt)
  premise (exchange_late h) = (h, tt)
  premise (set_value h) = h
  premise (set_value_twice h) = h
  premise keep_message = tt
  premise (fetch_last h) = (h, tt)
  premise (fetch_other h) = (h, tt)
  premise (last_first h) = (h, tt)
  premise (last_late h) = (h, tt)
  premise (set_error h) = h
  premise (set_error_twice h) = h

  Move-setters :
      {p p' : Task R} {m' : Shared R}
      → Move i (attempt i) m p m' p'
      → Mover p p'
      → how_many is_setting n (replace task i p') + count_set m'.result_promise
        ≡ count_one m'.has_value
  Move-setters (load_true h) f = ground arith
  Move-setters mv f = ground (arith, premise mv)

  Move-counted :
      {p p' : Task R} {m' : Shared R}
      → Move i (attempt i) m p m' p'
      → Mover p p'
      → m'.approaches_remaining + how_many is_counted n (replace task i p') ≡ n
  Move-counted (load_true h) f = ground arith
  Move-counted mv f = ground (arith, premise mv)

  Move-seen :
      {p p' : Task R} {m' : Shared R}
      → Move i (attempt i) m p m' p'
      → Mover p p'
      → (j : ℕ) → replace task i p' j ≡ stopped
      → m'.has_value ≡ true
  Move-seen (load_true h) f j e = ground (arith, seen j)
  Move-seen mv f j e = ground (arith, premise mv, seen j)

  Move-pending :
      {p p' : Task R} {m' : Shared R}
      → Move i (attempt i) m p m' p'
      → Mover p p'
      → 0 < n
      → (m'.has_value ≡ true)
        ⊎ (0 < m'.approaches_remaining)
        ⊎ (0 < how_many is_last n (replace task i p'))
  Move-pending (load_true h) f pos = ground (arith, pending pos)
  Move-pending mv f pos = ground (arith, premise mv, pending pos)

  Move-lone_last :
      {p p' : Task R} {m' : Shared R}
      → Move i (attempt i) m p m' p'
      → Mover p p'
      → (j : ℕ) → replace task i p' j ≡ last
      → m'.approaches_remaining ≡ 0
  Move-lone_last (load_true h) f j e = ground (arith, lone_last j)
  Move-lone_last mv f j e = ground (arith, premise mv, lone_last j)

  Move-lone_setter :
      {p p' : Task R} {m' : Shared R}
      → Move i (attempt i) m p m' p'
      → Mover p p'
      → (j : ℕ) → replace task i p' j ≡ setting_error
      → m'.approaches_remaining ≡ 0
  Move-lone_setter (load_true h) f j e = ground (arith, lone_setter j)
  Move-lone_setter mv f j e = ground (arith, premise mv, lone_setter j, lone_last i)

  -- What the mover's new place says of its approach.
  Move-own :
      {p p' : Task R} {m' : Shared R}
      → Move i (attempt i) m p m' p'
      → Mover p p'
      → Fact (attempt i) p'
  Move-own (load_true h) f = tt
  Move-own mv f = ground (arith, premise mv)

  Move-facts :
      {p p' : Task R} {m' : Shared R}
      → Move i (attempt i) m p m' p'
      → Mover p p'
      → (j : ℕ) → Fact (attempt j) (replace task i p' j)
  Move-facts {p'} mv f j = elim (Bool-cases (i == j)) [
    | inl same ↦
        let e : i ≡ j = (==_iff i j).0 same in
        rw same (subst (λ k. Fact (attempt k) p') e (Move-own mv f))
    | inr other ↦ rw other (facts j)
  ]

  all-Failed : m.approaches_remaining ≡ 0 → (j : ℕ) → j < n → Failed (attempt j)
  all-Failed h j lt =
      let all : how_many is_counted n task ≡ n = omega arith in
      Failed-counted (attempt j) (task j) (how_many_all is_counted n task all j lt) (facts j)
    where
      Failed-counted : (a : Attempt R) (t : Task R) → is_counted t ≡ true → Fact a t → Failed a
      Failed-counted a last h f = f
      Failed-counted a setting_error h f = f
      Failed-counted a gave_up h f = f
      Failed-counted a t h f = cc

  Move-IsJustified :
      {p p' : Task R} {m' : Shared R}
      → Move i (attempt i) m p m' p'
      → Mover p p'
      → IsJustified n attempt m'.result_promise
  Move-IsJustified (set_value h) f = (i, f.in_range, f.own)
  Move-IsJustified (set_error h) f = all-Failed (lone_setter i f.here)
  Move-IsJustified (load_true h) f = justified
  Move-IsJustified mv f = justified

  Move-Inv :
      {p p' : Task R} {m' : Shared R}
      → Move i (attempt i) m p m' p'
      → Mover p p'
      → Inv n attempt m' (replace task i p')
  Move-Inv mv f = record {
    setters = Move-setters mv f;
    counted = Move-counted mv f;
    seen = Move-seen mv f;
    pending = Move-pending mv f;
    lone_last = Move-lone_last mv f;
    lone_setter = Move-lone_setter mv f;
    facts = Move-facts mv f;
    justified = Move-IsJustified mv f;
  }

module _ {ℓ} {R : Type ℓ} (n : ℕ) (attempt : ℕ → Attempt R) where
  pub Reach-Inv : {s : System R} → Reach n attempt s → Inv n attempt s.shared s.task
  Reach-Inv start = Inv-init n attempt
  Reach-Inv (next {s} r (pick i {t = t} lt mv)) =
      let inv = Reach-Inv r in Move-Inv n attempt inv i mv (mover n attempt inv i lt t)
