-- ===== src/Prelude/Tasks.antt =====
-- Families of task states, numbered from 0: a state replaced, and how many tasks of the first `n`
-- are in a given class of states.
use Prim.Native.Nat.{ℕ, zero, suc, ◌+◌, ◌*◌, ◌≤◌, ◌<◌}
use mathlib.Core.Path.{◌≡◌, refl}
use mathlib.Core.Bool.{Bool, true, false}
use native.Mathlib.Omega.{arith}
use native.Mathlib.Decide.{dec_lt}
use planning_service.Prelude.Tests.{◌==◌, if◌then◌else◌}

abbrev pub replace {ℓ} : {A : Type ℓ} → (ℕ → A) → ℕ → A → ℕ → A
replace tasks i a j = if i == j then a else tasks j

abbrev pub count_one : Bool → ℕ
count_one true = 1
count_one false = 0

module _ {ℓ} {A : Type ℓ} (class : A → Bool) where
  pub how_many : ℕ → (ℕ → A) → ℕ
  how_many zero tasks = 0
  how_many (suc n) tasks = count_one (class (tasks n)) + how_many n tasks

  pub how_many-le : (n : ℕ) (tasks : ℕ → A) → how_many n tasks ≤ n
  unfolding how_many
  how_many-le zero tasks = omega arith
  how_many-le (suc n) tasks = ground (arith, how_many-le n tasks)

  -- Where none is in the class.
  pub how_many_none :
      (n : ℕ) (tasks : ℕ → A) → ((i : ℕ) → i < n → class (tasks i) ≡ false) → how_many n tasks ≡ 0
  unfolding how_many
  how_many_none zero tasks h = refl
  how_many_none (suc n) tasks h =
      let here : class (tasks n) ≡ false = h n (omega arith) in
      ground (arith, here, how_many_none n tasks (λ i lt. h i (omega arith)))

  -- Where each is in the class.
  pub how_many_full :
      (n : ℕ) (tasks : ℕ → A) → ((i : ℕ) → i < n → class (tasks i) ≡ true) → how_many n tasks ≡ n
  unfolding how_many
  how_many_full zero tasks h = refl
  how_many_full (suc n) tasks h =
      let here : class (tasks n) ≡ true = h n (omega arith) in
      ground (arith, here, how_many_full n tasks (λ i lt. h i (omega arith)))

  -- Where one is in the class.
  pub how_many_some :
      (n : ℕ) (tasks : ℕ → A) (i : ℕ) → i < n → class (tasks i) ≡ true → 0 < how_many n tasks
  unfolding how_many
  how_many_some zero tasks i lt h = absurd (omega arith)
  how_many_some (suc n) tasks i lt h = elim (dec_lt i n) [
    | yes below ↦ ground (arith, how_many_some n tasks i below h)
    | no last ↦ let e : n ≡ i = omega arith in rw (e, h) (omega arith)
  ]

  -- Where all are in the class.
  pub how_many_all :
      (n : ℕ) (tasks : ℕ → A) → how_many n tasks ≡ n → (i : ℕ) → i < n → class (tasks i) ≡ true
  unfolding how_many
  how_many_all zero tasks h i lt = absurd (omega arith)
  how_many_all (suc n) tasks h i lt = elim (dec_lt i n) [
    | yes below ↦ how_many_all n tasks (ground (arith, how_many-le n tasks)) i below
    | no last ↦ let e : i ≡ n = omega arith in rw e (ground (arith, how_many-le n tasks))
  ]

  how_many-replace_beyond :
      (n : ℕ) (tasks : ℕ → A) (i : ℕ) (a : A)
      → n ≤ i
      → how_many n (replace tasks i a) ≡ how_many n tasks
  unfolding how_many
  how_many-replace_beyond zero tasks i a h = refl
  how_many-replace_beyond (suc n) tasks i a h = ground (arith, how_many-replace_beyond n tasks i a)

  -- A task that changes its state changes the number by its own part alone.
  pub how_many-replace :
      (n : ℕ) (tasks : ℕ → A) (i : ℕ) (a : A)
      → i < n
      → how_many n (replace tasks i a) + count_one (class (tasks i))
        ≡ how_many n tasks + count_one (class a)
  unfolding how_many
  how_many-replace zero tasks i a h = absurd (omega arith)
  how_many-replace (suc n) tasks i a h = elim (dec_lt i n) [
    | yes below ↦ ground (arith, how_many-replace n tasks i a below)
    | no last ↦ let e : i ≡ n = omega arith in ground (arith, how_many-replace_beyond n tasks i a)
  ]

-- A measure added up over the first `n` tasks.
module _ {ℓ} {A : Type ℓ} (measure : A → ℕ) where
  pub total : ℕ → (ℕ → A) → ℕ
  total zero tasks = 0
  total (suc n) tasks = measure (tasks n) + total n tasks

  total-replace_beyond :
      (n : ℕ) (tasks : ℕ → A) (i : ℕ) (a : A) → n ≤ i → total n (replace tasks i a) ≡ total n tasks
  unfolding total
  total-replace_beyond zero tasks i a h = refl
  total-replace_beyond (suc n) tasks i a h = ground (arith, total-replace_beyond n tasks i a)

  pub total-replace :
      (n : ℕ) (tasks : ℕ → A) (i : ℕ) (a : A)
      → i < n
      → total n (replace tasks i a) + measure (tasks i) ≡ total n tasks + measure a
  unfolding total
  total-replace zero tasks i a h = absurd (omega arith)
  total-replace (suc n) tasks i a h = elim (dec_lt i n) [
    | yes below ↦ ground (arith, total-replace n tasks i a below)
    | no last ↦ let e : i ≡ n = omega arith in ground (arith, total-replace_beyond n tasks i a)
  ]

  -- Where all tasks stand alike.
  pub total-alike : (n : ℕ) (a : A) → total n (λ _. a) ≡ n * measure a
  unfolding total
  total-alike zero a = omega arith
  total-alike (suc n) a = rw (total-alike n a) (grind arith)
