-- ===== src/Service/Action.antt =====
-- Code that changes a state of type `D` and may throw. What it changed before it throws stays.
pub mod Keeps
use planning_service.Prelude.{
  Bool, true, false, if◌then◌else◌, List, [], ◌∷◌, ◌++◌, ◌≡◌, refl, subst, arith, ℕ, zero, suc, ◌+◌,
  ◌<◌, length, get_elem?, get_elem?-suc, none, some,
}
use mathlib.Core.Path.{fun_ext}
use planning_service.Service.Error.{Outcome, returns, throws, Exception, runtime_error}

abbrev pub Action {ℓ κ} : Type ℓ → Type κ → Type (ℓ ⊔ κ)
Action D A = D → Outcome A × D

-- What a procedure without a result returns.
abbrev pub Done : Type 0
Done = Unit

module _ {ℓ κ} {D : Type ℓ} {A : Type κ} where
  unfoldable pub pure : A → Action D A
  pure a d = (returns a, d)

  unfoldable pub throw : Exception → Action D A
  throw e d = (throws e, d)

infixl 10 ◌>>=◌
infixl 10 ◌>>◌
module _ {ℓ κ μ} {D : Type ℓ} {A : Type κ} {B : Type μ} where
  unfoldable pub resume : (A → Action D B) → Outcome A × D → Outcome B × D
  resume f (returns a, d) = f a d
  resume f (throws e, d) = (throws e, d)

  unfoldable pub ◌>>=◌ : Action D A → (A → Action D B) → Action D B
  ◌>>=◌ m f d = resume f (m d)

  unfoldable pub ◌>>◌ : Action D A → Action D B → Action D B
  ◌>>◌ m k d = resume (λ a. k) (m d)

module _ {ℓ κ} {D : Type ℓ} {A : Type κ} where
  -- A `try` block with a handler for every exception.
  unfoldable pub handle : (Exception → Action D A) → Outcome A × D → Outcome A × D
  handle h (returns a, d) = (returns a, d)
  handle h (throws e, d) = h e d

  unfoldable pub try_catch : Action D A → (Exception → Action D A) → Action D A
  try_catch m h d = handle h (m d)

  -- A loop over a list.
  unfoldable pub for_each : List A → (A → Action D Done) → Action D Done
  for_each [] f = pure tt
  for_each (x ∷ xs) f = f x >> for_each xs f

-- `for (int i = lo; ...)` for `k` rounds.
unfoldable pub for_range {ℓ} : {D : Type ℓ} → ℕ → ℕ → (ℕ → Action D Done) → Action D Done
for_range lo zero f = pure tt
for_range lo (suc k) f = f lo >> for_range (suc lo) k f

-- `v.at(i)`; the text of the exception is the library's own.
unfoldable pub at {ℓ κ} : {D : Type ℓ} {A : Type κ} → List A → ℕ → Action D A
at xs i = elim (get_elem? xs i) [ some x ↦ pure x | none ↦ throw (runtime_error "out of range") ]

module _ {ℓ κ μ} {D : Type ℓ} {A : Type κ} {B : Type μ} where
  pub resume-resume :
      {C : Type μ} (m : Outcome A × D) (k : Action D B) (k' : Action D C)
      → resume (λ a. k >> k') m ≡ resume (λ b. k') (resume (λ a. k) m)
  unfolding resume ◌>>◌
  resume-resume (returns a, d) k k' = refl
  resume-resume (throws e, d) k k' = refl

module _ {ℓ κ} {D : Type ℓ} {A : Type κ} where
  -- Two loops after each other are one over both lists.
  pub for_each-append :
      (xs ys : List A) (f : A → Action D Done)
      → for_each (xs ++ ys) f ≡ (for_each xs f >> for_each ys f)
  unfolding for_each ◌>>◌ pure resume
  for_each-append [] ys f = refl
  for_each-append (x ∷ xs) ys f =
      rw (for_each-append xs ys f)
        (fun_ext λ d. resume-resume (f x d) (for_each xs f) (for_each ys f))

  pub at-some :
      (all : List A) (i : ℕ) (y : A) (f : A → Action D Done)
      → get_elem? all i ≡ some y
      → (at all i >>= f) ≡ f y
  unfolding at ◌>>=◌ pure resume
  at-some all i y f e = fun_ext λ d. rw (e, at) refl

  -- A counted loop that reads one element of `all` in each round is a loop over those elements,
  -- and no read is out of range.
  pub for_range_elements :
      (all : List A) (lo : ℕ) (ys : List A) (f : A → Action D Done)
      → ((i : ℕ) → i < length ys → get_elem? all (lo + i) ≡ get_elem? ys i)
      → for_range lo (length ys) (λ i. at all i >>= f) ≡ for_each ys f
  unfolding for_each for_range
  for_range_elements all lo [] f h = refl
  for_range_elements all lo (y ∷ ys) f h =
      let here : get_elem? all lo ≡ some y =
        subst (λ k. get_elem? all k ≡ some y) (omega arith) (h 0 (omega arith)) in
      let rest =
        for_range_elements all (suc lo) ys f
          (λ i lt. get_elem?-suc all lo i (h (suc i) (omega arith))) in
      rw (at-some all lo y f here, rest) refl

-- A job with one possible result ends with it or throws.
pub data Ends {ℓ κ} {D : Type ℓ} {A : Type κ} (a : A) : Outcome A × D → Type (ℓ ⊔ κ) where
  done : {d : D} → Ends a (returns a, d)
  thrown : (e : Exception) {d : D} → Ends a (throws e, d)

pub Ends-resume {ℓ κ μ} :
    {D : Type ℓ} {B : Type κ} {A : Type μ} {a : A} {k : B → Action D A}
    → ((b : B) (d : D) → Ends a (k b d))
    → (m : Outcome B × D) → Ends a (resume k m)
unfolding resume
Ends-resume h (returns b, d) = h b d
Ends-resume h (throws e, d) = thrown e

-- The part that comes first has one possible result itself.
pub Ends-resume_at {ℓ κ μ} :
    {D : Type ℓ} {B : Type κ} {A : Type μ} {a : A} {b : B} (k : B → Action D A)
    → ((d : D) → Ends a (k b d))
    → (m : Outcome B × D) → Ends b m
    → Ends a (resume k m)
unfolding resume
Ends-resume_at k h m done = h _
Ends-resume_at k h m (thrown e) = thrown e

pub Ends-returns {ℓ κ} : {D : Type ℓ} {A : Type κ} {a b : A} {d : D} → Ends a (returns b, d) → b ≡ a
Ends-returns done = refl

module _ {ℓ κ μ} {D : Type ℓ} {A : Type κ} {B : Type μ} where
  pub bind_returns :
      (m : Action D A) (k : A → Action D B) {d d' : D} {a : A}
      → m d ≡ (returns a, d')
      → (m >>= k) d ≡ k a d'
  unfolding ◌>>=◌ resume
  bind_returns m k e = rw e refl

  pub then_returns :
      (m : Action D A) (k : Action D B) {d d' : D} {a : A}
      → m d ≡ (returns a, d')
      → (m >> k) d ≡ k d'
  unfolding ◌>>◌ resume
  then_returns m k e = rw e refl
