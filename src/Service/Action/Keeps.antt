-- ===== src/Service/Action/Keeps.antt =====
-- Properties of the state that an action keeps.
use planning_service.Prelude.{Option, none, some, Bool, true, false, if◌then◌else◌}
use planning_service.Service.Error.{Outcome, returns, throws, Exception}
use planning_service.Service.Action.{Action, pure, throw, ◌>>=◌, ◌>>◌, resume, handle, try_catch}

-- `P` holds after an action where it holds before, also where the action throws.
abbrev pub Keeps {ℓ κ μ} : {D : Type ℓ} {A : Type κ} → (D → Type μ) → Action D A → Type (ℓ ⊔ μ)
Keeps P m = (d : _) → P d → P (m d).1

module _ {ℓ κ μ ν} {D : Type ℓ} {A : Type κ} {B : Type μ} (P : D → Type ν) where
  resume-keeps :
      (k : A → Action D B)
      → ((a : A) → Keeps P (k a))
      → (m : Outcome A × D) → P m.1
      → P (resume k m).1
  unfolding resume
  resume-keeps k h (returns a, d) p = h a d p
  resume-keeps k h (throws e, d) p = p

  pub bind-Keeps :
      (m : Action D A) (k : A → Action D B)
      → Keeps P m
      → ((a : A) → Keeps P (k a))
      → Keeps P (m >>= k)
  unfolding ◌>>=◌
  bind-Keeps m k hm hk d p = resume-keeps k hk (m d) (hm d p)

  pub then-Keeps : (m : Action D A) (k : Action D B) → Keeps P m → Keeps P k → Keeps P (m >> k)
  unfolding ◌>>◌
  then-Keeps m k hm hk d p = resume-keeps (λ a. k) (λ a. hk) (m d) (hm d p)

pub throw-Keeps {ℓ κ ν} :
    {D : Type ℓ} (A : Type κ) (P : D → Type ν) (e : Exception) → Keeps {A = A} P (throw e)
unfolding throw
throw-Keeps A P e d p = p

module _ {ℓ κ ν} {D : Type ℓ} {A : Type κ} (P : D → Type ν) where
  pub pure-Keeps : (a : A) → Keeps P (pure a)
  unfolding pure
  pure-Keeps a d p = p

  pub if-Keeps :
      (b : Bool) (m k : Action D A) → Keeps P m → Keeps P k → Keeps P (if b then m else k)
  if-Keeps true m k hm hk = hm
  if-Keeps false m k hm hk = hk

  pub try_catch-Keeps :
      (m : Action D A) (h : Exception → Action D A)
      → Keeps P m
      → ((e : Exception) → Keeps P (h e))
      → Keeps P (try_catch m h)
  unfolding try_catch handle
  try_catch-Keeps m h hm hh d p = caught (m d) (hm d p)
    where
      caught : (o : Outcome A × D) → P o.1 → P (handle h o).1
      caught (returns a, d') q = q
      caught (throws e, d') q = hh e d' q

pub option-Keeps {ℓ κ μ ν} :
    {D : Type ℓ} {A : Type κ} {B : Type μ} (P : D → Type ν) (o : Option A) (m : Action D B)
    (k : A → Action D B)
    → Keeps P m
    → ((a : A) → Keeps P (k a))
    → Keeps P (elim o [ none ↦ m | some a ↦ k a ])
option-Keeps P none m k hm hk = hm
option-Keeps P (some a) m k hm hk = hk a
