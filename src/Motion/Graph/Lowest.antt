-- ===== src/Motion/Graph/Lowest.antt =====
-- The vertex of the open set with the lowest score, and what the maps of scores read.
use planning_service.Prelude.{
  ℕ, ◌≤◌, ◌≡◌, refl, true, false, ltb, List, [], ◌∷◌, ◌++◌, some, none, arith, number_key, ◌||◌,
  ◌⊎◌, inl, inr, if◌then◌else◌, ◌==◌,
}
use planning_service.Prelude.Tests.{Bool-cases}
use planning_service.Prelude.Maps.{store, lookup-store}
use planning_service.Prelude.Sets.{contains}
use planning_service.Motion.Graph.{Cost}
use planning_service.Motion.Graph.Search.{score, lowest, remove, set_infinite}

pub score-store :
    (k j : ℕ) (c : Cost) (m : List (ℕ × Cost))
    → score (store k c m) j ≡ (if k == j then c else score m j)
unfolding score
score-store k j c m = ground (arith, lookup-store k j c m)

pub score-set_infinite :
    (vs : List ℕ) (m : List (ℕ × Cost)) (v : ℕ)
    → score (set_infinite vs m) v ≡ (if contains v vs then none else score m v)
unfolding set_infinite contains
score-set_infinite [] m v = refl
score-set_infinite (w ∷ vs) m v =
    ground (arith, score-set_infinite vs (store w none m) v, score-store w v none m)

pub contains-remove :
    (v w : ℕ) (vs : List ℕ) → contains w (remove v vs) ≡ (if v == w then false else contains w vs)
unfolding remove contains
contains-remove v w [] = ground arith
contains-remove v w (x ∷ vs) = ground (arith, contains-remove v w vs)

pub contains-append :
    (w : ℕ) (vs ws : List ℕ) → contains w (vs ++ ws) ≡ (contains w vs || contains w ws)
unfolding contains
contains-append w [] ws = refl
contains-append w (x ∷ vs) ws = ground (arith, contains-append w vs ws)

module _ (f : List (ℕ × Cost)) (value : ℕ → ℕ) where
  abbrev pub IsLowest : List ℕ → ℕ → Type 0
  IsLowest vs w = (v : ℕ) → contains v vs ≡ true → value w ≤ value v

  lowest_from :
      (vs : List ℕ) (c : ℕ)
      → ((v : ℕ) → contains v vs ≡ true → score f v ≡ some (value v))
      → (w : ℕ) × (lowest f vs (some (value c)) (some c) ≡ some w)
        × ((w ≡ c) ⊎ (contains w vs ≡ true))
        × (value w ≤ value c)
        × IsLowest vs w
  unfolding lowest contains
  lowest_from [] c h = (c, refl, inl refl, omega arith, λ v m. cc)
  lowest_from (x ∷ vs) c h =
      let here : score f x ≡ some (value x) = h x (ground arith) in
      let rest = λ (v : ℕ) (m : contains v vs ≡ true). h v (ground arith) in
      elim (Bool-cases (ltb (value x) (value c))) [
        | inl better ↦
            let (w, found, among, le, low) = lowest_from vs x rest in
            (w, rw (here, better) found, ground arith, ground arith, λ v m. ground (arith, low v))
        | inr worse ↦
            let (w, found, among, le, low) = lowest_from vs c rest in
            (w, rw (here, worse) found, ground arith, le, λ v m. ground (arith, low v))
      ]

  -- Where every open vertex has a finite score, one of the lowest is found.
  pub lowest-IsLowest :
      (x : ℕ) (vs : List ℕ)
      → ((v : ℕ) → contains v (x ∷ vs) ≡ true → score f v ≡ some (value v))
      → (w : ℕ) × (lowest f (x ∷ vs) none none ≡ some w)
        × (contains w (x ∷ vs) ≡ true)
        × IsLowest (x ∷ vs) w
  unfolding lowest contains
  lowest-IsLowest x vs h =
      let here : score f x ≡ some (value x) = h x (ground arith) in
      let (w, found, among, le, low) = lowest_from vs x (λ v m. h v (ground arith)) in
      (w, rw here found, ground arith, λ v m. ground (arith, low v))
