-- ===== src/Service/Iris/Roadmap/Pairs.antt =====
-- Which problems GenerateSamplesAndSolveProblems (iris_manager.cc) solves.
use mathlib.Core.Path.{fun_ext}
use planning_service.Prelude.{
  ℕ, ◌-◌, ◌+◌, ◌*◌, ◌<◌, ◌≤◌, ◌≡◌, refl, ap, sym, ◌∙◌, zero, suc, List, [], ◌∷◌, ◌++◌, length,
  get_elem?, get_elem?-suc, length-append, arith, subst, some,
}
use planning_service.Prelude.Int.{ℤ, pos, negsuc}
use planning_service.Service.Action.{
  Action, Done, ◌>>=◌, for_each, for_range, at, for_each-append, for_range_elements, at-some,
}
use planning_service.Service.Iris.Jobs.{Planners}
use planning_service.Service.Iris.Roadmap.{
  rounds, num_problems, solve, solve_from, generate_samples_and_solve_problems,
}

module _ {ℓ} {A : Type ℓ} where
  pub take : ℕ → List A → List A
  take zero xs = []
  take (suc n) [] = []
  take (suc n) (x ∷ xs) = x ∷ take n xs

  with_each : A → List A → List (A × A)
  with_each x [] = []
  with_each x (y ∷ ys) = (x, y) ∷ with_each x ys

  length-with_each : (x : A) (xs : List A) → length (with_each x xs) ≡ length xs
  unfolding with_each
  length-with_each x [] = refl
  length-with_each x (y ∷ ys) = omega (arith, length-with_each x ys)

  -- Each pair of an element and a later one, in lexicographic order of the places.
  pub pairs : List A → List (A × A)
  pairs [] = []
  pairs (x ∷ xs) = with_each x xs ++ pairs xs

  length-take : (n : ℕ) (xs : List A) → n ≤ length xs → length (take n xs) ≡ n
  unfolding take
  length-take zero xs h = refl
  length-take (suc n) [] h = absurd (omega arith)
  length-take (suc n) (x ∷ xs) h = omega (arith, length-take n xs)

  get_elem?-take :
      (n : ℕ) (xs : List A) (i : ℕ)
      → i < length (take n xs)
      → get_elem? xs i ≡ get_elem? (take n xs) i
  unfolding take
  get_elem?-take zero xs i h = absurd (omega arith)
  get_elem?-take (suc n) [] i h = refl
  get_elem?-take (suc n) (x ∷ xs) zero h = refl
  get_elem?-take (suc n) (x ∷ xs) (suc i) h = get_elem?-take n xs i (omega arith)

twice-pairs {ℓ} : {A : Type ℓ} (xs : List A) → 2 * length (pairs xs) ≡ length xs * (length xs - 1)
unfolding pairs
twice-pairs [] = omega arith
twice-pairs (x ∷ xs) =
    let both = length-append (with_each x xs) (pairs xs) in
    let ones = length-with_each x xs in
    count (length xs) (length (pairs xs)) (twice-pairs xs) (omega arith)
  where
    count : {m : ℕ} (n l : ℕ) → 2 * l ≡ n * (n - 1) → m ≡ n + l → 2 * m ≡ suc n * (suc n - 1)
    count zero l h e = grind arith
    count (suc n) l h e =
        let less : suc n - 1 ≡ n = omega arith in
        let more : suc (suc n) - 1 ≡ suc n = omega arith in
        let h' : 2 * l ≡ suc n * n = subst (λ k. 2 * l ≡ suc n * k) less h in rw more (grind arith)

-- There are as many problems as the code announces.
pub pairs-num_problems {ℓ} :
    {A : Type ℓ} (samples : List A) → length (pairs samples) ≡ num_problems (length samples)
pairs-num_problems samples = omega (arith, twice-pairs samples)

rounds-le : (k : ℤ) (n : ℕ) → rounds k n ≤ n
rounds-le (pos k) n = ground arith
rounds-le (negsuc k) n = omega arith

module _ {ℓ} {D C Q H : Type ℓ} (planners : Planners D C Q H) where
  open planners use {get_draco, generate_samples}

  -- The reference: the problem of each pair is solved in turn.
  abbrev pub solve_pair : H → Q × Q → Action D Done
  solve_pair draco (q_start, q_goal) = solve planners draco q_start q_goal

  for_each-with_each :
      (draco : H) (q : Q) (qs : List Q)
      → for_each (with_each q qs) (solve_pair draco) ≡ for_each qs (solve planners draco q)
  unfolding for_each with_each
  for_each-with_each draco q [] = refl
  for_each-with_each draco q (q' ∷ qs) = rw (for_each-with_each draco q qs) refl

  -- The loops from the place `lo` on, where the samples to use there are `qs`.
  loops-from :
      (draco : H) (samples : List Q) (lo : ℕ) (qs : List Q)
      → ((i : ℕ) → i < length qs → get_elem? samples (lo + i) ≡ get_elem? qs i)
      → for_range lo
          (length qs)
          (λ i. at samples i >>= solve_from planners draco samples (lo + length qs) i)
        ≡ for_each (pairs qs) (solve_pair draco)
  unfolding for_each for_range pairs
  loops-from draco samples lo [] h = refl
  loops-from draco samples lo (q ∷ qs) h =
      let here : get_elem? samples lo ≡ some q =
        subst (λ k. get_elem? samples k ≡ some q) (omega arith) (h 0 (omega arith)) in
      let next : suc lo + length qs ≡ lo + suc (length qs) = omega arith in
      let left : (lo + suc (length qs)) - suc lo ≡ length qs = omega arith in
      let later : (i : ℕ) → i < length qs → get_elem? samples (suc lo + i) ≡ get_elem? qs i =
        λ i lt. get_elem?-suc samples lo i (h (suc i) (omega arith)) in
      let inner : solve_from planners draco samples (lo + suc (length qs)) lo q
          ≡ for_each qs (solve planners draco q) =
        rw left (for_range_elements samples (suc lo) qs (solve planners draco q) later) in
      let first : (at samples lo >>= solve_from planners draco samples (lo + suc (length qs)) lo)
          ≡ for_each qs (solve planners draco q) =
        at-some samples lo q _ here ∙ inner in
      let rest = loops-from draco samples (suc lo) qs later in
      rw
        (
          first,
          sym next,
          rest,
          for_each-append (with_each q qs) (pairs qs) (solve_pair draco),
          for_each-with_each draco q qs,
        )
        refl

  all_loops :
      (draco : H) (samples : List Q) (n : ℕ)
      → n ≤ length samples
      → for_range 0 n (λ i. at samples i >>= solve_from planners draco samples n i)
        ≡ for_each (pairs (take n samples)) (solve_pair draco)
  all_loops draco samples n le =
      let used = take n samples in
      let same = loops-from draco samples 0 used (λ i lt.
        subst (λ k. get_elem? samples k ≡ get_elem? used i) {x = i} (omega arith)
          (get_elem?-take n samples i lt)) in
      subst
        (λ m.
          for_range 0 m (λ i. at samples i >>= solve_from planners draco samples m i)
          ≡ for_each (pairs used) (solve_pair draco))
        (length-take n samples le)
        (subst
          (λ m.
            for_range 0 (length used) (λ i. at samples i >>= solve_from planners draco samples m i)
            ≡ for_each (pairs used) (solve_pair draco))
          (omega arith) same)

  -- GenerateSamplesAndSolveProblems, the reads by `at` and the two counted loops included, gets
  -- the samples and then solves the problem of each pair of the samples it uses, in order.
  pub generate-pairs :
      (context_id : ℕ) (num_desired_samples : ℤ)
      → generate_samples_and_solve_problems planners context_id num_desired_samples ≡ (do
        draco ← get_draco context_id
        samples ← generate_samples draco num_desired_samples
        for_each
            (pairs (take (rounds num_desired_samples (length samples)) samples))
            (solve_pair draco))
  unfolding generate_samples_and_solve_problems
  generate-pairs context_id num =
      ap (λ k. get_draco context_id >>= k)
        (fun_ext λ draco.
          ap (λ k. generate_samples draco num >>= k)
            (fun_ext λ samples.
              all_loops draco samples (rounds num (length samples))
                (rounds-le num (length samples))))
