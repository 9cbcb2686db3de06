-- ===== src/Motion/IkCache/Bounds.antt =====
-- How many seeds `CalcClosestSeed2Steps` returns.
use planning_service.Prelude.{
  ℕ, zero, suc, ◌≤◌, false, List, [], ◌∷◌, length, Option, none, some, ◌≡◌, refl, arith, ◌==◌,
  subst, ◌∙◌,
}
use planning_service.Prelude.Int.{ℤ, pos, negsuc}
use planning_service.Service.Error.{returns}
use planning_service.Motion.IkCache.{Kinematics, Targets, IkCache}
use planning_service.Motion.IkCache.Seeds.{
  pick, seconds, with_distance, num_to_return, order_picked, is_zero, calc_closest_seed_2steps,
}
use planning_service.Motion.IkCache.Coherent.{IsCoherent}
use planning_service.Motion.IkCache.Direct.{direct, direct_seeds, calc_closest_seed_2steps-direct}

module _ {ℓ} {Q T R : Type ℓ} (kinematics : Kinematics Q T R) where
  -- `std::sort` keeps the number of elements.
  abbrev pub KeepsLength : Type ℓ
  KeepsLength = (ds : List (R × Q)) → length (kinematics.sort ds) ≡ length ds

  length-pick_le : (n : ℕ) (back : Option Q) (qs : List Q) → length (pick kinematics n back qs) ≤ n
  unfolding pick
  length-pick_le n back [] = omega arith
  length-pick_le zero back (q ∷ qs) = omega arith
  length-pick_le (suc n) none (q ∷ qs) = omega (arith, length-pick_le n (some q) qs)
  length-pick_le (suc n) (some last) (q ∷ qs) =
      ground (arith, length-pick_le (suc n) (some last) qs, length-pick_le n (some q) qs)

  length-pick_first :
      (n : ℕ) (q : Q) (qs : List Q) → 1 ≤ n → 1 ≤ length (pick kinematics n none (q ∷ qs))
  unfolding pick
  length-pick_first zero q qs h = absurd (omega arith)
  length-pick_first (suc n) q qs h = omega arith

  length-seconds : (ds : List (R × Q)) → length (seconds kinematics ds) ≡ length ds
  unfolding seconds
  length-seconds [] = refl
  length-seconds ((d, q) ∷ ds) = omega (arith, length-seconds ds)

  length-with_distance :
      (ref : Q) (qs : List Q) → length (with_distance kinematics ref qs) ≡ length qs
  unfolding with_distance
  length-with_distance ref [] = refl
  length-with_distance ref (q ∷ qs) = omega (arith, length-with_distance ref qs)

  first_picked :
      (n : ℕ) (qs : List Q) → 1 ≤ length qs → 1 ≤ n → 1 ≤ length (pick kinematics n none qs)
  first_picked n [] h h' = absurd (omega arith)
  first_picked n (q ∷ qs) h h' = length-pick_first n q qs h'

  pos_le : (num_seeds : ℤ) (size : ℕ) → num_to_return num_seeds size ≤ size
  pos_le (pos n) size = ground arith
  pos_le (negsuc k) size = omega arith

  pos_ge :
      (num_seeds : ℤ) (size : ℕ)
      → is_zero num_seeds ≡ false
      → 1 ≤ size
      → 1 ≤ num_to_return num_seeds size
  pos_ge (pos n) size e h = ground arith
  pos_ge (negsuc k) size e h = omega arith

  length-order_picked :
      KeepsLength
      → (num_seeds : ℤ) (ref : Q) (ds : List (R × Q)) → is_zero num_seeds ≡ false
      → 1 ≤ length ds
      → (1 ≤ length (order_picked kinematics num_seeds ref ds))
        × (length (order_picked kinematics num_seeds ref ds) ≤ num_to_return num_seeds (length ds))
  unfolding order_picked
  length-order_picked keeps num_seeds ref ds e h =
      let n = num_to_return num_seeds (length ds) in
      let candidates = seconds kinematics (kinematics.sort ds) in
      let picked = pick kinematics n none candidates in
      let same : length (order_picked kinematics num_seeds ref ds) ≡ length picked =
        length-seconds (kinematics.sort (with_distance kinematics ref picked))
        ∙ keeps (with_distance kinematics ref picked)
        ∙ length-with_distance ref picked in
      let enough : 1 ≤ length candidates =
        omega (arith, length-seconds (kinematics.sort ds), keeps ds) in
      let least = first_picked n candidates enough (pos_ge num_seeds (length ds) e h) in
      let most = length-pick_le n none candidates in
      (omega (arith, same, least), omega (arith, same, most))

  length-direct :
      (w : R) (ref : Q) (targets : Targets T) (configs : List Q)
      → length (direct kinematics w ref targets configs) ≡ suc (length configs)
  unfolding direct direct_seeds
  length-direct w ref targets configs = omega (arith, seeds _ configs)
    where
      seeds :
          (active : List ℕ) (qs : List Q)
          → length (direct_seeds kinematics w ref active targets qs) ≡ length qs
      seeds active [] = refl
      seeds active (q ∷ qs) = omega (arith, seeds active qs)

  -- On a coherent cache, with targets and a number of seeds other than zero, where `std::sort` keeps
  -- the number of elements, `CalcClosestSeed2Steps` returns at least one seed and no more than asked
  -- for, where a negative number asks for one more seed than there are configurations, which is also
  -- the most that it returns.
  pub calc_closest_seed_2steps_bounded :
      KeepsLength
      → (targets : Targets T) (ref : Q) (w : R) (num_seeds : ℤ) (cache : IkCache Q T)
      → is_zero num_seeds ≡ false
      → (length targets == 0) ≡ false
      → IsCoherent kinematics cache
      → (seeds : List Q) × ((calc_closest_seed_2steps kinematics targets ref w num_seeds cache).0
          ≡ returns seeds)
        × (1 ≤ length seeds)
        × (length seeds ≤ num_to_return num_seeds (suc (length cache.cache_configs)))
        × (length seeds ≤ suc (length cache.cache_configs))
  calc_closest_seed_2steps_bounded keeps targets ref w num_seeds cache e e' h =
      let found = calc_closest_seed_2steps-direct kinematics targets ref w num_seeds cache e e' h in
      let ds = direct kinematics w ref targets cache.cache_configs in
      let size = length-direct w ref targets cache.cache_configs in
      let bounds = length-order_picked keeps num_seeds ref ds e (omega (arith, size)) in
      let most =
        subst (λ n. length (order_picked kinematics num_seeds ref ds) ≤ num_to_return num_seeds n)
          size bounds.1 in
      (
        _,
        found.0,
        bounds.0,
        most,
        omega (arith, most, pos_le num_seeds (suc (length cache.cache_configs))),
      )
