-- ===== src/Motion/IkCache/Seeds.antt =====
-- The two searches of ik_cache.cc for the seeds closest to target poses: the one adds distances of poses
-- and configurations, the other orders the seeds picked by pose by their configurations.
use planning_service.Prelude.{
  ℕ, zero, suc, Bool, true, false, not, ◌||◌, ◌==◌, ltb, List, [], ◌∷◌, length, get_elem?, Option,
  none, some, if◌then◌else◌, number_key,
}
use planning_service.Prelude.Int.{ℤ, pos, negsuc}
use planning_service.Prelude.Maps.{has_key, lookup}
use planning_service.Prelude.Sets.{insert}
use planning_service.Service.Error.{Outcome, returns, throws, Exception, runtime_error}
use planning_service.Service.Action.{Action, Done, pure, throw, ◌>>=◌, ◌>>◌}
use planning_service.Motion.IkCache.{Kinematics, Targets, IkCache, pair_key, add_frames}

-- How the scan of a seed ends early: it meets a pair of frames that is not in the cache, or reads
-- past the end of the poses of one.
pub data Scan {ℓ} (A : Type ℓ) : Type ℓ where
  found : A → Scan A
  missing : ℕ → ℕ → Scan A
  out_of_range : Scan A

abbrev pub condition_failed : Exception
condition_failed = runtime_error "Condition failed."

-- `v.at(i)`; the text of the exception is the library's own.
abbrev pub past_the_end : Exception
past_the_end = runtime_error "out of range"

-- The model instances of the frames, as a set.
unfoldable pub active_instances {ℓ} : {T : Type ℓ} → (ℕ → ℕ) → Targets T → List ℕ → List ℕ
active_instances instance_of [] active = active
active_instances instance_of ((a, b, pose) ∷ targets) active =
    active_instances instance_of targets (insert (instance_of b) (insert (instance_of a) active))

-- The number of seeds to return, of so many; each negative number is all of them.
abbrev pub num_to_return : ℤ → ℕ → ℕ
num_to_return (pos n) size = if ltb size n then size else n
num_to_return (negsuc k) size = size

abbrev pub is_zero : ℤ → Bool
is_zero (pos n) = n == 0
is_zero (negsuc k) = false

abbrev pub is_count_1step : ℤ → Bool
is_count_1step (pos n) = ltb 0 n
is_count_1step (negsuc zero) = true
is_count_1step (negsuc (suc k)) = false

abbrev pub and_then {κ μ} : {B : Type κ} {C : Type μ} → Scan B → (B → Scan C) → Scan C
and_then (found b) f = f b
and_then (missing a b) f = missing a b
and_then out_of_range f = out_of_range

module _ {ℓ} {Q T R : Type ℓ} (kinematics : Kinematics Q T R) where
  open kinematics use {
    model_instance, relative_transform, set_idle_to_ref, pose_distance, distance, zero_distance,
    add, scale, is_approx, sort,
  }

  unfoldable pub pick : ℕ → Option Q → List Q → List Q
  pick n back [] = []
  pick zero back (q ∷ qs) = []
  pick (suc n) none (q ∷ qs) = q ∷ pick n (some q) qs
  pick (suc n) (some last) (q ∷ qs) =
      let skipped = pick (suc n) (some last) qs in
      let picked = q ∷ pick n (some q) qs in if is_approx q last then skipped else picked

  unfoldable pub seconds : List (R × Q) → List Q
  seconds [] = []
  seconds ((d, q) ∷ qs) = q ∷ seconds qs

  -- The sum over the targets at seed `i`, where 0 is the reference: in `CalcClosestSeed1Step`.
  unfoldable pub seed_distance : R → IkCache Q T → ℕ → Q → Targets T → R → Scan R
  seed_distance w cache i conf [] d = found d
  seed_distance w cache zero conf ((a, b, pose) ∷ targets) d =
      let rest =
        seed_distance w cache zero conf targets
          (add d (pose_distance w pose (relative_transform conf a b))) in
      if has_key (a, b) cache.cached_frps then rest else missing a b
  seed_distance w cache (suc i) conf ((a, b, pose) ∷ targets) d =
      elim (lookup (a, b) cache.cached_frps) [
        | none ↦ missing a b
        | some poses ↦ elim (get_elem? poses i) [
          | none ↦ out_of_range
          | some cached ↦
              seed_distance w cache (suc i) conf targets (add d (pose_distance w cached pose))
        ]
      ]

  -- The loop over the reference and the cached configurations, in `CalcClosestSeed1Step`.
  unfoldable pub scan_seeds :
      R → R → Q → List ℕ → Targets T → IkCache Q T → ℕ → List Q → Scan (List (R × Q))
  scan_seeds w qw ref active targets cache i [] = found []
  scan_seeds w qw ref active targets cache i (q ∷ qs) =
      let conf = set_idle_to_ref q ref active in
      let rest = scan_seeds w qw ref active targets cache (suc i) qs in
      and_then (seed_distance w cache i conf targets zero_distance)
        λ d. and_then rest λ ds. found ((add d (scale qw (distance conf ref)), conf) ∷ ds)

  -- Where a pair of frames is missing, it is added and the search starts again; `fuel` counts the
  -- starts.
  unfoldable pub calc_closest_seed_1step :
      ℕ → Targets T → Q → R → R → ℤ → IkCache Q T → Option (Outcome (List Q) × IkCache Q T)
  calc_closest_seed_1step zero targets ref w qw num_seeds cache = none
  calc_closest_seed_1step (suc fuel) targets ref w qw num_seeds cache =
      if not (is_count_1step num_seeds) || (length targets == 0)
      then some (throws condition_failed, cache)
      else elim (scan_seeds w qw ref (active_instances model_instance targets []) targets cache 0
          (ref ∷ cache.cache_configs)) [
            | found ds ↦ some (
              returns (pick (num_to_return num_seeds (length ds)) none (seconds (sort ds))),
              cache,
            )
            | missing a b ↦
                calc_closest_seed_1step fuel targets ref w qw num_seeds
                  (add_frames kinematics a b cache)
            | out_of_range ↦ some (throws past_the_end, cache)
          ]

  unfoldable pub add_missing : ℕ → ℕ → Action (IkCache Q T) Done
  add_missing a b cache = (
    returns tt,
    if has_key (a, b) cache.cached_frps then cache else add_frames kinematics a b cache,
  )

  -- `cached_frps_.at(key).at(i)`
  unfoldable pub cached_pose : ℕ → ℕ → ℕ → Action (IkCache Q T) T
  cached_pose a b i cache = (
    elim (lookup (a, b) cache.cached_frps) [
      | none ↦ throws past_the_end
      | some poses ↦ elim (get_elem? poses i) [
        | none ↦ throws past_the_end
        | some pose ↦ returns pose
      ]
    ],
    cache,
  )

  unfoldable pub seed_pose : ℕ → Q → ℕ → ℕ → Action (IkCache Q T) T
  seed_pose zero conf a b = pure (relative_transform conf a b)
  seed_pose (suc i) conf a b = cached_pose a b i

  -- The sum over the targets, in `CalcClosestSeed2Steps`.
  unfoldable pub sum_distances : R → ℕ → Q → Targets T → R → Action (IkCache Q T) R
  sum_distances w i conf [] d = pure d
  sum_distances w i conf ((a, b, pose) ∷ targets) d =
      add_missing a b
      >> (seed_pose i conf a b >>= λ seed.
          sum_distances w i conf targets (add d (pose_distance w pose seed)))

  unfoldable pub sum_seeds :
      R → Q → List ℕ → Targets T → ℕ → List Q → Action (IkCache Q T) (List (R × Q))
  sum_seeds w ref active targets i [] = pure []
  sum_seeds w ref active targets i (q ∷ qs) =
      let conf = set_idle_to_ref q ref active in
      sum_distances w i conf targets zero_distance >>= λ d.
      sum_seeds w ref active targets (suc i) qs >>= λ ds. pure ((d, conf) ∷ ds)

  unfoldable pub with_distance : Q → List Q → List (R × Q)
  with_distance ref [] = []
  with_distance ref (q ∷ qs) = (distance q ref, q) ∷ with_distance ref qs

  -- The seeds that are picked, in the order of their distance to the reference.
  unfoldable pub order_picked : ℤ → Q → List (R × Q) → List Q
  order_picked num_seeds ref ds = seconds (
      sort
        (with_distance ref (pick (num_to_return num_seeds (length ds)) none (seconds (sort ds)))))

  unfoldable pub calc_closest_seed_2steps : Targets T → Q → R → ℤ → Action (IkCache Q T) (List Q)
  calc_closest_seed_2steps targets ref w num_seeds cache =
      (if is_zero num_seeds || (length targets == 0)
          then throw condition_failed
          else (sum_seeds w ref (active_instances model_instance targets []) targets 0
                (ref ∷ cache.cache_configs)
              >>= λ ds. pure (order_picked num_seeds ref ds)))
        cache

  -- `CalcClosestSeed`
  unfoldable pub calc_closest_seed :
      ℕ → Targets T → Q → R → R → ℤ → Bool → IkCache Q T → Option (Outcome (List Q) × IkCache Q T)
  calc_closest_seed fuel targets ref w qw num_seeds true cache =
      some (calc_closest_seed_2steps targets ref w num_seeds cache)
  calc_closest_seed fuel targets ref w qw num_seeds false cache =
      calc_closest_seed_1step fuel targets ref w qw num_seeds cache
