-- ===== src/Motion/IkCache/Direct.antt =====
-- On a coherent cache `CalcClosestSeed2Steps` finds what it would find without a cache.
use planning_service.Prelude.{
  ℕ, zero, suc, ◌+◌, false, ◌==◌, List, [], ◌∷◌, length, get_elem?, get_elem?-suc, none, some, ◌≡◌,
  refl, arith, ap, sym, subst, ◌∙◌, inl, inr,
}
use planning_service.Prelude.Int.{ℤ}
use planning_service.Prelude.Tests.{Bool-cases}
use planning_service.Prelude.Maps.{has_key, lookup, lookup-some}
use planning_service.Service.Error.{Outcome, returns, throws}
use planning_service.Service.Action.{Action, pure, resume, ◌>>=◌, ◌>>◌}
use planning_service.Motion.IkCache.{pair_key, Kinematics, Targets, IkCache}
use planning_service.Motion.IkCache.Seeds.{
  active_instances, add_missing, cached_pose, seed_pose, sum_distances, sum_seeds, order_picked,
  is_zero, calc_closest_seed_2steps, past_the_end,
}
use planning_service.Motion.IkCache.Coherent.{
  IsCoherent, poses_of, lookup-add_frames, add_frames-IsCoherent, coherent_poses,
  add_frames_configs, get_elem?-poses_of,
}

module _ {ℓ} {Q T R : Type ℓ} (kinematics : Kinematics Q T R) where
  open kinematics use {
    model_instance, relative_transform, set_idle_to_ref, pose_distance, zero_distance, add,
  }

  -- The sum over the targets for a configuration whose poses are calculated.
  unfoldable pub direct_sum : R → Q → Targets T → R → R
  direct_sum w q [] d = d
  direct_sum w q ((a, b, pose) ∷ targets) d =
      direct_sum w q targets (add d (pose_distance w pose (relative_transform q a b)))

  -- The seeds of cached configurations with their sums: the idle models of a seed are set to the
  -- reference, but the poses are those of the configuration itself.
  unfoldable pub direct_seeds : R → Q → List ℕ → Targets T → List Q → List (R × Q)
  direct_seeds w ref active targets [] = []
  direct_seeds w ref active targets (q ∷ qs) =
      (direct_sum w q targets zero_distance, set_idle_to_ref q ref active)
      ∷ direct_seeds w ref active targets qs

  -- The reference comes first, with the poses of the seed.
  unfoldable pub direct : R → Q → Targets T → List Q → List (R × Q)
  direct w ref targets configs =
      let active = active_instances model_instance targets [] in
      let seed = set_idle_to_ref ref ref active in
      (direct_sum w seed targets zero_distance, seed) ∷ direct_seeds w ref active targets configs

  -- A call that returns `v` and leaves a coherent cache of the same configurations.
  abbrev Gives {κ} : {B : Type κ} → List Q → B → Outcome B × IkCache Q T → Type (ℓ ⊔ κ)
  Gives configs v (o, cache) =
      (o ≡ returns v) × IsCoherent kinematics cache × (cache.cache_configs ≡ configs)

  abbrev value_of {κ} : {B : Type κ} → B → Outcome B → B
  value_of b (returns a) = a
  value_of b (throws e) = b

  bind-Gives {κ μ} :
      {B : Type κ} {C : Type μ} (configs : List Q) (v : B) (v' : C) (k : B → Action (IkCache Q T) C)
      (x : Outcome B × IkCache Q T)
      → Gives configs v x
      → ((cache : IkCache Q T)
          → IsCoherent kinematics cache
          → cache.cache_configs ≡ configs
          → Gives configs v' (k v cache))
      → Gives configs v' (resume k x)
  unfolding resume
  bind-Gives configs v v' k (returns a, cache) (e, c, s) next =
      subst (λ b. Gives configs v' (k b cache)) (sym (ap (value_of v) e)) (next cache c s)
  bind-Gives configs v v' k (throws x, cache) (e, c, s) next = absurd (ground arith)

  add_missing_has :
      (a b : ℕ) (cache : IkCache Q T)
      → IsCoherent kinematics cache
      → let after = (add_missing kinematics a b cache).1 in
        IsCoherent kinematics after
        × (after.cache_configs ≡ cache.cache_configs)
        × (lookup (a, b) after.cached_frps ≡ some (poses_of kinematics a b cache.cache_configs))
  unfolding add_missing
  add_missing_has a b cache h = elim (Bool-cases (has_key (a, b) cache.cached_frps)) [
    | inl e ↦
        let (poses, e') = lookup-some (a, b) cache.cached_frps e in
        rw e (h, refl, coherent_poses kinematics a b cache poses h e')
    | inr e ↦ rw e (
      add_frames-IsCoherent kinematics a b cache h,
      add_frames_configs kinematics a b cache,
      ground (arith, lookup-add_frames kinematics a b (a, b) cache),
    )
  ]

  cached_pose_returns :
      (a b i : ℕ) (poses : List T) (pose : T) (cache : IkCache Q T)
      → lookup (a, b) cache.cached_frps ≡ some poses
      → get_elem? poses i ≡ some pose
      → (cached_pose kinematics a b i cache).0 ≡ returns pose
  unfolding cached_pose
  cached_pose_returns a b i poses pose cache e e' =
      ap {B = Outcome T}
        (λ o. elim o [
          | none ↦ throws past_the_end
          | some ps ↦ elim (get_elem? ps i) [ none ↦ throws past_the_end | some p ↦ returns p ]
        ])
        e
      ∙ ap {B = Outcome T} (λ o. elim o [ none ↦ throws past_the_end | some p ↦ returns p ]) e'

  -- The pose of seed `i`, over the configuration that has its poses.
  seed_pose-Gives :
      (a b i : ℕ) (conf q : Q) (cache : IkCache Q T)
      → get_elem? (conf ∷ cache.cache_configs) i ≡ some q
      → lookup (a, b) cache.cached_frps ≡ some (poses_of kinematics a b cache.cache_configs)
      → IsCoherent kinematics cache
      → Gives cache.cache_configs (relative_transform q a b) (seed_pose kinematics i conf a b cache)
  unfolding seed_pose pure cached_pose
  seed_pose-Gives a b zero conf q cache e found h =
      (ap (λ p. returns (relative_transform p a b)) (ground arith), h, refl)
  seed_pose-Gives a b (suc i) conf q cache e found h = (
    cached_pose_returns a b i _ _ cache found
        (get_elem?-poses_of kinematics a b i cache.cache_configs q e),
    h,
    refl,
  )

  sum_distances-Gives :
      (w : R) (i : ℕ) (conf q : Q) (targets : Targets T) (d : R) (configs : List Q)
      (cache : IkCache Q T)
      → get_elem? (conf ∷ configs) i ≡ some q
      → IsCoherent kinematics cache
      → cache.cache_configs ≡ configs
      → Gives configs (direct_sum w q targets d) (sum_distances kinematics w i conf targets d cache)
  unfolding sum_distances direct_sum pure ◌>>=◌ ◌>>◌ resume add_missing
  sum_distances-Gives w i conf q [] d configs cache e h s = (refl, h, s)
  sum_distances-Gives w i conf q ((a, b, pose) ∷ targets) d configs cache e h s =
      let (h', s', found) = add_missing_has a b cache h in
      let after = (add_missing kinematics a b cache).1 in
      bind-Gives configs (relative_transform q a b) _ _ (seed_pose kinematics i conf a b after)
        (subst (λ c. Gives c (relative_transform q a b) (seed_pose kinematics i conf a b after))
          (s' ∙ s)
          (seed_pose-Gives a b i conf q after
            (subst (λ c. get_elem? (conf ∷ c) i ≡ some q) (sym (s' ∙ s)) e)
            (subst (λ c. lookup (a, b) after.cached_frps ≡ some (poses_of kinematics a b c))
              (sym s') found)
            h'))
        (λ cache' h'' s''. sum_distances-Gives w i conf q targets _ configs cache' e h'' s'')

  sum_seeds-Gives :
      (w : R) (ref : Q) (active : List ℕ) (targets : Targets T) (i : ℕ) (qs configs : List Q)
      (cache : IkCache Q T)
      → ((j : ℕ) → get_elem? configs (i + j) ≡ get_elem? qs j)
      → IsCoherent kinematics cache
      → cache.cache_configs ≡ configs
      → Gives configs
          (direct_seeds w ref active targets qs)
          (sum_seeds kinematics w ref active targets (suc i) qs cache)
  unfolding sum_seeds direct_seeds pure ◌>>=◌
  sum_seeds-Gives w ref active targets i [] configs cache at h s = (refl, h, s)
  sum_seeds-Gives w ref active targets i (q ∷ qs) configs cache at h s =
      bind-Gives configs _ _ _ _
        (sum_distances-Gives w (suc i) (set_idle_to_ref q ref active) q targets zero_distance
          configs cache (subst (λ n. get_elem? configs n ≡ some q) (omega arith) (at 0)) h s)
        (λ cache' h' s'.
          bind-Gives configs _ _ _ _
            (sum_seeds-Gives w ref active targets (suc i) qs configs cache'
              (λ j. get_elem?-suc configs i j (at (suc j))) h' s')
            (λ cache'' h'' s''. (refl, h'', s'')))

  -- On a coherent cache, with targets and a number of seeds other than zero, `CalcClosestSeed2Steps`
  -- returns what it would return if it calculated each pose: no pose in the cache is that of another
  -- configuration or pair of frames, and no read is out of range. The cache stays coherent, with the
  -- same configurations.
  pub calc_closest_seed_2steps-direct :
      (targets : Targets T) (ref : Q) (w : R) (num_seeds : ℤ) (cache : IkCache Q T)
      → is_zero num_seeds ≡ false
      → (length targets == 0) ≡ false
      → IsCoherent kinematics cache
      → let after = calc_closest_seed_2steps kinematics targets ref w num_seeds cache in
        (after.0
          ≡ returns
              (order_picked kinematics num_seeds ref (direct w ref targets cache.cache_configs)))
        × IsCoherent kinematics after.1
        × (after.1.cache_configs ≡ cache.cache_configs)
  unfolding calc_closest_seed_2steps direct sum_seeds pure ◌>>=◌
  calc_closest_seed_2steps-direct targets ref w num_seeds cache e e' h =
      let active = active_instances model_instance targets [] in
      let seed = set_idle_to_ref ref ref active in
      rw (e, e')
        (bind-Gives cache.cache_configs _ _ _ _
          (bind-Gives cache.cache_configs _ _ _ _
            (sum_distances-Gives w 0 seed seed targets zero_distance cache.cache_configs cache refl
              h refl)
            (λ cache' h' s'.
              bind-Gives cache.cache_configs _ _ _ _
                (sum_seeds-Gives w ref active targets 0 cache.cache_configs cache.cache_configs
                  cache' (λ j. ap (get_elem? cache.cache_configs) (omega arith)) h' s')
                (λ cache'' h'' s''. (refl, h'', s''))))
          (λ cache' h' s'. (refl, h', s')))
