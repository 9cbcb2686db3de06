-- ===== src/Motion/IkCache/Examples.antt =====
-- The theorems about the cache where configurations, poses and distances are numbers, and sorting puts
-- the nearest first.
use planning_service.Prelude.{
  ℕ, suc, ◌+◌, ◌-◌, ◌*◌, ◌≤◌, List, [], ◌∷◌, length, if◌then◌else◌, ◌≡◌, refl, arith, leb, ◌==◌,
}
use planning_service.Prelude.Int.{pos}
use planning_service.Service.Error.{returns}
use planning_service.Motion.IkCache.{Kinematics, Targets, IkCache, make}
use planning_service.Motion.IkCache.Seeds.{calc_closest_seed_2steps, order_picked, num_to_return}
use planning_service.Motion.IkCache.Coherent.{
  Change, frames, config, change_all, IsCoherent, change_all-make-IsCoherent,
}
use planning_service.Motion.IkCache.Direct.{direct, calc_closest_seed_2steps-direct}
use planning_service.Motion.IkCache.Bounds.{KeepsLength, calc_closest_seed_2steps_bounded}

insert_pair : ℕ × ℕ → List (ℕ × ℕ) → List (ℕ × ℕ)
insert_pair p [] = p ∷ []
insert_pair p (r ∷ rs) = let rest = insert_pair p rs in if leb p.0 r.0 then p ∷ r ∷ rs else r ∷ rest

sort_pairs : List (ℕ × ℕ) → List (ℕ × ℕ)
sort_pairs [] = []
sort_pairs (p ∷ ps) = insert_pair p (sort_pairs ps)

abbrev kinematics : Kinematics ℕ ℕ ℕ
kinematics = record {
  model_instance = λ f. f;
  relative_transform = λ q a b. q + (10 * a) + b;
  set_idle_to_ref = λ q ref active. q;
  pose_distance = λ w p q. (p - q) + (q - p);
  distance = λ p q. (p - q) + (q - p);
  zero_distance = 0;
  add = λ d e. d + e;
  scale = λ w d. w * d;
  is_approx = λ p q. p == q;
  sort = sort_pairs;
}

length-insert_pair : (p : ℕ × ℕ) (ps : List (ℕ × ℕ)) → length (insert_pair p ps) ≡ suc (length ps)
unfolding insert_pair
length-insert_pair p [] = refl
length-insert_pair p (r ∷ rs) = ground (arith, length-insert_pair p rs)

sort_keeps_length : KeepsLength kinematics
unfolding sort_pairs
sort_keeps_length [] = refl
sort_keeps_length (p ∷ ps) =
    omega (arith, length-insert_pair p (sort_pairs ps), sort_keeps_length ps)

abbrev changes : List (Change ℕ)
changes = frames 1 2 ∷ config 7 ∷ frames 1 2 ∷ []

abbrev cache : IkCache ℕ ℕ
cache = change_all kinematics changes (make kinematics (3 ∷ 5 ∷ []))

change_all-make-IsCoherent_example : IsCoherent kinematics cache
change_all-make-IsCoherent_example = change_all-make-IsCoherent kinematics (3 ∷ 5 ∷ []) changes

abbrev targets : Targets ℕ
targets = (1, 2, 18) ∷ (2, 1, 27) ∷ []

calc_closest_seed_2steps-direct_example :
    ((calc_closest_seed_2steps kinematics targets 4 1 (pos 2) cache).0
      ≡ returns
          (order_picked kinematics (pos 2) 4 (direct kinematics 1 4 targets cache.cache_configs)))
    × IsCoherent kinematics (calc_closest_seed_2steps kinematics targets 4 1 (pos 2) cache).1
    × ((calc_closest_seed_2steps kinematics targets 4 1 (pos 2) cache).1.cache_configs
        ≡ cache.cache_configs)
calc_closest_seed_2steps-direct_example =
    calc_closest_seed_2steps-direct kinematics targets 4 1 (pos 2) cache refl refl
      (change_all-make-IsCoherent kinematics (3 ∷ 5 ∷ []) changes)

calc_closest_seed_2steps_bounded_example :
    (seeds : List ℕ) × ((calc_closest_seed_2steps kinematics targets 4 1 (pos 2) cache).0
      ≡ returns seeds)
    × (1 ≤ length seeds)
    × (length seeds ≤ num_to_return (pos 2) (suc (length cache.cache_configs)))
    × (length seeds ≤ suc (length cache.cache_configs))
calc_closest_seed_2steps_bounded_example =
    calc_closest_seed_2steps_bounded kinematics sort_keeps_length targets 4 1 (pos 2) cache refl
      refl (change_all-make-IsCoherent kinematics (3 ∷ 5 ∷ []) changes)
