-- ===== src/Motion/IkCache/Coherent.antt =====
-- The cache is coherent: each pair of frames in it has its relative pose in each configuration, in order.
use planning_service.Prelude.{
  ℕ, zero, suc, List, [], ◌∷◌, ◌++◌, get_elem?, Option, none, some, if◌then◌else◌, ◌≡◌, refl, arith,
  ap, ◌∙◌, inl, inr,
}
use planning_service.Prelude.Tests.{Option-cases}
use planning_service.Prelude.Maps.{lookup, emplace, lookup-emplace, lookup-some}
use planning_service.Motion.IkCache.{
  FramePair, same_pair, same_pair_iff, pair_key, Kinematics, IkCache, push_pose, clear_poses, make,
  push_poses, add_frames, push_config, add_cache_config,
}

append_one {ℓ} :
    {T : Type ℓ} (xs : List T) (y : T) (zs : List T) → (xs ++ y ∷ []) ++ zs ≡ xs ++ y ∷ zs
append_one [] y zs = refl
append_one (x ∷ xs) y zs = ap (λ l. x ∷ l) (append_one xs y zs)

append_empty {ℓ} : {T : Type ℓ} (xs : List T) → xs ++ [] ≡ xs
append_empty [] = refl
append_empty (x ∷ xs) = ap (λ l. x ∷ l) (append_empty xs)

push_all {ℓ} : {T : Type ℓ} → Option (List T) → List T → Option (List T)
push_all none ts = none
push_all (some poses) ts = some (poses ++ ts)

push_all_empty {ℓ} : {T : Type ℓ} (o : Option (List T)) → push_all o [] ≡ o
unfolding push_all
push_all_empty none = refl
push_all_empty (some poses) = ap (λ l. some l) (append_empty poses)

push_all_one {ℓ} :
    {T : Type ℓ} (o : Option (List T)) (y : T) (zs : List T)
    → push_all (push_all o (y ∷ [])) zs ≡ push_all o (y ∷ zs)
unfolding push_all
push_all_one none y zs = refl
push_all_one (some poses) y zs = ap (λ l. some l) (append_one poses y zs)

lookup-push_pose {ℓ} :
    {T : Type ℓ} (key k : FramePair) (pose : T) (m : List (FramePair × List T))
    → lookup k (push_pose key pose m)
      ≡ (if same_pair key k then push_all (lookup k m) (pose ∷ []) else lookup k m)
unfolding lookup push_pose push_all
lookup-push_pose key k pose [] = ground arith
lookup-push_pose key k pose ((j, poses) ∷ m) = ground (
  arith,
  lookup-push_pose key k pose m,
  same_pair_iff j k,
  same_pair_iff j key,
  same_pair_iff key k,
)

emptied {ℓ} : {T : Type ℓ} → Option (List T) → Option (List T)
emptied none = none
emptied (some poses) = some []

lookup-clear_poses {ℓ} :
    {T : Type ℓ} (key k : FramePair) (m : List (FramePair × List T))
    → lookup k (clear_poses key m) ≡ (if same_pair key k then emptied (lookup k m) else lookup k m)
unfolding lookup clear_poses emptied
lookup-clear_poses key k [] = ground arith
lookup-clear_poses key k ((j, poses) ∷ m) =
    ground (
      arith,
      lookup-clear_poses key k m,
      same_pair_iff j k,
      same_pair_iff j key,
      same_pair_iff key k,
    )

module _ {ℓ} {Q T R : Type ℓ} (kinematics : Kinematics Q T R) where
  open kinematics use {relative_transform}

  pub poses_of : ℕ → ℕ → List Q → List T
  poses_of a b [] = []
  poses_of a b (q ∷ qs) = relative_transform q a b ∷ poses_of a b qs

  -- Each pair of frames in the cache has its poses in all the configurations.
  unfoldable pub IsCoherent : IkCache Q T → Type ℓ
  IsCoherent cache =
      (a b : ℕ) (poses : List T)
      → lookup (a, b) cache.cached_frps ≡ some poses
      → poses ≡ poses_of a b cache.cache_configs

  lookup-push_poses :
      (a b : ℕ) (k : FramePair) (qs : List Q) (m : List (FramePair × List T))
      → lookup k (push_poses kinematics a b qs m)
        ≡ (if same_pair (a, b) k then push_all (lookup k m) (poses_of a b qs) else lookup k m)
  unfolding push_poses poses_of
  lookup-push_poses a b k [] m = ground (arith, push_all_empty (lookup k m))
  lookup-push_poses a b k (q ∷ qs) m = ground (
    arith,
    lookup-push_poses a b k qs (push_pose (a, b) (relative_transform q a b) m),
    lookup-push_pose (a, b) k (relative_transform q a b) m,
    push_all_one (lookup k m) (relative_transform q a b) (poses_of a b qs),
  )

  -- What `AddFrames` leaves at each pair of frames.
  pub lookup-add_frames :
      (a b : ℕ) (k : FramePair) (cache : IkCache Q T)
      → lookup k (add_frames kinematics a b cache).cached_frps ≡ (
          if same_pair (a, b) k
          then some (poses_of a b cache.cache_configs)
          else lookup k cache.cached_frps)
  unfolding add_frames push_all emptied lookup
  lookup-add_frames a b k cache = ground (
    arith,
    lookup-push_poses a b k cache.cache_configs (clear_poses (a, b) cache.cached_frps),
    lookup-push_poses a b k cache.cache_configs (emplace (a, b) [] cache.cached_frps),
    lookup-clear_poses (a, b) k cache.cached_frps,
    lookup-emplace (a, b) k [] cache.cached_frps,
    same_pair_iff (a, b) k,
    lookup-some (a, b) cache.cached_frps,
  )

  pub add_frames-IsCoherent :
      (a b : ℕ) (cache : IkCache Q T)
      → IsCoherent cache
      → IsCoherent (add_frames kinematics a b cache)
  unfolding IsCoherent add_frames
  add_frames-IsCoherent a b cache h c d poses e =
      ground (arith, lookup-add_frames a b (c, d) cache, h c d poses, same_pair_iff (a, b) (c, d))

  append-poses_of :
      (a b : ℕ) (qs : List Q) (q : Q)
      → poses_of a b (qs ++ q ∷ []) ≡ poses_of a b qs ++ relative_transform q a b ∷ []
  unfolding poses_of
  append-poses_of a b [] q = refl
  append-poses_of a b (p ∷ qs) q = ap (λ l. relative_transform p a b ∷ l) (append-poses_of a b qs q)

  lookup-push_config :
      (q : Q) (a b : ℕ) (m : List (FramePair × List T))
      → lookup (a, b) (push_config kinematics q m)
        ≡ push_all (lookup (a, b) m) (relative_transform q a b ∷ [])
  unfolding push_config lookup push_all
  lookup-push_config q a b [] = refl
  lookup-push_config q a b (((c, d), poses) ∷ m) =
      ground (arith, lookup-push_config q a b m, same_pair_iff (c, d) (a, b))

  pub add_cache_config-IsCoherent :
      (q : Q) (cache : IkCache Q T)
      → IsCoherent cache
      → IsCoherent (add_cache_config kinematics q cache)
  unfolding IsCoherent add_cache_config push_all
  add_cache_config-IsCoherent q cache h a b poses e =
      elim (Option-cases (lookup (a, b) cache.cached_frps)) [
        | inl e' ↦ absurd (ground (arith, lookup-push_config q a b cache.cached_frps))
        | inr (ps, e') ↦ ground (
          arith,
          lookup-push_config q a b cache.cached_frps,
          h a b ps,
          append-poses_of a b cache.cache_configs q,
        )
      ]

  pub make-IsCoherent : (configs : List Q) → IsCoherent (make kinematics configs)
  unfolding IsCoherent make lookup
  make-IsCoherent configs a b poses e = absurd (ground arith)

  -- A pair in a coherent cache has its pose in each configuration.
  pub get_elem?-poses_of :
      (a b i : ℕ) (qs : List Q) (q : Q)
      → get_elem? qs i ≡ some q
      → get_elem? (poses_of a b qs) i ≡ some (relative_transform q a b)
  unfolding poses_of
  get_elem?-poses_of a b i [] q e = absurd (ground arith)
  get_elem?-poses_of a b zero (p ∷ qs) q e = ground arith
  get_elem?-poses_of a b (suc i) (p ∷ qs) q e = get_elem?-poses_of a b i qs q e

  pub coherent_poses :
      (a b : ℕ) (cache : IkCache Q T) (poses : List T)
      → IsCoherent cache
      → lookup (a, b) cache.cached_frps ≡ some poses
      → lookup (a, b) cache.cached_frps ≡ some (poses_of a b cache.cache_configs)
  unfolding IsCoherent
  coherent_poses a b cache poses h e = e ∙ ap (λ l. some l) (h a b poses e)

  pub add_frames_configs :
      (a b : ℕ) (cache : IkCache Q T)
      → (add_frames kinematics a b cache).cache_configs ≡ cache.cache_configs
  unfolding add_frames
  add_frames_configs a b cache = refl

-- The calls that change the cache.
pub data Change {ℓ} (Q : Type ℓ) : Type ℓ where
  frames : ℕ → ℕ → Change Q
  config : Q → Change Q

module _ {ℓ} {Q T R : Type ℓ} (kinematics : Kinematics Q T R) where
  unfoldable pub change_all : List (Change Q) → IkCache Q T → IkCache Q T
  change_all [] cache = cache
  change_all (frames a b ∷ changes) cache = change_all changes (add_frames kinematics a b cache)
  change_all (config q ∷ changes) cache = change_all changes (add_cache_config kinematics q cache)

  change_all_keeps :
      (changes : List (Change Q)) (cache : IkCache Q T)
      → IsCoherent kinematics cache
      → IsCoherent kinematics (change_all changes cache)
  unfolding change_all
  change_all_keeps [] cache h = h
  change_all_keeps (frames a b ∷ changes) cache h =
      change_all_keeps changes _ (add_frames-IsCoherent kinematics a b cache h)
  change_all_keeps (config q ∷ changes) cache h =
      change_all_keeps changes _ (add_cache_config-IsCoherent kinematics q cache h)

  -- After any calls of `AddFrames`, also for pairs that are there, and of `AddCacheConfig` on a new
  -- cache, in any order, each pair of frames in the cache has its poses in all the configurations.
  pub change_all-make-IsCoherent :
      (configs : List Q) (changes : List (Change Q))
      → IsCoherent kinematics (change_all changes (make kinematics configs))
  change_all-make-IsCoherent configs changes =
      change_all_keeps changes (make kinematics configs) (make-IsCoherent kinematics configs)
