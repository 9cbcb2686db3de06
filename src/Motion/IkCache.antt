-- ===== src/Motion/IkCache.antt =====
-- planning_service/motion/planning/ik_cache.h and ik_cache.cc: configurations with the relative poses of
-- pairs of frames in each of them, and the two searches for the ones closest to target poses. Frames
-- are told apart by number, as the source does by address; real arithmetic, Drake's kinematics and
-- `std::sort`, which may order equal distances in any way, are the interface `Kinematics`.
pub mod Seeds
pub mod Coherent
pub mod Direct
pub mod Bounds
pub mod Examples
use planning_service.Prelude.{
  ℕ, zero, suc, ◌+◌, Bool, true, false, not, ◌&&◌, ◌||◌, ◌==◌, leb, ltb, List, [], ◌∷◌, ◌++◌, map,
  length, get_elem?, Option, none, some, if◌then◌else◌, number_key, ◌≡◌, ◌↔◌, refl,
}
use planning_service.Prelude.Keys.{Key, same_key, same_key_iff}
use planning_service.Prelude.Int.{ℤ, pos, negsuc}
use planning_service.Prelude.Maps.{has_key, lookup, emplace}
use planning_service.Prelude.Sets.{insert}
use planning_service.Service.Error.{Outcome, returns, throws, Exception, runtime_error}
use planning_service.Service.Action.{Action, Done, pure, throw, ◌>>=◌, ◌>>◌, for_each}
use native.Mathlib.Omega.{arith}

abbrev pub FramePair : Type 0
FramePair = ℕ × ℕ

abbrev pub same_pair : FramePair → FramePair → Bool
same_pair (a, b) (c, d) = (a == c) && (b == d)

pub same_pair_iff : (p q : FramePair) → (same_pair p q ≡ true) ↔ (p ≡ q)
same_pair_iff (a, b) (c, d) = ground arith

instance abbrev pub pair_key : Key FramePair
pair_key = record { same = same_pair; same_iff = same_pair_iff }

-- Over configurations `Q`, poses `T` and distances `R`.
pub record Kinematics {ℓ} (Q T R : Type ℓ) : Type ℓ where
  pub model_instance : ℕ → ℕ
  -- `CalcRelativeTransform`
  pub relative_transform : Q → ℕ → ℕ → T
  -- `SetIdleModelsConfigToRef`, with the reference and the active model instances
  pub set_idle_to_ref : Q → Q → List ℕ → Q
  -- `Distance` of two poses, with the weight of angles
  pub pose_distance : R → T → T → R
  -- the norm of the difference
  pub distance : Q → Q → R
  pub zero_distance : R
  pub add : R → R → R
  pub scale : R → R → R
  -- `isApprox`
  pub is_approx : Q → Q → Bool
  -- `std::sort` by the distances
  pub sort : List (R × Q) → List (R × Q)

-- `FrameRelativePoses`
abbrev pub Targets {ℓ} : Type ℓ → Type ℓ
Targets T = List (ℕ × ℕ × T)

pub record IkCache {ℓ} (Q T : Type ℓ) : Type ℓ where
  pub cache_configs : List Q
  pub cached_frps : List (FramePair × List T)

-- `for (...) poses.push_back(...)` at one key.
unfoldable pub push_pose {ℓ} :
    {T : Type ℓ} → FramePair → T → List (FramePair × List T) → List (FramePair × List T)
push_pose key pose [] = []
push_pose key pose ((k, poses) ∷ m) =
    let rest = push_pose key pose m in
    (k, (if same_pair k key then poses ++ pose ∷ [] else poses)) ∷ rest

-- `cached_frps_[key].clear()`
unfoldable pub clear_poses {ℓ} :
    {T : Type ℓ} → FramePair → List (FramePair × List T) → List (FramePair × List T)
clear_poses key [] = []
clear_poses key ((k, poses) ∷ m) =
    let rest = clear_poses key m in (k, (if same_pair k key then [] else poses)) ∷ rest

module _ {ℓ} {Q T R : Type ℓ} (kinematics : Kinematics Q T R) where
  open kinematics use {
    model_instance, relative_transform, set_idle_to_ref, pose_distance, distance, zero_distance,
    add, scale, is_approx, sort,
  }

  unfoldable pub make : List Q → IkCache Q T
  make global_configs = record { cache_configs = global_configs; cached_frps = [] }

  unfoldable pub push_poses : ℕ → ℕ → List Q → List (FramePair × List T) → List (FramePair × List T)
  push_poses a b [] m = m
  push_poses a b (q ∷ qs) m = push_poses a b qs (push_pose (a, b) (relative_transform q a b) m)

  unfoldable pub add_frames : ℕ → ℕ → IkCache Q T → IkCache Q T
  add_frames a b cache = record cache {
    cached_frps = push_poses a b cache.cache_configs (
        if has_key (a, b) cache.cached_frps
        then clear_poses (a, b) cache.cached_frps
        else emplace (a, b) [] cache.cached_frps);
  }

  -- The loop of `AddCacheConfig`.
  unfoldable pub push_config : Q → List (FramePair × List T) → List (FramePair × List T)
  push_config q [] = []
  push_config q (((a, b), poses) ∷ m) =
      let rest = push_config q m in ((a, b), poses ++ relative_transform q a b ∷ []) ∷ rest

  unfoldable pub add_cache_config : Q → IkCache Q T → IkCache Q T
  add_cache_config q cache = record {
    cache_configs = cache.cache_configs ++ q ∷ [];
    cached_frps = push_config q cache.cached_frps;
  }
  -- The loop that picks seeds, over the candidates that are left, and the last seed picked.
