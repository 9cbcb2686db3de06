-- ===== src/Service/Registry/Effects.antt =====
-- What a single call of RegisterPlanContext or RemovePlanContext (resource_registry.cc) brings about.
use planning_service.Prelude.{
  ℕ, String, Bool, true, false, ◌≡◌, ◌≢◌, refl, Option, none, some, Bool-cases, inl, inr, ◌==◌,
  arith, if◌then◌else◌, number_key, text_key, same_key, same_key_iff,
}
use planning_service.Prelude.Maps
use planning_service.Prelude.Maps.{
  has_key, lookup, emplace, has_key-emplace, has_key-erase, lookup-erase,
}
use planning_service.Service.Error.{
  Expected, value, unexpected, Outcome, returns, throws, Exception, ServiceError,
}
use planning_service.Service.Action.{
  Action, Done, pure, throw, ◌>>=◌, ◌>>◌, resume, handle, try_catch,
}
use planning_service.Service.Registry.{
  Resources, Options, ResourceRegistry, PlanContext, on_disk, has_draco, store, erase_draco,
  erase_context, remove_draco, invalid, hash_to_use, add_draco, activate, register_new,
  register_known, register_plan_context,
}
use planning_service.Service.Registry.Changes.{drop_context, erase_and_drop, remove_plan_context}

module _ {ℓ} {W P X : Type ℓ} where
  -- Where the id is answered it is out of both maps, whose other entries are as in `r`; any other
  -- answer, and an exception, leaves both maps alone.
  pub data IsRemoval (id : ℕ) (r : ResourceRegistry W P X)
      : Outcome (Expected ℕ) × ResourceRegistry W P X → Type ℓ where
    removed :
        {r' : ResourceRegistry W P X}
        → ((j : ℕ) → lookup j r'.draco_map ≡ (if same_key id j then none else lookup j r.draco_map))
        → ((j : ℕ)
            → lookup j r'.active_contexts_map
              ≡ (if same_key id j then none else lookup j r.active_contexts_map))
        → IsRemoval id r (returns (value id), r')
    kept :
        {o : Outcome (Expected ℕ)} {r' : ResourceRegistry W P X}
        → o ≢ returns (value id)
        → r'.draco_map ≡ r.draco_map
        → r'.active_contexts_map ≡ r.active_contexts_map
        → IsRemoval id r (o, r')

  -- A planner is stored under `id`, or there was an exception.
  abbrev IsStored : ℕ → Outcome Done × ResourceRegistry W P X → Type 0
  IsStored id (returns u, r) = has_key id r.draco_map ≡ true
  IsStored id (throws e, r) = Unit

  -- An id that is answered has a planner.
  abbrev pub IsAvailable : Outcome (Expected ℕ) × ResourceRegistry W P X → Type 0
  IsAvailable (returns (value id), r) = has_key id r.draco_map ≡ true
  IsAvailable (returns (unexpected e), r) = Unit
  IsAvailable (throws e, r) = Unit

  resume-IsStored {κ} :
      {A : Type κ} (id : ℕ) (k : A → Action (ResourceRegistry W P X) Done)
      → ((a : A) (r : ResourceRegistry W P X) → IsStored id (k a r))
      → (m : Outcome A × ResourceRegistry W P X) → IsStored id (resume k m)
  unfolding resume
  resume-IsStored id k h (returns a, r) = h a r
  resume-IsStored id k h (throws e, r) = tt

  resume-IsAvailable {κ} :
      {A : Type κ} (k : A → Action (ResourceRegistry W P X) (Expected ℕ))
      → ((a : A) (r : ResourceRegistry W P X) → IsAvailable (k a r))
      → (m : Outcome A × ResourceRegistry W P X) → IsAvailable (resume k m)
  unfolding resume
  resume-IsAvailable k h (returns a, r) = h a r
  resume-IsAvailable k h (throws e, r) = tt

  option-IsAvailable {κ} :
      {A : Type κ} (o : Option A) (m : Action (ResourceRegistry W P X) (Expected ℕ))
      (k : A → Action (ResourceRegistry W P X) (Expected ℕ)) (r : ResourceRegistry W P X)
      → IsAvailable (m r)
      → ((a : A) → IsAvailable (k a r))
      → IsAvailable (
          (elim o as (λ _. Action (ResourceRegistry W P X) (Expected ℕ)) [
            | none ↦ m
            | some a ↦ k a
          ])
            r)
  option-IsAvailable none m k r hm hk = hm
  option-IsAvailable (some a) m k r hm hk = hk a

  if-IsRemoval :
      (b : Bool) (id : ℕ) (m k : Action (ResourceRegistry W P X) (Expected ℕ))
      (r r1 : ResourceRegistry W P X)
      → IsRemoval id r (m r1)
      → IsRemoval id r (k r1)
      → IsRemoval id r ((if b then m else k) r1)
  if-IsRemoval true id m k r r1 hm hk = hm
  if-IsRemoval false id m k r r1 hm hk = hk

  handle-IsAvailable :
      (id : ℕ) (h : Exception → ServiceError) (m : Outcome Done × ResourceRegistry W P X)
      → IsStored id m
      → IsAvailable (handle (λ e. pure (unexpected (h e))) (resume (λ u. pure (value id)) m))
  unfolding handle resume pure
  handle-IsAvailable id h (returns u, r) s = s
  handle-IsAvailable id h (throws e, r) s = tt

module _ {ℓ} {W P X : Type ℓ} (resources : Resources W P X) (options : Options) where
  open resources use {make_planner, constraints_hash}
  open options use {dry_run, update_resource_ids, system_name}

  drop_context-IsRemoval :
      (id : ℕ) (r r1 : ResourceRegistry W P X)
      → r1.draco_map ≡ r.draco_map
      → r1.active_contexts_map ≡ r.active_contexts_map
      → IsRemoval id r (drop_context resources options id r1)
  unfolding drop_context remove_draco has_draco erase_draco erase_context throw pure ◌>>=◌ ◌>>◌
      resume
  drop_context-IsRemoval id r r1 same same' = elim (Bool-cases (has_key id r1.draco_map)) [
    | inl e ↦ rw e (
        removed (λ j. ground (arith, same, lookup-erase id j r1.draco_map))
          (λ j. ground (
            arith,
            same',
            lookup-erase id j r1.active_contexts_map,
            lookup-erase id j (Maps.erase id r1.active_contexts_map),
          )))
    | inr e ↦ rw e (kept (λ h. cc) same same')
  ]

  on_disk-IsRemoval {κ} :
      {A : Type κ} (id : ℕ) (m : Action W A) (k : A → Action (ResourceRegistry W P X) (Expected ℕ))
      (r : ResourceRegistry W P X) (disk : W)
      → ((a : A) (disk' : W) → IsRemoval id r (k a (record r { disk = disk' })))
      → IsRemoval id r (resume k (on_disk m (record r { disk = disk })))
  unfolding on_disk resume
  on_disk-IsRemoval {A} id m k r disk h = by_outcome (m disk)
    where
      by_outcome : (o : Outcome A × W) → IsRemoval id r (resume k (o.0, record r { disk = o.1 }))
      by_outcome (returns a, disk') = h a disk'
      by_outcome (throws e, disk') = kept (λ k. cc) refl refl

  hash-IsStored :
      (id computed : ℕ) (planner : P) (context : PlanContext X) (r : ResourceRegistry W P X)
      → dry_run ≡ false
      → update_resource_ids ≡ false
      → IsStored id (
          (hash_to_use resources options id computed context
              >>= (λ hash. if dry_run then pure tt else store hash planner context))
            r)
  unfolding hash_to_use store ◌>>=◌ pure throw resume
  hash-IsStored id computed planner context r wet fixed = elim (Bool-cases (computed == id)) [
    | inl e ↦
        rw (e, wet) (ground (arith, has_key-emplace id id planner r.draco_map, same_key_iff id id))
    | inr e ↦ rw (e, fixed) tt
  ]

  add_draco-IsStored :
      (id : ℕ) (context : PlanContext X) (r : ResourceRegistry W P X)
      → dry_run ≡ false
      → update_resource_ids ≡ false
      → IsStored id (add_draco resources options id context r)
  unfolding add_draco ◌>>=◌
  add_draco-IsStored id context r wet fixed =
      resume-IsStored id _
        (λ planner r1. hash-IsStored id (constraints_hash planner) planner context r1 wet fixed) _

  activate-IsAvailable :
      (id : ℕ) (context : PlanContext X) (r : ResourceRegistry W P X)
      → dry_run ≡ false
      → update_resource_ids ≡ false
      → IsAvailable (activate resources options system_name id context r)
  unfolding activate has_draco ◌>>=◌ ◌>>◌ pure resume try_catch
  activate-IsAvailable id context r wet fixed =
      let active : same_key system_name system_name ≡ true =
        (same_key_iff system_name system_name).1 refl in
      elim (Bool-cases (has_key id r.draco_map)) [
        | inl e ↦ rw (active, e) e
        | inr e ↦
            rw (active, e) (handle-IsAvailable id _ _ (add_draco-IsStored id context r wet fixed))
      ]

  if-IsAvailable :
      (b : Bool) (msg : String) (id : ℕ) (context : PlanContext X) (r : ResourceRegistry W P X)
      → dry_run ≡ false
      → update_resource_ids ≡ false
      → IsAvailable
          ((if b then activate resources options system_name id context else pure (invalid msg)) r)
  unfolding pure
  if-IsAvailable true msg id context r wet fixed = activate-IsAvailable id context r wet fixed
  if-IsAvailable false msg id context r wet fixed = tt

  register_known-IsAvailable :
      (id : ℕ) (context : PlanContext X) (r : ResourceRegistry W P X)
      → dry_run ≡ false
      → update_resource_ids ≡ false
      → IsAvailable (register_known resources options system_name id context r)
  unfolding register_known ◌>>=◌
  register_known-IsAvailable id context r wet fixed =
      resume-IsAvailable _ (λ x r1. if-IsAvailable x.0 _ id x.1 r1 wet fixed) _

  register_new-IsAvailable :
      (context : PlanContext X) (r : ResourceRegistry W P X)
      → dry_run ≡ false
      → update_resource_ids ≡ false
      → IsAvailable (register_new resources options system_name context r)
  unfolding register_new ◌>>=◌ pure
  register_new-IsAvailable context r wet fixed =
      resume-IsAvailable _
        (λ o r1.
          option-IsAvailable o _ _ r1 tt
            λ id. resume-IsAvailable _ (λ x r2. if-IsAvailable x.0 _ id x.1 r2 wet fixed) _)
        _

  -- Where planners are stored and ids are not updated, RegisterPlanContext for the active system
  -- answers only with the id of a context that has a planner from then on.
  pub register_plan_context-IsAvailable :
      (context : PlanContext X) (r : ResourceRegistry W P X)
      → dry_run ≡ false
      → update_resource_ids ≡ false
      → IsAvailable (register_plan_context resources options system_name context r)
  unfolding register_plan_context
  register_plan_context-IsAvailable context r wet fixed =
      option-IsAvailable context.id _ _ r (register_new-IsAvailable context r wet fixed)
        λ id. register_known-IsAvailable id context r wet fixed

  erase_and_drop-IsRemoval :
      (id : ℕ) (r : ResourceRegistry W P X) → IsRemoval id r (erase_and_drop resources options id r)
  unfolding erase_and_drop ◌>>=◌ ◌>>◌ pure
  erase_and_drop-IsRemoval id r = on_disk-IsRemoval id _ _ r r.disk λ there disk.
      if-IsRemoval there id _ _ r (record r { disk = disk })
        (on_disk-IsRemoval id _ (λ u. drop_context resources options id) r disk
          λ u disk'. drop_context-IsRemoval id r (record r { disk = disk' }) refl refl)
        (kept (λ h. cc) refl refl)

  -- RemovePlanContext answers with the id just where it took the context out of both maps, and an
  -- error or an exception leaves both maps as they were.
  pub remove_plan_context-IsRemoval :
      (system : String) (id : ℕ) (erase : Bool) (r : ResourceRegistry W P X)
      → IsRemoval id r (remove_plan_context resources options system id erase r)
  unfolding remove_plan_context has_draco ◌>>=◌ pure resume
  remove_plan_context-IsRemoval system id erase r =
      elim (Bool-cases (same_key system system_name)) [
        | inr e ↦ rw e (kept (λ h. cc) refl refl)
        | inl e ↦ elim (Bool-cases (has_key id r.draco_map)) [
          | inr missing ↦ rw (e, missing) (kept (λ h. cc) refl refl)
          | inl there ↦ rw (e, there) (by_erase erase)
        ]
      ]
    where
      by_erase :
          (b : Bool)
          → IsRemoval id r (
              (if b then erase_and_drop resources options id else drop_context resources options id)
                r)
      by_erase true = erase_and_drop-IsRemoval id r
      by_erase false = drop_context-IsRemoval id r r refl refl
