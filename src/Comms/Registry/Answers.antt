-- ===== src/Comms/Registry/Answers.antt =====
-- What the handlers of registry_service.cc answer.
use planning_service.Prelude.{
  ℕ, true, ◌≡◌, refl, ap, List, [], ◌∷◌, map, number_key, same_key_iff, arith, ◌||◌, ◌&&◌,
  Bool-cases, ◌∙◌, inl, inr,
}
use planning_service.Prelude.Maps
use planning_service.Prelude.Maps.{has_key, lookup, lookup-some, has_key-erase}
use planning_service.Prelude.Sets.{contains}
use planning_service.Service.Error.{returns}
use planning_service.Service.Action.{pure, ◌>>=◌, resume, bind_returns}
use planning_service.Service.Registry.{
  Resources, Options, ResourceRegistry, PlanContext, has_draco, get_draco,
}
use planning_service.Service.Registry.Sync.{InSync}
use planning_service.Comms.Registry.{
  Messages, add_summaries, get_plan_context_summaries, add_statuses, get_planning_artifact_status,
}

get_draco-returns {ℓ} :
    {W P X : Type ℓ} (id : ℕ) (r : ResourceRegistry W P X)
    → has_key id r.draco_map ≡ true
    → (planner : P) × (get_draco id r ≡ (returns planner, r))
unfolding get_draco
get_draco-returns id r h = let (planner, e) = lookup-some id r.draco_map h in (planner, rw e refl)

module _ {ℓ} {W P X M S N : Type ℓ} (messages : Messages W P X M S N) (resources : Resources W P X)
    (options : Options) where
  add_summaries-total :
      (contexts : List (ℕ × PlanContext X)) (r : ResourceRegistry W P X)
      → ((id : ℕ) → has_key id contexts ≡ true → has_key id r.draco_map ≡ true)
      → (ss : List (ℕ × S)) × (add_summaries messages resources options contexts r
          ≡ (returns ss, r))
        × (map (λ s. s.0) ss ≡ map (λ c. c.0) contexts)
  unfolding add_summaries pure has_key
  add_summaries-total [] r h = ([], refl, refl)
  add_summaries-total ((hash, context) ∷ contexts) r h =
      let (draco, found) =
        get_draco-returns hash r (h hash (ground (arith, same_key_iff hash hash))) in
      let (ss, e, same) = add_summaries-total contexts r (λ id k. h id (ground (arith, k))) in
      (_, bind_returns _ _ found ∙ bind_returns _ _ e, ap (λ l. hash ∷ l) same)

  -- Where the maps of the registry are in step, GetPlanContextSummaries does not throw, changes
  -- nothing, and its response has a summary of each active context, under its id and in order.
  pub get_plan_context_summaries_total :
      (r : ResourceRegistry W P X)
      → InSync r
      → (ss : List (ℕ × S)) × (get_plan_context_summaries messages resources options r
          ≡ (returns ss, r))
        × (map (λ s. s.0) ss ≡ map (λ c. c.0) r.active_contexts_map)
  unfolding get_plan_context_summaries
  get_plan_context_summaries_total r sync =
      add_summaries-total r.active_contexts_map r (λ id h. sync id ∙ h)

  add_statuses-total :
      (ids : List ℕ) (statuses : List (ℕ × N)) (r : ResourceRegistry W P X)
      → (m : List (ℕ × N)) × (add_statuses messages resources options ids statuses r
          ≡ (returns m, r))
        × ((id : ℕ)
            → has_key id m ≡ ((contains id ids && has_key id r.draco_map) || has_key id statuses))
  unfolding add_statuses pure has_draco ◌>>=◌ resume contains has_key
  add_statuses-total [] statuses r = (statuses, refl, λ id. refl)
  add_statuses-total (id ∷ ids) statuses r = elim (Bool-cases (has_key id r.draco_map)) [
    | inr e ↦
        let (m, eq, keys) = add_statuses-total ids statuses r in
        (m, rw e eq, λ j. ground (arith, keys j, e, same_key_iff id j))
    | inl e ↦
        let (draco, found) = get_draco-returns id r e in
        let (m, eq, keys) =
          add_statuses-total ids ((id, messages.artifacts_sizes draco) ∷ Maps.erase id statuses)
            r in
        (
          m,
          rw (e, found) eq,
          λ j. ground (arith, keys j, e, same_key_iff id j, has_key-erase id j statuses),
        )
  ]

  -- GetPlanningArtifactStatus does not throw and changes nothing, and its response has an entry for
  -- exactly the ids of the request that have a planner.
  pub get_planning_artifact_status_total :
      (ids : List ℕ) (r : ResourceRegistry W P X)
      → (m : List (ℕ × N)) × (get_planning_artifact_status messages resources options ids r
          ≡ (returns m, r))
        × ((id : ℕ) → has_key id m ≡ (contains id ids && has_key id r.draco_map))
  unfolding get_planning_artifact_status has_key
  get_planning_artifact_status_total ids r =
      let (m, e, keys) = add_statuses-total ids [] r in (m, e, λ id. ground (arith, keys id))
