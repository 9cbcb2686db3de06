-- ===== src/Motion/Graph/Trace.antt =====
-- The way back along `came_from` is a walk of the found cost, and what an expanded part of the graph
-- says of all walks.
use planning_service.Prelude.{
  ℕ, zero, suc, ◌+◌, ◌≤◌, ◌<◌, ◌≡◌, refl, subst, true, false, List, [], ◌∷◌, some, arith,
  number_key, ◌⊎◌, inl, inr, ◌==◌, length,
}
use planning_service.Prelude.Tests.{Bool-cases, ==_iff}
use planning_service.Prelude.Sets.{contains, erase, contains-erase}
use planning_service.Motion.Graph.{ConvexSets, GraphOfConfigs, ok}
use planning_service.Motion.Graph.Search.{score, Search, trace_back}
use planning_service.Motion.Graph.Walks.{Contains, IsGuide, Edge, Walk, stay, step}
use planning_service.Motion.Graph.Relax.{found, IsKnown, Inv, Parent, root, link, Tree, Once}
use planning_service.Motion.Graph.Edges.{Settled}

length-erase_lt :
    (v : ℕ) (vs : List ℕ)
    → (length (erase v vs) ≤ length vs) × (contains v vs ≡ true → length (erase v vs) < length vs)
unfolding contains erase
length-erase_lt v [] = ground arith
length-erase_lt v (w ∷ vs) = ground (arith, length-erase_lt v vs)

-- A list without repetitions is no longer than one that has all its members.
pub length-Once :
    (vs ws : List ℕ)
    → Once vs
    → ((v : ℕ) → contains v vs ≡ true → contains v ws ≡ true)
    → length vs ≤ length ws
unfolding contains
length-Once [] ws once among = omega arith
length-Once (v ∷ vs) ws once among =
    let here : contains v ws ≡ true = among v (ground arith) in
    let rest =
      length-Once vs (erase v ws) once.1
        (λ w m. ground (arith, once.0, among w, contains-erase v w ws)) in
    ground (arith, length-erase_lt v ws)

module _ {S X C : Type 0} (sets : ConvexSets S X C) (g : GraphOfConfigs S C) (start goal : ℕ)
    (h : ℕ → ℕ) (goal_config : C) (guide : IsGuide sets g goal goal_config h) where
  open sets use {vertices, outgoing_edges, head}

  -- A walk from `v` to the goal is continued back to the start.
  abbrev Traced : Search → ℕ → ℕ → Type 0
  Traced s v fuel =
      (d : ℕ) (rest : List ℕ)
      → Walk sets g goal v d (v ∷ rest)
      → (path : List ℕ) × (trace_back fuel start s.came_from v rest ≡ ok path)
        × Walk sets g goal start (found s v + d) path

  trace_root :
      (s : Search) (fuel v : ℕ) → score s.g_score start ≡ some 0 → v ≡ start → Traced s v (suc fuel)
  unfolding trace_back
  trace_root s fuel v zero_cost e d rest walk = (
    start ∷ rest,
    ground arith,
    subst (λ n. Walk sets g goal start n (start ∷ rest)) (ground arith)
        (subst (λ u. Walk sets g goal u d (u ∷ rest)) e walk),
  )

  trace-Parent :
      (s : Search) (closed : List ℕ) (fuel v : ℕ)
      → score s.g_score start ≡ some 0
      → ((p : ℕ) → Contains sets closed p → Traced s p fuel)
      → Parent sets g start h s closed v
      → Traced s v (suc fuel)
  unfolding trace_back
  trace-Parent s closed fuel v zero_cost ih (root e) = trace_root s fuel v zero_cost e
  trace-Parent s closed fuel v zero_cost ih (link p c from m e cost) =
      elim (Bool-cases (v == start)) [
        | inl same ↦ trace_root s fuel v zero_cost ((==_iff v start).0 same)
        | inr other ↦ λ d rest walk.
            let (path, traced, whole) = ih p m (c + d) (v ∷ rest) (step e walk refl) in
            (
              path,
              rw (other, from) traced,
              subst (λ n. Walk sets g goal start n path) (omega (arith, cost)) whole,
            )
      ]

  trace_in :
      (s : Search) (closed : List ℕ) (fuel v : ℕ)
      → score s.g_score start ≡ some 0
      → Tree sets g start h s closed
      → length closed ≤ fuel
      → Contains sets closed v
      → Traced s v fuel
  unfolding contains
  trace_in s [] fuel v zero_cost tree le m = cc
  trace_in s (x ∷ closed) zero v zero_cost tree le m = absurd (omega arith)
  trace_in s (x ∷ closed) (suc fuel) v zero_cost tree le m = elim (Bool-cases (x == v)) [
    | inl same ↦
        trace-Parent s closed fuel v zero_cost
          (λ p m'. trace_in s closed fuel p zero_cost tree.1 (omega arith) m')
          (subst (λ u. Parent sets g start h s closed u) ((==_iff x v).0 same) tree.0)
    | inr other ↦ trace_in s closed (suc fuel) v zero_cost tree.1 (omega arith) (ground arith)
  ]

  -- The path that the source reconstructs.
  pub trace_goal :
      (F : ℕ) (closed : List ℕ) (s : Search) (fuel : ℕ)
      → Inv sets g start h F closed s
      → length closed ≤ fuel
      → Contains sets s.open_set goal
      → (path : List ℕ) × (trace_back (suc fuel) start s.came_from goal [] ≡ ok path)
        × Walk sets g goal start (found s goal) path
  trace_goal F closed s fuel inv le is_open =
      let (path, traced, walk) =
        trace-Parent s closed fuel goal inv.at_start
          (λ p m. trace_in s closed fuel p inv.at_start inv.tree le m) (inv.parents goal is_open) 0
          [] stay in
      (path, traced, subst (λ n. Walk sets g goal start n path) (omega arith) walk)

  -- An estimate is below the cost of every walk.
  guide-le-walk :
      {v d : ℕ} {path : List ℕ}
      → Contains sets (vertices g.base) v
      → Walk sets g goal v d path
      → h v ≤ d
  guide-le-walk inside stay = let none_left = guide.nothing_left in omega arith
  guide-le-walk {v} inside (step edge walk total) =
      let (c, costs, inside', consistent, _) = guide.edges v edge.edge inside edge.leaves in
      let same_edge = edge.costs in
      let same_end = edge.enters in
      let rest = guide-le-walk (subst (Contains sets (vertices g.base)) edge.enters inside') walk in
      ground arith

  module _ (F : ℕ) (closed : List ℕ) (s : Search) (inv : Inv sets g start h F closed s)
      (all_settled : (u e : ℕ)
        → Contains sets closed u
        → Contains sets (outgoing_edges g.base u) e
        → Settled sets g start goal h goal_config guide s u e) where
    pub placed :
        (v : ℕ)
        → Contains sets (vertices g.base) v
        → (d : ℕ) → score s.g_score v ≡ some d
        → Contains sets s.open_set v ⊎ Contains sets closed v
    placed v inside d is = elim (Bool-cases (contains v s.open_set)) [
      | inl o ↦ inl o
      | inr no_o ↦ elim (Bool-cases (contains v closed)) [
        | inl m ↦ inr m
        | inr no_m ↦ absurd (ground (arith, inv.unknown v inside no_o no_m))
      ]
    ]

    -- An edge from a settled vertex.
    through :
        (v w c : ℕ)
        → Contains sets closed v
        → Edge sets g v w c
        → IsKnown sets g start h s w × (found s w ≤ found s v + c)
    through v w c m edge =
        let old = all_settled v edge.edge m edge.leaves in
        let costs = edge.costs in
        let costs' = old.costs in
        let le = old.settled in
        (
          subst (IsKnown sets g start h s) edge.enters old.reached,
          subst (λ x. found s x ≤ found s v + c) edge.enters (ground arith),
        )

    -- With an open goal of the lowest score no walk costs less.
    pub found-le-walk :
        Contains sets s.open_set goal
        → ((v : ℕ) → Contains sets s.open_set v → found s goal + h goal ≤ found s v + h v)
        → {v d : ℕ} {path : List ℕ} → IsKnown sets g start h s v
        → Walk sets g goal v d path
        → found s goal ≤ found s v + d
    found-le-walk is_open low known stay = omega arith
    found-le-walk is_open low {v} known (step {v = w} {c} edge walk total) =
        elim (placed v known.inside (found s v) known.g_is) [
          | inl o ↦
              let whole = guide-le-walk known.inside (step edge walk total) in
              let none_left = guide.nothing_left in omega (arith, low v o)
          | inr m ↦
              let (next, le) = through v w c m edge in
              omega (arith, found-le-walk is_open low next walk)
        ]

    known_closed :
        (v : ℕ)
        → contains v s.open_set ≡ false
        → IsKnown sets g start h s v
        → Contains sets closed v
    known_closed v not_open known = elim (placed v known.inside (found s v) known.g_is) [
      | inl o ↦ absurd (ground arith)
      | inr m ↦ m
    ]

    -- With no open vertex a walk leads to expanded vertices only.
    pub walk-closed :
        ((v : ℕ) → contains v s.open_set ≡ false)
        → {v d : ℕ} {path : List ℕ} → IsKnown sets g start h s v
        → Walk sets g goal v d path
        → Contains sets closed goal
    walk-closed none_open known stay = known_closed goal (none_open goal) known
    walk-closed none_open {v} known (step {v = w} {c} edge walk total) =
        let m = known_closed v (none_open v) known in
        walk-closed none_open (through v w c m edge).0 walk
