-- ===== src/Motion/Graph/Walks.antt =====
-- Graphs whose edges cost the distance between their ends, walks through them, and what the answer
-- of a search says.
use planning_service.Prelude.{ℕ, ◌+◌, ◌≤◌, ◌≡◌, ◌⊎◌, true, List, [], ◌∷◌, some, number_key}
use planning_service.Prelude.Maps.{lookup}
use planning_service.Prelude.Sets.{contains}
use planning_service.Motion.Graph.{
  ConvexSets, GraphOfConfigs, Cost, Result, ok, fail, no_path, wrong_dimension,
}

-- What is used of a metric.
pub record IsMetric {C : Type 0} (distance : C → C → ℕ) : Type 0 where
  pub self : (a : C) → distance a a ≡ 0
  pub triangle : (a b c : C) → distance a c ≤ distance a b + distance b c

module _ {S X C : Type 0} (sets : ConvexSets S X C) where
  open sets use {vertices, maybe_get_point, outgoing_edges, head, rows}

  abbrev pub Contains : List ℕ → ℕ → Type 0
  Contains vs v = contains v vs ≡ true

  -- The edge `e` leads from `u` to `v` and its stored cost is that of their points.
  pub record IsMeasuredEdge (g : GraphOfConfigs S C) (u e : ℕ) : Type 0 where
    pub start_config : C
    pub goal_config : C
    pub at_start : maybe_get_point g.base u ≡ some start_config
    pub at_goal : maybe_get_point g.base (head g.base e) ≡ some goal_config
    pub start_rows : rows start_config ≡ g.metric.dim
    pub goal_rows : rows goal_config ≡ g.metric.dim
    pub inside : Contains (vertices g.base) (head g.base e)
    pub cost : lookup e g.edge_cost ≡ some (g.metric.distance_func start_config goal_config)

  pub record IsMeasured (g : GraphOfConfigs S C) : Type 0 where
    pub placed :
        (v : ℕ) → Contains (vertices g.base) v → (q : C) × (maybe_get_point g.base v ≡ some q)
    pub measured :
        (u e : ℕ)
        → Contains (vertices g.base) u
        → Contains (outgoing_edges g.base u) e
        → IsMeasuredEdge g u e

  -- An edge from `u` to `v` with the cost that the graph keeps for it.
  pub record Edge (g : GraphOfConfigs S C) (u v c : ℕ) : Type 0 where
    pub edge : ℕ
    pub leaves : Contains (outgoing_edges g.base u) edge
    pub enters : head g.base edge ≡ v
    pub costs : lookup edge g.edge_cost ≡ some c

  -- A walk with its cost and the vertices on it.
  pub data Walk (g : GraphOfConfigs S C) (goal : ℕ) : ℕ → ℕ → List ℕ → Type 0 where
    stay : Walk g goal goal 0 (goal ∷ [])
    step :
        {u v c d total : ℕ} {path : List ℕ}
        → Edge g u v c
        → Walk g goal v d path
        → total ≡ c + d
        → Walk g goal u total (u ∷ path)

  -- What `CalcShortestPath` answers.
  pub data IsAnswer (g : GraphOfConfigs S C) (start goal : ℕ)
      : Result (Cost × List ℕ) → Type 0 where
    shortest :
        {d : ℕ} {path : List ℕ}
        → Walk g goal start d path
        → ((d' : ℕ) (path' : List ℕ) → Walk g goal start d' path' → d ≤ d')
        → IsAnswer g start goal (ok (some d, path))
    unreachable :
        ((d : ℕ) (path : List ℕ) → Walk g goal start d path → ⊥)
        → IsAnswer g start goal (fail no_path)
    wrong_size :
        (v : ℕ) (q : C)
        → (v ≡ start) ⊎ (v ≡ goal)
        → maybe_get_point g.base v ≡ some q
        → (rows q ≡ g.metric.dim → ⊥)
        → IsAnswer g start goal (fail wrong_dimension)

  -- Estimates of the cost to the goal that no edge refutes, and that the search calculates.
  pub record IsGuide (g : GraphOfConfigs S C) (goal : ℕ) (goal_config : C) (h : ℕ → ℕ)
      : Type 0 where
    pub edges :
        (u e : ℕ)
        → Contains (vertices g.base) u
        → Contains (outgoing_edges g.base u) e
        → (c : ℕ) × (lookup e g.edge_cost ≡ some c)
          × Contains (vertices g.base) (head g.base e)
          × (h u ≤ c + h (head g.base e))
          × ((q : C) × (maybe_get_point g.base (head g.base e) ≡ some q)
              × (rows q ≡ g.metric.dim)
              × (g.metric.distance_func q goal_config ≡ h (head g.base e)))
    pub goal_rows : rows goal_config ≡ g.metric.dim
    pub nothing_left : h goal ≡ 0
