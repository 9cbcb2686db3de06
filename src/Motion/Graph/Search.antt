-- ===== src/Motion/Graph/Search.antt =====
-- planning_service/motion/planning/internal/graph.cc: `CalcShortestPath`, the A* search.
use planning_service.Prelude.{
  ℕ, zero, suc, ◌==◌, List, [], ◌∷◌, ◌++◌, length, Option, none, some, if◌then◌else◌, number_key,
}
use planning_service.Prelude.Maps.{lookup, store}
use planning_service.Prelude.Sets.{contains}
use planning_service.Motion.Graph.{
  ConvexSets, GraphOfConfigs, Result, ok, fail, out_of_range, no_path, null_vertex, out_of_fuel,
  ◌>>=◌, required, Cost, less, plus, measure, config_of, get_edge_cost,
}

-- The variables of the search.
pub record Search : Type 0 where
  pub open_set : List ℕ
  pub came_from : List (ℕ × ℕ)
  pub g_score : List (ℕ × Cost)
  pub f_score : List (ℕ × Cost)

-- `score[v]`: a missing key reads as 0.
unfoldable pub score : List (ℕ × Cost) → ℕ → Cost
score m v = elim (lookup v m) [ some c ↦ c | none ↦ some 0 ]

-- The loop over the open set that looks for the lowest score, strictly.
unfoldable pub lowest : List (ℕ × Cost) → List ℕ → Cost → Option ℕ → Option ℕ
lowest f [] min_f_score current = current
lowest f (v ∷ vs) min_f_score current =
    let better = less (score f v) min_f_score in
    lowest f vs (if better then score f v else min_f_score) (if better then some v else current)

-- `std::remove` of one vertex.
unfoldable pub remove : ℕ → List ℕ → List ℕ
remove v [] = []
remove v (w ∷ ws) = let rest = remove v ws in if w == v then rest else w ∷ rest

unfoldable pub set_infinite : List ℕ → List (ℕ × Cost) → List (ℕ × Cost)
set_infinite [] m = m
set_infinite (v ∷ vs) m = set_infinite vs (store v none m)

-- The loop that follows `came_from` back from `v`; `path` is the reverse of the source's.
unfoldable pub trace_back : ℕ → ℕ → List (ℕ × ℕ) → ℕ → List ℕ → Result (List ℕ)
trace_back zero start came_from v path = fail out_of_fuel
trace_back (suc fuel) start came_from v path =
    let rest = (do
      p ← required (lookup v came_from) out_of_range
      trace_back fuel start came_from p (v ∷ path)) in
    if v == start then ok (start ∷ path) else rest

module _ {S X C : Type 0} (sets : ConvexSets S X C) where
  open sets use {
    empty, vertices, maybe_get_point, outgoing_edges, head, base_add_vertex, base_add_edge,
    as_point, rows, ones, l1, l2, l_inf,
  }

  -- A neighbor that is reached at a lower cost.
  unfoldable pub improve : GraphOfConfigs S C → C → ℕ → ℕ → Cost → Search → Result Search
  unfolding config_of
  improve g goal_config current neighbor tentative s = do
    neighbor_config ← config_of sets g neighbor
    estimate ← measure sets g.metric neighbor_config goal_config
    ok record {
      open_set = if contains neighbor s.open_set then s.open_set else s.open_set ++ neighbor ∷ [];
      came_from = store neighbor current s.came_from;
      g_score = store neighbor tentative s.g_score;
      f_score = store neighbor (plus tentative estimate) s.f_score;
    }

  -- One round of the loop over the outgoing edges.
  unfoldable pub visit_edge : GraphOfConfigs S C → C → ℕ → ℕ → Search → Result Search
  unfolding get_edge_cost
  visit_edge g goal_config current e s = do
    let neighbor = head g.base e
    cost ← get_edge_cost sets g e
    let tentative = plus (score s.g_score current) cost
    let improved = improve g goal_config current neighbor tentative s
    if less tentative (score s.g_score neighbor) then improved else ok s

  unfoldable pub visit_edges : GraphOfConfigs S C → C → ℕ → List ℕ → Search → Result Search
  visit_edges g goal_config current [] s = ok s
  visit_edges g goal_config current (e ∷ es) s =
      visit_edge g goal_config current e s >>= visit_edges g goal_config current es

  -- `add_edges_func`, where there is one.
  unfoldable pub expand :
      Option (GraphOfConfigs S C → ℕ → GraphOfConfigs S C)
      → GraphOfConfigs S C
      → ℕ
      → GraphOfConfigs S C
  expand none g v = g
  expand (some add_edges) g v = add_edges g v

  -- A round at the vertex that `lowest` found, where `next` is the rest of the loop. The goal is
  -- no null pointer, so a null `current` passes the test and is dereferenced.
  unfoldable pub at_lowest :
      (GraphOfConfigs S C → Search → Result (Cost × List ℕ))
      → Option (GraphOfConfigs S C → ℕ → GraphOfConfigs S C)
      → (fuel start goal : ℕ) → C
      → GraphOfConfigs S C
      → Search
      → Option ℕ
      → Result (Cost × List ℕ)
  unfolding expand
  at_lowest next add_edges fuel start goal goal_config g s none = fail null_vertex
  at_lowest next add_edges fuel start goal goal_config g s (some current) =
      let finish : Result (Cost × List ℕ) = (do
        path ← trace_back fuel start s.came_from goal []
        ok (score s.g_score goal, path)) in
      let g' = expand add_edges g current in
      let searched =
        (visit_edges g' goal_config current (outgoing_edges g'.base current)
            (record s { open_set = remove current s.open_set })
          >>= next g') in
      if current == goal then finish else searched

  -- `while (!open_set.empty())`, and the exception behind it.
  unfoldable pub at_open : List ℕ → Result (Cost × List ℕ) → Result (Cost × List ℕ)
  at_open [] round = fail no_path
  at_open (v ∷ vs) round = round

  -- The `while` loop. Each round expands another vertex, so `fuel` for their number suffices;
  -- it bounds the path too.
  unfoldable pub search_loop :
      ℕ
      → Option (GraphOfConfigs S C → ℕ → GraphOfConfigs S C)
      → (fuel start goal : ℕ) → C
      → GraphOfConfigs S C
      → Search
      → Result (Cost × List ℕ)
  search_loop zero add_edges fuel start goal goal_config g s = fail out_of_fuel
  search_loop (suc rounds) add_edges fuel start goal goal_config g s = at_open s.open_set (
      at_lowest (search_loop rounds add_edges fuel start goal goal_config) add_edges fuel start goal
        goal_config g s (lowest s.f_score s.open_set none none))

  -- The variables as the loop starts.
  unfoldable pub start_search : GraphOfConfigs S C → ℕ → ℕ → Search
  start_search g start estimate =
      let infinite = set_infinite (vertices g.base) [] in
      record {
        open_set = start ∷ [];
        came_from = [];
        g_score = store start (some 0) infinite;
        f_score = store start (some estimate) infinite;
      }

  unfoldable pub calc_shortest_path :
      ℕ
      → ℕ
      → Option (GraphOfConfigs S C → ℕ → GraphOfConfigs S C)
      → GraphOfConfigs S C
      → Result (Cost × List ℕ)
  unfolding config_of start_search
  calc_shortest_path start goal add_edges g = do
    start_config ← config_of sets g start
    goal_config ← config_of sets g goal
    estimate ← measure sets g.metric start_config goal_config
    let fuel = suc (length (vertices g.base))
    search_loop fuel add_edges fuel start goal goal_config g (start_search g start estimate)
