-- ===== src/Motion/Graph/Examples.antt =====
-- Graphs of points on a line, for tests and as inputs of the theorems.
use planning_service.Prelude.{
  ℕ, ◌+◌, ◌-◌, ◌≡◌, refl, true, false, List, [], ◌∷◌, Option, some, none, arith, number_key, length,
  if◌then◌else◌, ◌==◌, ◌&&◌, ◌≤◌,
}
use planning_service.Prelude.Sets.{contains}
use planning_service.Prelude.Maps.{store, lookup, erase, has_key}
use planning_service.Motion.Graph.{
  ConvexSets, DistanceFunc, GraphOfConfigs, l1_norm, ok, fail, no_path, add_vertex, add_edge,
  make_graph, measure,
}
use planning_service.Motion.Graph.Search.{
  calc_shortest_path, search_loop, at_open, at_lowest, lowest, trace_back, visit_edges, visit_edge,
  improve, start_search, set_infinite, score, remove,
}
use planning_service.Motion.Graph.Walks.{IsMetric, IsMeasured, IsAnswer}
use planning_service.Motion.Graph.Correct.{calc_shortest_path-IsAnswer}
use planning_service.Motion.Graph.Components.{
  calc_strongly_connected_components, connect_all, strongconnect, heads, connect_neighbors,
  connect_neighbor, lower_link, enter, close, pop_component, pop_until,
}
use planning_service.Motion.Graph.Components.Partition.{
  IsPartition, calc_strongly_connected_components-IsPartition,
}
use planning_service.Motion.Graph.Build.{IsDocumented, Built, made, with_vertex, with_edge}
use planning_service.Motion.Graph.Build.Measured.{Built-IsMeasured}

-- The last vertex or edge comes first; each has the number of those behind it.
data Part : Type 0 where
  point : ℕ → Part
  edge : ℕ → ℕ → Part

abbrev Line : Type 0
Line = List Part

line_vertices : Line → List ℕ
line_vertices [] = []
line_vertices (point p ∷ ps) = length ps ∷ line_vertices ps
line_vertices (edge u v ∷ ps) = line_vertices ps

line_point : Line → ℕ → Option ℕ
line_point [] v = none
line_point (point p ∷ ps) v = let rest = line_point ps v in if length ps == v then some p else rest
line_point (edge u w ∷ ps) v = line_point ps v

-- An edge from a vertex that is not there counts for none.
line_edges : Line → ℕ → List ℕ
line_edges [] w = []
line_edges (point p ∷ ps) w = line_edges ps w
line_edges (edge u v ∷ ps) w =
    let rest = line_edges ps w in
    if (u == w) && contains u (line_vertices ps) then length ps ∷ rest else rest

line_head : Line → ℕ → ℕ
line_head [] e = 0
line_head (point p ∷ ps) e = line_head ps e
line_head (edge u v ∷ ps) e = let rest = line_head ps e in if length ps == e then v else rest

abbrev line_distance : ℕ → ℕ → ℕ
line_distance a b = (a - b) + (b - a)

abbrev line : ConvexSets Line ℕ ℕ
line = record {
  empty = [];
  vertices = line_vertices;
  maybe_get_point = line_point;
  outgoing_edges = line_edges;
  head = line_head;
  base_add_vertex = λ q name b. (length b, point q ∷ b);
  base_add_edge = λ u v name b. (length b, edge u v ∷ b);
  as_point = λ x. some x;
  rows = λ q. 1;
  ones = λ n. 1;
  l1 = λ w joints. line_distance;
  l2 = λ w joints. line_distance;
  l_inf = λ w joints. line_distance;
}

vertices_below : (b : Line) (v : ℕ) → length b ≤ v → contains v (line_vertices b) ≡ false
unfolding contains line_vertices
vertices_below [] v lt = refl
vertices_below (point p ∷ ps) v lt = ground (arith, vertices_below ps v)
vertices_below (edge a c ∷ ps) v lt = vertices_below ps v (omega arith)

edges_below : (b : Line) (e w : ℕ) → length b ≤ e → contains e (line_edges b w) ≡ false
unfolding contains line_edges
edges_below [] e w lt = refl
edges_below (point p ∷ ps) e w lt = edges_below ps e w (omega arith)
edges_below (edge a c ∷ ps) e w lt = ground (arith, edges_below ps e w)

edges_placed :
    (b : Line) (e w : ℕ)
    → contains w (line_vertices b) ≡ false
    → contains e (line_edges b w) ≡ false
unfolding contains line_edges line_vertices
edges_placed [] e w out = refl
edges_placed (point p ∷ ps) e w out = ground (arith, edges_placed ps e w)
edges_placed (edge a c ∷ ps) e w out = ground (arith, edges_placed ps e w)

line-IsDocumented : IsDocumented line
unfolding contains line_vertices line_point line_edges line_head
line-IsDocumented = record {
  starts_empty = λ v. refl;
  new_vertex = λ q name b. vertices_below b (length b) (omega arith);
  add_vertex_vertices = λ q name b w. refl;
  add_vertex_point = λ q name b w. refl;
  add_vertex_edges =
      λ q name b w e. ground (arith, edges_placed b e w, vertices_below b (length b));
  add_vertex_head = λ q name b e. refl;
  new_edge = λ u v name b w. edges_below b (length b) w (omega arith);
  add_edge_vertices = λ u v name b w. refl;
  add_edge_point = λ u v name b w. refl;
  add_edge_edges = λ u v name b w e m. ground arith;
  add_edge_head = λ u v name b e. refl;
}

line_distance-IsMetric : IsMetric line_distance
line_distance-IsMetric = record { self = λ a. omega arith; triangle = λ a b c. omega arith }

abbrev metric_of_line : DistanceFunc ℕ
metric_of_line = record { dim = 1; distance_func = line_distance }

abbrev graph_of : Line → List (ℕ × ℕ) → GraphOfConfigs Line ℕ
graph_of parts costs = record { base = parts; dim = 1; metric = metric_of_line; edge_cost = costs }

abbrev two_points : Line
two_points = point 10 ∷ point 0 ∷ []

abbrev five_points : Line
five_points = point 30 ∷ point 15 ∷ point 12 ∷ two_points

-- The short way over 12 and the long one over 15; no edge leads to 30.
abbrev two_ways : Line
two_ways = edge 3 1 ∷ edge 0 3 ∷ edge 2 1 ∷ edge 0 2 ∷ five_points

abbrev way_costs : List (ℕ × ℕ)
way_costs = (8, 5) ∷ (7, 15) ∷ (6, 2) ∷ (5, 12) ∷ []

ways : GraphOfConfigs Line ℕ
ways = graph_of two_ways way_costs

Built-points : Built line (graph_of five_points [])
unfolding make_graph add_vertex
Built-points =
    with_vertex {g = graph_of (point 15 ∷ point 12 ∷ two_points) []} {v = 4} 30 "e"
      (with_vertex {g = graph_of (point 12 ∷ two_points) []} {v = 3} 15 "d"
        (with_vertex {g = graph_of two_points []} {v = 2} 12 "c"
          (with_vertex {g = graph_of (point 0 ∷ []) []} {v = 1} 10 "b"
            (with_vertex {g = graph_of [] []} {v = 0} 0 "a" (made 1 [] none l1_norm refl) refl)
            refl)
          refl)
        refl)
      refl

Built-ways : Built line ways
unfolding ways add_edge line_point line_vertices contains store erase
Built-ways =
    with_edge
      {g = graph_of (edge 0 3 ∷ edge 2 1 ∷ edge 0 2 ∷ five_points)
        ((7, 15) ∷ (6, 2) ∷ (5, 12) ∷ [])}
      {e = 8} 3 1 ""
      (with_edge {g = graph_of (edge 2 1 ∷ edge 0 2 ∷ five_points) ((6, 2) ∷ (5, 12) ∷ [])} {e = 7}
        0 3 ""
        (with_edge {g = graph_of (edge 0 2 ∷ five_points) ((5, 12) ∷ [])} {e = 6} 2 1 ""
          (with_edge {g = graph_of five_points []} {e = 5} 0 2 "" Built-points refl refl refl) refl
          refl refl)
        refl refl refl)
      refl refl refl

shortest_way : calc_shortest_path line 0 1 none ways ≡ ok (some 14, 0 ∷ 2 ∷ 1 ∷ [])
unfolding calc_shortest_path search_loop at_open at_lowest lowest trace_back visit_edges visit_edge
    improve measure start_search set_infinite score store erase lookup contains line_vertices
    line_point line_edges line_head ways remove
shortest_way = refl

no_way : calc_shortest_path line 0 4 none ways ≡ fail no_path
unfolding calc_shortest_path search_loop at_open at_lowest lowest trace_back visit_edges visit_edge
    improve measure start_search set_infinite score store erase lookup contains line_vertices
    line_point line_edges line_head ways remove
no_way = refl

Built-IsMeasured_example : IsMeasured line ways
Built-IsMeasured_example = Built-IsMeasured line line-IsDocumented Built-ways

start_in : contains 0 (line_vertices two_ways) ≡ true
unfolding contains line_vertices
start_in = refl

goal_in : contains 1 (line_vertices two_ways) ≡ true
unfolding contains line_vertices
goal_in = refl

calc_shortest_path-IsAnswer_example : IsAnswer line ways 0 1 (calc_shortest_path line 0 1 none ways)
unfolding ways
calc_shortest_path-IsAnswer_example =
    calc_shortest_path-IsAnswer line ways 0 1 line_distance-IsMetric
      (Built-IsMeasured line line-IsDocumented Built-ways) start_in goal_in

-- With an edge back from 10 to 12 these two are one component.
abbrev with_circle : Line
with_circle = edge 1 2 ∷ two_ways

circle : GraphOfConfigs Line ℕ
circle = graph_of with_circle ((9, 2) ∷ way_costs)

Built-circle : Built line circle
unfolding circle ways add_edge line_point line_vertices contains store erase
Built-circle = with_edge {g = ways} {e = 9} 1 2 "" Built-ways refl refl refl

circle_components :
    calc_strongly_connected_components line circle
    ≡ ok ((4 ∷ []) ∷ (2 ∷ 1 ∷ []) ∷ (3 ∷ []) ∷ (0 ∷ []) ∷ [])
unfolding calc_strongly_connected_components connect_all strongconnect heads connect_neighbors
    connect_neighbor lower_link enter close pop_component pop_until circle line_vertices line_edges
    line_head contains store erase lookup has_key
circle_components = refl

calc_strongly_connected_components-IsPartition_example :
    (sccs : List (List ℕ)) × (calc_strongly_connected_components line circle ≡ ok sccs)
    × IsPartition line circle sccs
calc_strongly_connected_components-IsPartition_example =
    calc_strongly_connected_components-IsPartition line circle (λ u e inside leaves.
      let edge =
        (Built-IsMeasured line line-IsDocumented Built-circle).measured u e inside leaves in
      edge.inside)
