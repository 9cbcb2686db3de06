-- ===== src/Motion/Graph/Build.antt =====
-- Graphs that the constructor, `AddVertex` and `AddEdge` make: each edge costs the distance between
-- its ends, so a search answers rightly. Removals, which the class passes on from Drake, are left out.
pub mod Measured
use planning_service.Prelude.{
  ℕ, ◌≡◌, refl, subst, Bool, true, false, ◌||◌, ◌&&◌, List, [], ◌∷◌, Option, some, none, arith,
  String, number_key, ◌==◌, inl, inr, if◌then◌else◌,
}
use planning_service.Prelude.Tests.{Bool-cases, Option-cases}
use planning_service.Prelude.Maps.{lookup, store, lookup-store}
use planning_service.Prelude.Sets.{contains}
use planning_service.Motion.Graph.{
  ConvexSets, GraphOfConfigs, MetricType, Result, ok, fail, make_graph, add_vertex, add_edge,
  measure, ◌>>=◌,
}
use planning_service.Motion.Graph.Search.{calc_shortest_path}
use planning_service.Motion.Graph.Walks.{Contains, IsMetric, IsMeasured, IsMeasuredEdge, IsAnswer}
use planning_service.Motion.Graph.Correct.{calc_shortest_path-IsAnswer}

-- What Drake documents of its graph: a new vertex or edge is told apart from the others, and the
-- rest stays.
pub record IsDocumented {S X C : Type 0} (sets : ConvexSets S X C) : Type 0 where
  pub starts_empty : (v : ℕ) → contains v (sets.vertices sets.empty) ≡ false
  pub new_vertex :
      (q : C) (name : String) (b : S)
      → contains (sets.base_add_vertex q name b).0 (sets.vertices b) ≡ false
  pub add_vertex_vertices :
      (q : C) (name : String) (b : S) (w : ℕ)
      → contains w (sets.vertices (sets.base_add_vertex q name b).1)
        ≡ ((sets.base_add_vertex q name b).0 == w || contains w (sets.vertices b))
  pub add_vertex_point :
      (q : C) (name : String) (b : S) (w : ℕ)
      → sets.maybe_get_point (sets.base_add_vertex q name b).1 w
        ≡ (if (sets.base_add_vertex q name b).0 == w then some q else sets.maybe_get_point b w)
  pub add_vertex_edges :
      (q : C) (name : String) (b : S) (w e : ℕ)
      → contains e (sets.outgoing_edges (sets.base_add_vertex q name b).1 w) ≡ (
          if (sets.base_add_vertex q name b).0 == w
          then false
          else contains e (sets.outgoing_edges b w))
  pub add_vertex_head :
      (q : C) (name : String) (b : S) (e : ℕ)
      → sets.head (sets.base_add_vertex q name b).1 e ≡ sets.head b e
  pub new_edge :
      (u v : ℕ) (name : String) (b : S) (w : ℕ)
      → contains (sets.base_add_edge u v name b).0 (sets.outgoing_edges b w) ≡ false
  pub add_edge_vertices :
      (u v : ℕ) (name : String) (b : S) (w : ℕ)
      → contains w (sets.vertices (sets.base_add_edge u v name b).1) ≡ contains w (sets.vertices b)
  pub add_edge_point :
      (u v : ℕ) (name : String) (b : S) (w : ℕ)
      → sets.maybe_get_point (sets.base_add_edge u v name b).1 w ≡ sets.maybe_get_point b w
  pub add_edge_edges :
      (u v : ℕ) (name : String) (b : S) (w e : ℕ)
      → contains u (sets.vertices b) ≡ true
      → contains e (sets.outgoing_edges (sets.base_add_edge u v name b).1 w) ≡ (
          ((sets.base_add_edge u v name b).0 == e && u == w)
          || contains e (sets.outgoing_edges b w))
  pub add_edge_head :
      (u v : ℕ) (name : String) (b : S) (e : ℕ)
      → sets.head (sets.base_add_edge u v name b).1 e
        ≡ (if (sets.base_add_edge u v name b).0 == e then v else sets.head b e)

module _ {S X C : Type 0} (sets : ConvexSets S X C) where
  open sets use {
    empty, as_point, vertices, maybe_get_point, outgoing_edges, head, rows, base_add_vertex,
    base_add_edge,
  }

  -- The graphs that the calls make.
  pub data Built : GraphOfConfigs S C → Type 0 where
    made :
        {g : GraphOfConfigs S C} (dim : ℕ) (joints : List ℕ) (weights : Option C)
        (metric_type : MetricType)
        → make_graph sets dim joints weights metric_type ≡ ok g
        → Built g
    with_vertex :
        {g g' : GraphOfConfigs S C} {v : ℕ} (set : X) (name : String)
        → Built g
        → add_vertex sets set name g ≡ ok (v, g')
        → Built g'
    with_edge :
        {g g' : GraphOfConfigs S C} {e : ℕ} (u v : ℕ) (name : String)
        → Built g
        → Contains sets (vertices g.base) u
        → Contains sets (vertices g.base) v
        → add_edge sets u v name g ≡ ok (e, g')
        → Built g'
