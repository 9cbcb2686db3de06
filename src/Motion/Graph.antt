-- ===== src/Motion/Graph.antt =====
-- planning_service/motion/planning/internal/graph.h and graph.cc: the graph of configurations and
-- its edge costs; Search has the A* search. Drake's graph of convex sets, which the class derives from, and the
-- norms are the interface `ConvexSets`; vertices and edges are told apart by number, as the source
-- does by address. Costs are natural numbers of some unit, or infinite.

pub mod Search
pub mod Walks
pub mod Lowest
pub mod Relax
pub mod Edges
pub mod Trace
pub mod Shortest
pub mod Correct
pub mod Build
pub mod Components
pub mod Examples
use planning_service.Prelude.{
  ℕ, zero, suc, ◌+◌, Bool, true, false, ◌==◌, ltb, List, [], ◌∷◌, ◌++◌, length, Option, none, some,
  if◌then◌else◌, number_key, String,
}
use planning_service.Prelude.Maps.{lookup, store}
use planning_service.Prelude.Sets.{contains}

pub data Failure : Type 0 where
  out_of_range unmet_demand wrong_dimension not_a_point unknown_metric no_path : Failure
  null_vertex empty_stack out_of_fuel : Failure

pub data Result {ℓ} (A : Type ℓ) : Type ℓ where
  ok : A → Result A
  fail : Failure → Result A

infixl 5 ◌>>=◌
infixl 5 ◌>>◌
abbrev pub ◌>>=◌ {ℓ κ} : {A : Type ℓ} {B : Type κ} → Result A → (A → Result B) → Result B
ok a >>= f = f a
fail e >>= f = fail e

abbrev pub ◌>>◌ {ℓ} : {B : Type ℓ} → Result (Unit {0}) → Result B → Result B
m >> k = m >>= λ _. k

abbrev pub guard : Bool → Failure → Result (Unit {0})
guard true e = ok tt
guard false e = fail e

abbrev pub required {ℓ} : {A : Type ℓ} → Option A → Failure → Result A
required (some a) e = ok a
required none e = fail e

-- A cost; `none` is infinity.
abbrev pub Cost : Type 0
Cost = Option ℕ

abbrev pub less : Cost → Cost → Bool
less (some a) (some b) = ltb a b
less (some a) none = true
less none b = false

abbrev pub plus : Cost → ℕ → Cost
plus (some a) b = some (a + b)
plus none b = none

pub data MetricType : Type 0 where
  l1_norm l2_norm l_inf_norm other : MetricType

-- Drake's graph of convex sets in a state `S` over sets `X` and configurations `C`, with what the
-- program calls of Eigen.
pub record ConvexSets (S X C : Type 0) : Type 0 where
  pub empty : S
  pub vertices : S → List ℕ
  -- the point of a vertex's set
  pub maybe_get_point : S → ℕ → Option C
  pub outgoing_edges : S → ℕ → List ℕ
  -- the vertex that an edge leads to
  pub head : S → ℕ → ℕ
  pub base_add_vertex : C → String → S → ℕ × S
  pub base_add_edge : ℕ → ℕ → String → S → ℕ × S
  -- the cast of a set to a point
  pub as_point : X → Option C
  pub rows : C → ℕ
  pub ones : ℕ → C
  -- the norms, weighted and with joints wrapped
  pub l1 : C → List ℕ → C → C → ℕ
  pub l2 : C → List ℕ → C → C → ℕ
  pub l_inf : C → List ℕ → C → C → ℕ

pub record DistanceFunc (C : Type 0) : Type 0 where
  pub dim : ℕ
  pub distance_func : C → C → ℕ

pub record GraphOfConfigs (S C : Type 0) : Type 0 where
  pub base : S
  pub dim : ℕ
  pub metric : DistanceFunc C
  pub edge_cost : List (ℕ × ℕ)

module _ {S X C : Type 0} (sets : ConvexSets S X C) where
  open sets use {
    empty, vertices, maybe_get_point, outgoing_edges, head, base_add_vertex, base_add_edge,
    as_point, rows, ones, l1, l2, l_inf,
  }

  -- `DistanceFunc::operator()`
  unfoldable pub measure : DistanceFunc C → C → C → Result ℕ
  measure d a b = do
    guard (rows a == d.dim) wrong_dimension
    guard (rows b == d.dim) wrong_dimension
    ok (d.distance_func a b)

  -- The three functions that make a metric from weights and wrapped joints.
  unfoldable pub metric_of : MetricType → C → List ℕ → Result (DistanceFunc C)
  metric_of l1_norm w joints = ok (record { dim = rows w; distance_func = l1 w joints })
  metric_of l2_norm w joints = ok (record { dim = rows w; distance_func = l2 w joints })
  metric_of l_inf_norm w joints = ok (record { dim = rows w; distance_func = l_inf w joints })
  metric_of other w joints = fail unknown_metric

  unfoldable pub weights_or_ones : ℕ → Option C → C
  weights_or_ones dim (some w) = w
  weights_or_ones dim none = ones dim

  unfoldable pub make_distance_function :
      ℕ → List ℕ → Option C → MetricType → Result (DistanceFunc C)
  unfolding metric_of weights_or_ones
  make_distance_function dim joints weights metric_type = do
    let w = weights_or_ones dim weights
    guard (ltb 0 dim) wrong_dimension
    guard (rows w == dim) wrong_dimension
    metric_of metric_type w joints

  unfoldable pub make_graph : ℕ → List ℕ → Option C → MetricType → Result (GraphOfConfigs S C)
  unfolding make_distance_function
  make_graph dim joints weights metric_type = do
    d ← make_distance_function dim joints weights metric_type
    guard (ltb 0 dim) unmet_demand
    guard (d.dim == dim) unmet_demand
    ok (record { base = empty; dim = dim; metric = d; edge_cost = [] })

  -- `AddVertex`
  unfoldable pub add_vertex : X → String → GraphOfConfigs S C → Result (ℕ × GraphOfConfigs S C)
  add_vertex set name g = do
    point ← required (as_point set) not_a_point
    let (v, base) = base_add_vertex point name g.base
    ok (v, record g { base = base })

  -- `MaybeGetPoint` with the demand that there is one.
  unfoldable pub config_of : GraphOfConfigs S C → ℕ → Result C
  config_of g v = required (maybe_get_point g.base v) unmet_demand

  -- `AddEdge`
  unfoldable pub add_edge : ℕ → ℕ → String → GraphOfConfigs S C → Result (ℕ × GraphOfConfigs S C)
  unfolding config_of measure
  add_edge start goal name g = do
    start_config ← config_of g start
    goal_config ← config_of g goal
    cost ← measure g.metric start_config goal_config
    let (e, base) = base_add_edge start goal name g.base
    ok (e, record g { base = base; edge_cost = store e cost g.edge_cost })

  unfoldable pub get_edge_cost : GraphOfConfigs S C → ℕ → Result ℕ
  get_edge_cost g e = required (lookup e g.edge_cost) out_of_range
