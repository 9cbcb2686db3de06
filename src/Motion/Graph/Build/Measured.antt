-- ===== src/Motion/Graph/Build/Measured.antt =====
-- The calls that make a graph keep each edge at the distance between its ends.
use planning_service.Prelude.{
  ℕ, ◌≡◌, subst, List, Option, some, arith, String, number_key, ◌==◌, inl, inr,
}
use planning_service.Prelude.Tests.{Bool-cases, Option-cases}
use planning_service.Prelude.Maps.{store, lookup-store}
use planning_service.Prelude.Sets.{contains}
use planning_service.Motion.Graph.{
  ConvexSets, GraphOfConfigs, MetricType, ok, make_graph, add_vertex, add_edge,
}
use planning_service.Motion.Graph.Walks.{Contains, IsMeasured, IsMeasuredEdge}
use planning_service.Motion.Graph.Build.{IsDocumented, Built, made, with_vertex, with_edge}

module _ {S X C : Type 0} (sets : ConvexSets S X C) where
  open sets use {
    empty, as_point, vertices, maybe_get_point, outgoing_edges, head, rows, base_add_vertex,
    base_add_edge,
  }

  module _ (doc : IsDocumented sets) (g : GraphOfConfigs S C) (m : IsMeasured sets g) where
    -- The graph with another vertex, and that with another edge.
    abbrev grown : C → String → GraphOfConfigs S C
    grown q name = record g { base = (base_add_vertex q name g.base).1 }

    grown_edge :
        (q : C) (name : String) (u e : ℕ)
        → Contains sets (vertices (grown q name).base) u
        → Contains sets (outgoing_edges (grown q name).base u) e
        → IsMeasuredEdge sets (grown q name) u e
    grown_edge q name u e inside leaves =
        let edge =
          m.measured u e
            (ground (
              arith,
              doc.add_vertex_vertices q name g.base u,
              doc.add_vertex_edges q name g.base u e,
            ))
            (ground (arith, doc.add_vertex_edges q name g.base u e)) in
        let at_start = edge.at_start in
        let at_goal = edge.at_goal in
        let inside' = edge.inside in
        record {
          start_config = edge.start_config;
          goal_config = edge.goal_config;
          at_start =
              ground (
                arith,
                doc.add_vertex_point q name g.base u,
                doc.add_vertex_edges q name g.base u e,
              );
          at_goal = ground (
            arith,
            doc.add_vertex_head q name g.base e,
            doc.new_vertex q name g.base,
            doc.add_vertex_point q name g.base (head g.base e),
          );
          start_rows = edge.start_rows;
          goal_rows = edge.goal_rows;
          inside = ground (
            arith,
            doc.add_vertex_head q name g.base e,
            doc.add_vertex_vertices q name g.base (head g.base e),
          );
          cost = edge.cost;
        }

    grown-IsMeasured : (q : C) (name : String) → IsMeasured sets (grown q name)
    grown-IsMeasured q name = record {
      placed = λ v inside. elim (Bool-cases ((base_add_vertex q name g.base).0 == v)) [
        | inl e ↦ (q, ground (arith, doc.add_vertex_point q name g.base v))
        | inr ne ↦
            let (p, point) = m.placed v (ground (arith, doc.add_vertex_vertices q name g.base v)) in
            (p, ground (arith, doc.add_vertex_point q name g.base v))
      ];
      measured = grown_edge q name;
    }

    abbrev joined : ℕ → ℕ → String → C → C → GraphOfConfigs S C
    joined u v name p q = record g {
      base = (base_add_edge u v name g.base).1;
      edge_cost = store (base_add_edge u v name g.base).0 (g.metric.distance_func p q) g.edge_cost;
    }

    module _ (u v : ℕ) (name : String) (p q : C) (u_in : Contains sets (vertices g.base) u)
        (v_in : Contains sets (vertices g.base) v) (at_u : maybe_get_point g.base u ≡ some p)
        (at_v : maybe_get_point g.base v ≡ some q) (rows_p : rows p ≡ g.metric.dim)
        (rows_q : rows q ≡ g.metric.dim) where
      new_edge_measured :
          IsMeasuredEdge sets (joined u v name p q) u (base_add_edge u v name g.base).0
      new_edge_measured = record {
        start_config = p;
        goal_config = q;
        at_start = ground (arith, doc.add_edge_point u v name g.base u);
        at_goal = ground (
          arith,
          doc.add_edge_head u v name g.base (base_add_edge u v name g.base).0,
          doc.add_edge_point u v name g.base v,
        );
        start_rows = rows_p;
        goal_rows = rows_q;
        inside = ground (
          arith,
          doc.add_edge_head u v name g.base (base_add_edge u v name g.base).0,
          doc.add_edge_vertices u v name g.base v,
        );
        cost = ground (
          arith,
          lookup-store (base_add_edge u v name g.base).0 (base_add_edge u v name g.base).0
              (g.metric.distance_func p q) g.edge_cost,
        );
      }

      old_edge_measured :
          (w e : ℕ)
          → Contains sets (vertices g.base) w
          → Contains sets (outgoing_edges g.base w) e
          → IsMeasuredEdge sets (joined u v name p q) w e
      old_edge_measured w e inside leaves =
          let edge = m.measured w e inside leaves in
          let at_start = edge.at_start in
          let at_goal = edge.at_goal in
          let inside' = edge.inside in
          let cost = edge.cost in
          record {
            start_config = edge.start_config;
            goal_config = edge.goal_config;
            at_start = ground (arith, doc.add_edge_point u v name g.base w);
            at_goal = ground (
              arith,
              doc.new_edge u v name g.base w,
              doc.add_edge_head u v name g.base e,
              doc.add_edge_point u v name g.base (head g.base e),
            );
            start_rows = edge.start_rows;
            goal_rows = edge.goal_rows;
            inside = ground (
              arith,
              doc.new_edge u v name g.base w,
              doc.add_edge_head u v name g.base e,
              doc.add_edge_vertices u v name g.base (head g.base e),
            );
            cost = ground (
              arith,
              doc.new_edge u v name g.base w,
              lookup-store (base_add_edge u v name g.base).0 e (g.metric.distance_func p q)
                  g.edge_cost,
            );
          }

      joined-IsMeasured : IsMeasured sets (joined u v name p q)
      joined-IsMeasured = record {
        placed = λ w inside.
            let (r, point) = m.placed w (ground (arith, doc.add_edge_vertices u v name g.base w)) in
            (r, ground (arith, doc.add_edge_point u v name g.base w));
        measured = λ w e inside leaves. elim (Bool-cases (contains e (outgoing_edges g.base w))) [
          | inl old ↦
              old_edge_measured w e (ground (arith, doc.add_edge_vertices u v name g.base w)) old
          | inr fresh ↦
              let same_u : u ≡ w = ground (arith, doc.add_edge_edges u v name g.base w e u_in) in
              let same_e : (base_add_edge u v name g.base).0 ≡ e =
                ground (arith, doc.add_edge_edges u v name g.base w e u_in) in
              subst (λ x. IsMeasuredEdge sets (joined u v name p q) x e) same_u
                (subst (IsMeasuredEdge sets (joined u v name p q) u) same_e new_edge_measured)
        ];
      }

    add_edge-IsMeasured :
        (u v e : ℕ) (name : String) (g' : GraphOfConfigs S C)
        → Contains sets (vertices g.base) u
        → Contains sets (vertices g.base) v
        → add_edge sets u v name g ≡ ok (e, g')
        → IsMeasured sets g'
    unfolding add_edge
    add_edge-IsMeasured u v e name g' u_in v_in added =
        let (p, at_u) = m.placed u u_in in
        let (q, at_v) = m.placed v v_in in
        let rows_p : rows p ≡ g.metric.dim = ground arith in
        let rows_q : rows q ≡ g.metric.dim = ground arith in
        let same : joined u v name p q ≡ g' = ground arith in
        subst (IsMeasured sets) same
          (joined-IsMeasured u v name p q u_in v_in at_u at_v rows_p rows_q)

    add_vertex-IsMeasured :
        (set : X) (name : String) (v : ℕ) (g' : GraphOfConfigs S C)
        → add_vertex sets set name g ≡ ok (v, g')
        → IsMeasured sets g'
    unfolding add_vertex
    add_vertex-IsMeasured set name v g' added = elim (Option-cases (as_point set)) [
      | inl e ↦ absurd (ground arith)
      | inr (q, e) ↦
          let same : grown q name ≡ g' = ground arith in
          subst (IsMeasured sets) same (grown-IsMeasured q name)
    ]

  make_graph-IsMeasured :
      (doc : IsDocumented sets) (dim : ℕ) (joints : List ℕ) (weights : Option C)
      (metric_type : MetricType) (g : GraphOfConfigs S C)
      → make_graph sets dim joints weights metric_type ≡ ok g
      → IsMeasured sets g
  unfolding make_graph
  make_graph-IsMeasured doc dim joints weights metric_type g e =
      let starts : g.base ≡ empty = ground arith in
      record {
        placed = λ v inside. absurd (ground (arith, doc.starts_empty v));
        measured = λ u e inside leaves. absurd (ground (arith, doc.starts_empty u));
      }

  -- In every graph that the constructor, AddVertex and AddEdge make each vertex has a point, and each
  -- edge leads to a vertex of the graph and costs the distance between its ends, which have the size of
  -- the metric.
  pub Built-IsMeasured :
      (doc : IsDocumented sets) {g : GraphOfConfigs S C} → Built sets g → IsMeasured sets g
  Built-IsMeasured doc (made {g} dim joints weights metric_type e) =
      make_graph-IsMeasured doc dim joints weights metric_type g e
  Built-IsMeasured doc (with_vertex {g} {g'} {v} set name built e) =
      add_vertex-IsMeasured doc g (Built-IsMeasured doc built) set name v g' e
  Built-IsMeasured doc (with_edge {g} {g'} {e} u v name built u_in v_in added) =
      add_edge-IsMeasured doc g (Built-IsMeasured doc built) u v e name g' u_in v_in added
