-- ===== src/Motion/Graph/Correct.antt =====
-- `CalcShortestPath` on a graph whose edges cost the distance between their ends.
use planning_service.Prelude.{
  ℕ, suc, ◌≡◌, refl, sym, subst, false, [], Option, some, none, arith, number_key, inl, inr, ◌==◌,
  length,
}
use planning_service.Prelude.Tests.{Bool-cases, ==_iff}
use planning_service.Motion.Graph.{ConvexSets, GraphOfConfigs, fail, measure, wrong_dimension}
use planning_service.Motion.Graph.Search.{search_loop, start_search, calc_shortest_path}
use planning_service.Motion.Graph.Walks.{
  Contains, IsMetric, IsMeasured, IsGuide, IsAnswer, wrong_size,
}
use planning_service.Motion.Graph.Shortest.{search_loop-IsAnswer, start_search-Between}

module _ {S X C : Type 0} (sets : ConvexSets S X C) (g : GraphOfConfigs S C) where
  open sets use {vertices, maybe_get_point, outgoing_edges, head, rows}

  -- The distance of a vertex's point to the goal's.
  abbrev estimate : C → Option C → ℕ
  estimate goal_config (some p) = g.metric.distance_func p goal_config
  estimate goal_config none = 0

  abbrev to_goal : C → ℕ → ℕ
  to_goal goal_config v = estimate goal_config (maybe_get_point g.base v)

  distance-IsGuide :
      (goal : ℕ) (q : C)
      → IsMetric g.metric.distance_func
      → IsMeasured sets g
      → maybe_get_point g.base goal ≡ some q
      → rows q ≡ g.metric.dim
      → IsGuide sets g goal q (to_goal q)
  distance-IsGuide goal q metric m point rows_q = record {
    edges = λ u e inside leaves.
        let edge = m.measured u e inside leaves in
        (
          g.metric.distance_func edge.start_config edge.goal_config,
          edge.cost,
          edge.inside,
          (let at_start = edge.at_start in
              let at_goal = edge.at_goal in
              ground (arith, metric.triangle edge.start_config edge.goal_config q)),
          (
            edge.goal_config,
            edge.at_goal,
            edge.goal_rows,
            (let at_goal = edge.at_goal in ground arith),
          ),
        );
    goal_rows = rows_q;
    nothing_left = ground (arith, metric.self q);
  }

  search_starts :
      (start goal : ℕ) (p q : C)
      → maybe_get_point g.base start ≡ some p
      → maybe_get_point g.base goal ≡ some q
      → rows p ≡ g.metric.dim
      → rows q ≡ g.metric.dim
      → calc_shortest_path sets start goal none g
        ≡ search_loop sets
            (suc (length (vertices g.base)))
            none
            (suc (length (vertices g.base)))
            start
            goal
            q
            g
            (start_search sets g start (to_goal q start))
  unfolding calc_shortest_path measure
  search_starts start goal p q at_start at_goal rows_p rows_q = ground arith

  start_refused :
      (start goal : ℕ) (p q : C)
      → maybe_get_point g.base start ≡ some p
      → maybe_get_point g.base goal ≡ some q
      → (rows p == g.metric.dim) ≡ false
      → calc_shortest_path sets start goal none g ≡ fail wrong_dimension
  unfolding calc_shortest_path measure
  start_refused start goal p q at_start at_goal other = ground arith

  goal_refused :
      (start goal : ℕ) (p q : C)
      → maybe_get_point g.base start ≡ some p
      → maybe_get_point g.base goal ≡ some q
      → (rows q == g.metric.dim) ≡ false
      → calc_shortest_path sets start goal none g ≡ fail wrong_dimension
  unfolding calc_shortest_path measure
  goal_refused start goal p q at_start at_goal other = ground arith

  -- On a graph whose edges cost the distances of their ends under a metric, between two of its
  -- vertices and with no function that adds edges, CalcShortestPath ends and answers: with a walk from
  -- the start to the goal, its cost, and no walk of a lower cost; or that there is no path, where there
  -- is no walk; or, for a point of the wrong size, that the dimension is wrong.
  pub calc_shortest_path-IsAnswer :
      (start goal : ℕ)
      → IsMetric g.metric.distance_func
      → IsMeasured sets g
      → Contains sets (vertices g.base) start
      → Contains sets (vertices g.base) goal
      → IsAnswer sets g start goal (calc_shortest_path sets start goal none g)
  calc_shortest_path-IsAnswer start goal metric m start_in goal_in =
      let (p, at_start) = m.placed start start_in in
      let (q, at_goal) = m.placed goal goal_in in
      elim (Bool-cases (rows p == g.metric.dim)) [
        | inr other ↦
            subst (IsAnswer sets g start goal)
              (sym (start_refused start goal p q at_start at_goal other))
              (wrong_size start p (inl refl) at_start (λ e. ground arith))
        | inl fits ↦ elim (Bool-cases (rows q == g.metric.dim)) [
          | inr other ↦
              subst (IsAnswer sets g start goal)
                (sym (goal_refused start goal p q at_start at_goal other))
                (wrong_size goal q (inr refl) at_goal (λ e. ground arith))
          | inl fits_goal ↦
              let rows_p = (==_iff (rows p) g.metric.dim).0 fits in
              let rows_q = (==_iff (rows q) g.metric.dim).0 fits_goal in
              let guide = distance-IsGuide goal q metric m at_goal rows_q in
              let start_b = start_search-Between sets g start goal (to_goal q) q guide start_in in
              subst (IsAnswer sets g start goal)
                (sym (search_starts start goal p q at_start at_goal rows_p rows_q))
                (search_loop-IsAnswer sets g start goal (to_goal q) q guide
                  (suc (length (vertices g.base))) (length (vertices g.base)) 0 []
                  (start_search sets g start (to_goal q start)) start_b start_in (omega arith)
                  (omega arith))
        ]
      ]
