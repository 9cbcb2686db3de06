-- ===== src/Motion/Graph/Edges.antt =====
-- The loop over the outgoing edges of the vertex that is expanded: it ends, keeps the invariant and
-- settles the vertex.
use planning_service.Prelude.{
  ℕ, ◌+◌, ◌≤◌, ◌≡◌, refl, subst, true, false, List, [], ◌∷◌, some, arith, number_key, inl, inr,
  ◌==◌,
}
use planning_service.Prelude.Tests.{Bool-cases}
use planning_service.Prelude.Maps.{lookup}
use planning_service.Prelude.Sets.{contains}
use planning_service.Motion.Graph.{less, ConvexSets, GraphOfConfigs, Result, ok, measure}
use planning_service.Motion.Graph.Search.{score, Search, visit_edge, visit_edges, improve}
use planning_service.Motion.Graph.Walks.{Contains, IsGuide, Edge}
use planning_service.Motion.Graph.Relax.{
  found, IsKnown, Inv, improved, found-improved, IsKnown-improved, fresh, here-IsKnown,
  improved-Inv,
}

module _ {S X C : Type 0} (sets : ConvexSets S X C) (g : GraphOfConfigs S C) (start goal : ℕ)
    (h : ℕ → ℕ) (goal_config : C) (guide : IsGuide sets g goal goal_config h) where
  open sets use {vertices, outgoing_edges, head, maybe_get_point, rows}

  -- What is known stays known, at no higher cost, and the costs of expanded vertices stay.
  pub record Grows (closed : List ℕ) (s t : Search) : Type 0 where
    pub known : (v : ℕ) → IsKnown sets g start h s v → IsKnown sets g start h t v
    pub lower : (v : ℕ) → IsKnown sets g start h s v → found t v ≤ found s v
    pub fixed : (v : ℕ) → Contains sets closed v → found t v ≡ found s v

  -- The edge `e` of `u` leads to no lower cost.
  pub record Settled (s : Search) (u e : ℕ) : Type 0 where
    pub cost : ℕ
    pub costs : lookup e g.edge_cost ≡ some cost
    pub reached : IsKnown sets g start h s (head g.base e)
    pub settled : found s (head g.base e) ≤ found s u + cost

  pub Settled-Grows :
      (closed : List ℕ) (s t : Search) (u e : ℕ)
      → Grows closed s t
      → Contains sets closed u
      → Settled s u e
      → Settled t u e
  Settled-Grows closed s t u e grows m old = record {
    cost = old.cost;
    costs = old.costs;
    reached = grows.known (head g.base e) old.reached;
    settled = omega (arith, old.settled, grows.lower (head g.base e) old.reached, grows.fixed u m);
  }

  Grows-refl : (closed : List ℕ) (s : Search) → Grows closed s s
  Grows-refl closed s = record { known = λ v k. k; lower = λ v k. omega arith; fixed = λ v m. refl }

  Grows-trans :
      (closed : List ℕ) (s t r : Search) → Grows closed s t → Grows closed t r → Grows closed s r
  Grows-trans closed s t r a b = record {
    known = λ v k. b.known v (a.known v k);
    lower = λ v k. omega (arith, a.lower v k, b.lower v (a.known v k));
    fixed = λ v m. omega (arith, a.fixed v m, b.fixed v m);
  }

  -- What a round of the loop computes, at a lower cost and otherwise.
  visit_edge_improves :
      (s : Search) (u e c d : ℕ) (q : C)
      → score s.g_score u ≡ some d
      → lookup e g.edge_cost ≡ some c
      → less (some (d + c)) (score s.g_score (head g.base e)) ≡ true
      → maybe_get_point g.base (head g.base e) ≡ some q
      → rows q ≡ g.metric.dim
      → g.metric.distance_func q goal_config ≡ h (head g.base e)
      → visit_edge sets g goal_config u e s
        ≡ ok (improved sets g start h s u (head g.base e) (d + c))
  unfolding visit_edge improve measure
  visit_edge_improves s u e c d q g_is costs lower point rows_q estimate =
      let rows_goal = guide.goal_rows in ground arith

  visit_edge_keeps :
      (s : Search) (u e c d : ℕ)
      → score s.g_score u ≡ some d
      → lookup e g.edge_cost ≡ some c
      → less (some (d + c)) (score s.g_score (head g.base e)) ≡ false
      → visit_edge sets g goal_config u e s ≡ ok s
  unfolding visit_edge
  visit_edge_keeps s u e c d g_is costs enough = ground arith

  improved-Grows :
      (closed : List ℕ) (s : Search) (u x t : ℕ)
      → contains x closed ≡ false
      → less (some t) (score s.g_score x) ≡ true
      → Grows closed s (improved sets g start h s u x t)
  improved-Grows closed s u x t out lower = record {
    known = IsKnown-improved sets g start h s u x t;
    lower = λ v k. let is = k.g_is in ground (arith, found-improved sets g start h s u x t v);
    fixed = λ v m. ground (arith, found-improved sets g start h s u x t v);
  }

  abbrev pub Visited : ℕ → List ℕ → ℕ → Search → List ℕ → Result Search → Type 0
  Visited F closed u s es r =
      (t : Search) × (r ≡ ok t)
      × Inv sets g start h F closed t
      × Grows closed s t
      × ((e : ℕ) → Contains sets es e → Settled t u e)

  module _ (F : ℕ) (closed : List ℕ) (u : ℕ) (expanded : Contains sets closed u) where
    -- A vertex that is neither open nor expanded has an infinite cost.
    finite-IsKnown :
        (s : Search)
        → Inv sets g start h F closed s
        → (x : ℕ) (t : ℕ) → Contains sets (vertices g.base) x
        → less (some t) (score s.g_score x) ≡ false
        → IsKnown sets g start h s x
    finite-IsKnown s inv x t inside e = elim (Bool-cases (contains x s.open_set)) [
      | inl o ↦ inv.open_known x o
      | inr no_o ↦ elim (Bool-cases (contains x closed)) [
        | inl m ↦ inv.closed_known x m
        | inr no_m ↦ absurd (ground (arith, inv.unknown x inside no_o no_m))
      ]
    ]

    visit_edge-Visited :
        (e : ℕ)
        → Contains sets (outgoing_edges g.base u) e
        → (s : Search) → Inv sets g start h F closed s
        → F ≡ found s u + h u
        → Visited F closed u s (e ∷ []) (visit_edge sets g goal_config u e s)
    unfolding contains
    visit_edge-Visited e m s inv last =
        let known = inv.closed_known u expanded in
        let x : ℕ = head g.base e in
        let (c, costs, inside, consistent, (q, point, rows_q, estimate)) =
          guide.edges u e known.inside m in
        let edge : Edge sets g u x c = record {
          edge = e;
          leaves = m;
          enters = refl;
          costs = costs;
        } in
        elim (Bool-cases (less (some (found s u + c)) (score s.g_score x))) [
          | inl lower ↦
              let out =
                fresh sets g start h F closed s u x c inv expanded last inside edge consistent
                  lower in
              let here =
                here-IsKnown sets g start h F closed s u x c inv expanded last inside edge
                  consistent lower in
              (
                improved sets g start h s u x (found s u + c),
                visit_edge_improves s u e c (found s u) q known.g_is costs lower point rows_q
                    estimate,
                improved-Inv sets g start h F closed s u x c inv expanded last inside edge
                    consistent lower,
                improved-Grows closed s u x (found s u + c) out lower,
                λ e' m'.
                    subst (Settled (improved sets g start h s u x (found s u + c)) u) (ground arith)
                      (record {
                        cost = c;
                        costs = costs;
                        reached = here;
                        settled = ground (
                          arith,
                          out,
                          expanded,
                          found-improved sets g start h s u x (found s u + c) x,
                          found-improved sets g start h s u x (found s u + c) u,
                        );
                      }),
              )
          | inr enough ↦
              let here = finite-IsKnown s inv x (found s u + c) inside enough in
              (
                s,
                visit_edge_keeps s u e c (found s u) known.g_is costs enough,
                inv,
                Grows-refl closed s,
                λ e' m'. subst (Settled s u) (ground arith) (record {
                  cost = c;
                  costs = costs;
                  reached = here;
                  settled = let is = here.g_is in ground (arith);
                }),
              )
        ]

    pub visit_edges-Visited :
        (es : List ℕ)
        → ((e : ℕ) → Contains sets es e → Contains sets (outgoing_edges g.base u) e)
        → (s : Search) → Inv sets g start h F closed s
        → F ≡ found s u + h u
        → Visited F closed u s es (visit_edges sets g goal_config u es s)
    unfolding visit_edges contains
    visit_edges-Visited [] among s inv last = (s, refl, inv, Grows-refl closed s, λ e m. cc)
    visit_edges-Visited (e ∷ es) among s inv last =
        let (t, first, inv_t, grows, done) =
          visit_edge-Visited e (among e (ground arith)) s inv last in
        let (r, rest, inv_r, grows', done') =
          visit_edges-Visited es (λ e' m. among e' (ground arith)) t inv_t
            (omega (arith, grows.fixed u expanded)) in
        (
          r,
          rw first rest,
          inv_r,
          Grows-trans closed s t r grows grows',
          λ e' m. elim (Bool-cases (e == e')) [
            | inl same ↦ Settled-Grows closed t r u e' grows' expanded (done e' (ground arith))
            | inr other ↦ done' e' (ground arith)
          ],
        )
