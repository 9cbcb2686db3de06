-- ===== src/Motion/Graph/Shortest.antt =====
-- `CalcShortestPath` ends with a shortest walk, or says rightly that there is none.
use planning_service.Prelude.{
  ℕ, zero, suc, ◌+◌, ◌≤◌, ◌<◌, ◌≡◌, refl, sym, subst, ap, ◌∙◌, false, List, [], ◌∷◌, some, none,
  arith, number_key, inl, inr, ◌==◌, length, List-cases,
}
use planning_service.Prelude.Tests.{Bool-cases, ==_iff}
use planning_service.Prelude.Sets.{contains}
use planning_service.Motion.Graph.{ConvexSets, GraphOfConfigs, ok, fail, no_path}
use planning_service.Motion.Graph.Search.{
  score, lowest, remove, set_infinite, Search, visit_edges, at_lowest, at_open, search_loop,
  start_search, trace_back,
}
use planning_service.Motion.Graph.Walks.{Contains, IsGuide, IsAnswer, shortest, unreachable}
use planning_service.Motion.Graph.Lowest.{
  lowest-IsLowest, IsLowest, contains-remove, score-store, score-set_infinite,
}
use planning_service.Motion.Graph.Relax.{found, IsKnown, Inv, Parent, root, link, Tree}
use planning_service.Motion.Graph.Edges.{Settled, Settled-Grows, visit_edges-Visited}
use planning_service.Motion.Graph.Trace.{
  length-Once, trace_goal, found-le-walk, walk-closed, placed,
}

module _ {S X C : Type 0} (sets : ConvexSets S X C) (g : GraphOfConfigs S C) (start goal : ℕ)
    (h : ℕ → ℕ) (goal_config : C) (guide : IsGuide sets g goal goal_config h) where
  open sets use {vertices, outgoing_edges, head}

  -- A vertex of the open set with the lowest score, put among the expanded ones.
  abbrev taken : Search → ℕ → Search
  taken s w = record s { open_set = remove w s.open_set }

  module _ (s : Search) (w : ℕ) where
    IsKnown-taken : (v : ℕ) → IsKnown sets g start h s v → IsKnown sets g start h (taken s w) v
    IsKnown-taken v known = record { inside = known.inside; g_is = known.g_is; f_is = known.f_is }

    Parent-taken :
        (closed closed' : List ℕ) (v : ℕ)
        → ((p : ℕ) → Contains sets closed p → Contains sets closed' p)
        → Parent sets g start h s closed v
        → Parent sets g start h (taken s w) closed' v
    Parent-taken closed closed' v more (root e) = root e
    Parent-taken closed closed' v more (link p c from m e cost) = link p c from (more p m) e cost

    Tree-taken :
        (closed : List ℕ) → Tree sets g start h s closed → Tree sets g start h (taken s w) closed
    Tree-taken [] tree = tt
    Tree-taken (v ∷ closed) tree =
        (Parent-taken closed closed v (λ p m. m) tree.0, Tree-taken closed tree.1)

  taken-Inv :
      (F : ℕ) (closed : List ℕ) (s : Search) (w : ℕ)
      → Inv sets g start h F closed s
      → Contains sets s.open_set w
      → ((v : ℕ) → Contains sets s.open_set v → found s w + h w ≤ found s v + h v)
      → Inv sets g start h (found s w + h w) (w ∷ closed) (taken s w)
  unfolding contains
  taken-Inv F closed s w inv is_open least = record {
    apart = λ v o. ground (arith, inv.apart v, contains-remove w v s.open_set);
    open_known = λ v o.
        IsKnown-taken s w v (inv.open_known v (ground (arith, contains-remove w v s.open_set)));
    closed_known = λ v m. IsKnown-taken s w v (elim (Bool-cases (w == v)) [
      | inl e ↦ subst (IsKnown sets g start h s) ((==_iff w v).0 e) (inv.open_known w is_open)
      | inr ne ↦ inv.closed_known v (ground arith)
    ]);
    unknown =
        λ v i o m. inv.unknown v i (ground (arith, contains-remove w v s.open_set)) (ground arith);
    low = λ v m. ground (arith, inv.low v, inv.high w);
    high = λ v o. least v (ground (arith, contains-remove w v s.open_set));
    parents = λ v o.
        Parent-taken s w closed (w ∷ closed) v (λ p m. ground arith)
          (inv.parents v (ground (arith, contains-remove w v s.open_set)));
    tree = (
      Parent-taken s w closed closed w (λ p m. m) (inv.parents w is_open),
      Tree-taken s w closed inv.tree,
    );
    at_start = inv.at_start;
    once = (inv.apart w is_open, inv.once);
  }

  -- The state between two rounds.
  pub record Between (F : ℕ) (closed : List ℕ) (s : Search) : Type 0 where
    pub inv : Inv sets g start h F closed s
    pub settled :
        (u e : ℕ)
        → Contains sets closed u
        → Contains sets (outgoing_edges g.base u) e
        → Settled sets g start goal h goal_config guide s u e
    pub goal_left : contains goal closed ≡ false

  Settled-taken :
      (s : Search) (w u e : ℕ)
      → Settled sets g start goal h goal_config guide s u e
      → Settled sets g start goal h goal_config guide (taken s w) u e
  Settled-taken s w u e old = record {
    cost = old.cost;
    costs = old.costs;
    reached = IsKnown-taken s w (head g.base e) old.reached;
    settled = old.settled;
  }

  -- A round that does not reach the goal.
  round-Between :
      (F : ℕ) (closed : List ℕ) (s : Search) (w : ℕ)
      → Between F closed s
      → Contains sets s.open_set w
      → ((v : ℕ) → Contains sets s.open_set v → found s w + h w ≤ found s v + h v)
      → (w == goal) ≡ false
      → (t : Search) × (visit_edges sets g goal_config w (outgoing_edges g.base w) (taken s w)
          ≡ ok t)
        × Between (found s w + h w) (w ∷ closed) t
  unfolding contains
  round-Between F closed s w b is_open least other =
      let inv' = taken-Inv F closed s w b.inv is_open least in
      let (t, visited, inv_t, grows, done) =
        visit_edges-Visited sets g start goal h goal_config guide (found s w + h w) (w ∷ closed) w
          (ground arith) (outgoing_edges g.base w) (λ e m. m) (taken s w) inv' refl in
      (
        t,
        visited,
        record {
          inv = inv_t;
          settled = λ u e m edge. elim (Bool-cases (w == u)) [
            | inl same ↦
                subst (λ x. Settled sets g start goal h goal_config guide t x e)
                  ((==_iff w u).0 same)
                  (done e (
                    subst (λ x. Contains sets (outgoing_edges g.base x) e)
                      (sym ((==_iff w u).0 same)) edge))
            | inr ne ↦
                Settled-Grows sets g start goal h goal_config guide (w ∷ closed) (taken s w) t u e
                  grows m (Settled-taken s w u e (b.settled u e (ground arith) edge))
          ];
          goal_left = let left = b.goal_left in ground arith;
        },
      )

  loop_ends :
      (rounds fuel : ℕ) (s : Search)
      → s.open_set ≡ []
      → search_loop sets (suc rounds) none fuel start goal goal_config g s ≡ fail no_path
  unfolding search_loop at_open
  loop_ends rounds fuel s e = ground arith

  loop_finds :
      (rounds fuel : ℕ) (s : Search) (v : ℕ) (vs : List ℕ) (path : List ℕ)
      → s.open_set ≡ v ∷ vs
      → lowest s.f_score s.open_set none none ≡ some goal
      → trace_back fuel start s.came_from goal [] ≡ ok path
      → score s.g_score goal ≡ some (found s goal)
      → search_loop sets (suc rounds) none fuel start goal goal_config g s
        ≡ ok (some (found s goal), path)
  unfolding search_loop at_open at_lowest
  loop_finds rounds fuel s v vs path e low traced known = ground arith

  loop_goes_on :
      (rounds fuel : ℕ) (s t : Search) (v : ℕ) (vs : List ℕ) (w : ℕ)
      → s.open_set ≡ v ∷ vs
      → lowest s.f_score s.open_set none none ≡ some w
      → (w == goal) ≡ false
      → visit_edges sets g goal_config w (outgoing_edges g.base w) (taken s w) ≡ ok t
      → search_loop sets (suc rounds) none fuel start goal goal_config g s
        ≡ search_loop sets rounds none fuel start goal goal_config g t
  unfolding search_loop at_open at_lowest
  loop_goes_on rounds fuel s t v vs w e low other visited = ground arith

  start-IsKnown :
      (F : ℕ) (closed : List ℕ) (s : Search)
      → Between F closed s
      → Contains sets (vertices g.base) start
      → IsKnown sets g start h s start
  start-IsKnown F closed s b inside =
      elim (placed sets g start goal h goal_config guide F closed s b.inv b.settled start inside 0
        b.inv.at_start) [ inl o ↦ b.inv.open_known start o | inr m ↦ b.inv.closed_known start m ]

  -- The round that takes the goal answers with a shortest walk.
  goal_taken :
      (rounds fuel F : ℕ) (closed : List ℕ) (s : Search) (v : ℕ) (vs : List ℕ)
      → Between F closed s
      → Contains sets (vertices g.base) start
      → length closed ≤ fuel
      → s.open_set ≡ v ∷ vs
      → lowest s.f_score s.open_set none none ≡ some goal
      → Contains sets s.open_set goal
      → ((x : ℕ) → Contains sets s.open_set x → found s goal + h goal ≤ found s x + h x)
      → IsAnswer sets g start goal
          (search_loop sets (suc rounds) none (suc fuel) start goal goal_config g s)
  goal_taken rounds fuel F closed s v vs b inside le e low is_open least =
      let (path, traced, walk) =
        trace_goal sets g start goal h goal_config guide F closed s fuel b.inv le is_open in
      let known = b.inv.open_known goal is_open in
      let from_start = start-IsKnown F closed s b inside in
      let zero_cost = b.inv.at_start in
      subst (IsAnswer sets g start goal)
        (sym (loop_finds rounds (suc fuel) s v vs path e low traced known.g_is))
        (shortest walk (λ d' path' walk'.
          let le' =
            found-le-walk sets g start goal h goal_config guide F closed s b.inv b.settled is_open
              least from_start walk' in
          ground arith))

  nothing_open :
      (rounds fuel F : ℕ) (closed : List ℕ) (s : Search)
      → Between F closed s
      → Contains sets (vertices g.base) start
      → s.open_set ≡ []
      → IsAnswer sets g start goal
          (search_loop sets (suc rounds) none fuel start goal goal_config g s)
  unfolding contains
  nothing_open rounds fuel F closed s b inside e =
      subst (IsAnswer sets g start goal) (sym (loop_ends rounds fuel s e)) (
        unreachable (λ d path walk.
          let m =
            walk-closed sets g start goal h goal_config guide F closed s b.inv b.settled
              (λ v. ap (contains v) e) (start-IsKnown F closed s b inside) walk in
          let left = b.goal_left in cc))

  least_open :
      (F : ℕ) (closed : List ℕ) (s : Search) (v : ℕ) (vs : List ℕ)
      → Between F closed s
      → s.open_set ≡ v ∷ vs
      → (w : ℕ) × (lowest s.f_score s.open_set none none ≡ some w)
        × Contains sets s.open_set w
        × IsLowest s.f_score (λ x. found s x + h x) s.open_set w
  least_open F closed s v vs b e =
      let value = λ (x : ℕ). found s x + h x in
      let known = λ (x : ℕ) (m : Contains sets (v ∷ vs) x).
        (b.inv.open_known x (subst (λ o. Contains sets o x) (sym e) m)).f_is in
      subst
        (λ o.
          (w : ℕ) × (lowest s.f_score o none none ≡ some w)
          × Contains sets o w
          × IsLowest s.f_score value o w)
        (sym e) (lowest-IsLowest s.f_score value v vs known)

  pub search_loop-IsAnswer :
      (rounds fuel F : ℕ) (closed : List ℕ) (s : Search)
      → Between F closed s
      → Contains sets (vertices g.base) start
      → length (vertices g.base) < rounds + length closed
      → length (vertices g.base) ≤ fuel
      → IsAnswer sets g start goal
          (search_loop sets rounds none (suc fuel) start goal goal_config g s)
  search_loop-IsAnswer zero fuel F closed s b inside enough le =
      let among =
        length-Once closed (vertices g.base) b.inv.once
          (λ v m. let known = b.inv.closed_known v m in known.inside) in
      absurd (omega arith)
  search_loop-IsAnswer (suc rounds) fuel F closed s b inside enough le =
      elim (List-cases s.open_set) [
        | inl e ↦ nothing_open rounds (suc fuel) F closed s b inside e
        | inr (v, vs, e) ↦
            let among =
              length-Once closed (vertices g.base) b.inv.once
                (λ v m. let known = b.inv.closed_known v m in known.inside) in
            let (w, low, is_open, least) = least_open F closed s v vs b e in
            elim (Bool-cases (w == goal)) [
              | inl same ↦
                  let at_goal = (==_iff w goal).0 same in
                  goal_taken rounds fuel F closed s v vs b inside (omega (arith, among)) e
                    (low ∙ ap some at_goal) (subst (Contains sets s.open_set) at_goal is_open)
                    (subst (IsLowest s.f_score (λ x. found s x + h x) s.open_set) at_goal least)
              | inr other ↦
                  let (t, visited, b') = round-Between F closed s w b is_open least other in
                  subst (IsAnswer sets g start goal)
                    (sym (loop_goes_on rounds (suc fuel) s t v vs w e low other visited))
                    (search_loop-IsAnswer rounds fuel (found s w + h w) (w ∷ closed) t b' inside
                      (omega (arith, enough)) le)
            ]
      ]

  pub start_search-Between :
      Contains sets (vertices g.base) start → Between 0 [] (start_search sets g start (h start))
  unfolding start_search contains
  start_search-Between inside = record {
    inv = record {
      apart = λ v o. refl;
      open_known = λ v o.
          subst (IsKnown sets g start h (start_search sets g start (h start))) (ground arith)
            (record {
              inside = inside;
              g_is =
                  ground
                    (arith, score-store start start (some 0) (set_infinite (vertices g.base) []));
              f_is = ground (
                arith,
                score-store start start (some 0) (set_infinite (vertices g.base) []),
                score-store start start (some (h start)) (set_infinite (vertices g.base) []),
              );
            });
      closed_known = λ v m. cc;
      unknown = λ v i o m. ground (
        arith,
        score-store start v (some 0) (set_infinite (vertices g.base) []),
        score-set_infinite (vertices g.base) [] v,
      );
      low = λ v m. cc;
      high = λ v o. omega arith;
      parents = λ v o. root (ground arith);
      tree = tt;
      at_start =
          ground (arith, score-store start start (some 0) (set_infinite (vertices g.base) []));
      once = tt;
    };
    settled = λ u e m edge. cc;
    goal_left = refl;
  }
