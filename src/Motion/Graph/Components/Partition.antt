-- ===== src/Motion/Graph/Components/Partition.antt =====
-- `CalcStronglyConnectedComponents` ends, and puts each vertex in one component.
use planning_service.Prelude.{
  ℕ, zero, suc, ◌+◌, ◌≤◌, ◌<◌, ◌≡◌, refl, subst, ap, ◌∙◌, true, false, ◌==◌, List, [], ◌∷◌, ◌++◌,
  length, length-append, if◌then◌else◌, number_key, arith, inl, inr,
}
use planning_service.Prelude.Tests.{Bool-cases, ==_iff}
use planning_service.Prelude.Maps.{lookup, has_key, lookup-some}
use planning_service.Prelude.Sets.{contains}
use planning_service.Motion.Graph.{ConvexSets, GraphOfConfigs, Result, ok}
use planning_service.Motion.Graph.Lowest.{contains-append}
use planning_service.Motion.Graph.Walks.{Contains}
use planning_service.Motion.Graph.Relax.{Once}
use planning_service.Motion.Graph.Trace.{length-Once}
use planning_service.Motion.Graph.Components.{
  Tarjan, enter, connect_neighbor, connect_neighbors, heads, strongconnect, connect_all,
  calc_strongly_connected_components,
}
use planning_service.Motion.Graph.Components.Split.{flatten, number, size, Inv, Once-append}
use planning_service.Motion.Graph.Components.Steps.{
  Loop, enter-Loop, lower_link-Loop, Visit, visited-Loop, close-Visit,
}

size_bounded : (V : List ℕ) (base : ℕ) (s : Tarjan) → Inv V base s → size s ≤ length V
size_bounded V base s inv =
    let once = Once-append s.stack (flatten s.scc_vec) inv.once_stack inv.once_done inv.apart in
    omega (
      arith,
      length-append s.stack (flatten s.scc_vec),
      length-Once (s.stack ++ flatten s.scc_vec) V once (λ v m.
          inv.inside v (ground (arith, inv.seen v, contains-append v s.stack (flatten s.scc_vec)))),
    )

module _ (V : List ℕ) (base fuel : ℕ) (call : ℕ → Tarjan → Result Tarjan)
    (visits : (n : ℕ) (s : Tarjan)
      → Inv V base s
      → has_key n s.index ≡ false
      → contains n V ≡ true
      → length V < fuel + size s
      → (t : Tarjan) × (call n s ≡ ok t) × Visit V base n s t) where
  neighbor-Loop :
      (v n : ℕ) (s t : Tarjan)
      → Loop V base v s t
      → contains n V ≡ true
      → length V < fuel + size s
      → (r : Tarjan) × (connect_neighbor call v n t ≡ ok r) × Loop V base v s r
  unfolding connect_neighbor
  neighbor-Loop v n s t loop inside enough = elim (Bool-cases (has_key n t.index)) [
    | inl old ↦ elim (Bool-cases (contains n t.stack)) [
      | inl on_stack ↦
          let inv = loop.inv in
          let on = inv.on n old in
          let floor = inv.floor n on_stack in
          let (i, index) = lookup-some n t.index old in
          let (r, lowered, loop') =
            lower_link-Loop V base v i s t loop (ground (arith, floor, index)) in
          (r, rw (old, on, on_stack, index) lowered, loop')
      | inr off_stack ↦
          let inv = loop.inv in let on = inv.on n old in (t, rw (old, on, off_stack) refl, loop)
    ]
    | inr new ↦
        let (q, called, visit) = visits n t loop.inv new inside (omega (arith, loop.larger)) in
        let visited = visited-Loop V base v n s t q loop visit in
        let inv = visit.inv in
        let linked = inv.linked n visit.entered in
        let (r, lowered, loop') =
          lower_link-Loop V base v (number (lookup n q.lowlink)) s q visited visit.above in
        (r, rw (new, called, linked) lowered, loop')
  ]

  neighbors-Loop :
      (v : ℕ) (ns : List ℕ) (s t : Tarjan)
      → Loop V base v s t
      → ((n : ℕ) → contains n ns ≡ true → contains n V ≡ true)
      → length V < fuel + size s
      → (r : Tarjan) × (connect_neighbors call v ns t ≡ ok r) × Loop V base v s r
  unfolding connect_neighbors contains
  neighbors-Loop v [] s t loop inside enough = (t, refl, loop)
  neighbors-Loop v (n ∷ ns) s t loop inside enough =
      let (q, first, loop') = neighbor-Loop v n s t loop (inside n (ground arith)) enough in
      let (r, rest, loop'') =
        neighbors-Loop v ns s q loop' (λ m among. inside m (ground arith)) enough in
      (r, rw first rest, loop'')

module _ {S X C : Type 0} (sets : ConvexSets S X C) (g : GraphOfConfigs S C) where
  open sets use {vertices, outgoing_edges, head}

  -- Every edge leads to a vertex of the graph.
  abbrev pub IsClosed : Type 0
  IsClosed =
      (u e : ℕ)
      → Contains sets (vertices g.base) u
      → Contains sets (outgoing_edges g.base u) e
      → Contains sets (vertices g.base) (head g.base e)

  heads_inside :
      (es : List ℕ)
      → ((e : ℕ) → contains e es ≡ true → contains (head g.base e) (vertices g.base) ≡ true)
      → (n : ℕ) → contains n (heads sets g es) ≡ true
      → contains n (vertices g.base) ≡ true
  unfolding heads contains
  heads_inside [] inside n m = cc
  heads_inside (e ∷ es) inside n m = ground (
    arith,
    inside e,
    ==_iff (head g.base e) n,
    heads_inside es (λ e' m'. inside e' (ground arith)) n,
  )

  strongconnect-Visit :
      (fuel base : ℕ) (v : ℕ) (s : Tarjan)
      → IsClosed
      → Inv (vertices g.base) base s
      → has_key v s.index ≡ false
      → contains v (vertices g.base) ≡ true
      → length (vertices g.base) < fuel + size s
      → (t : Tarjan) × (strongconnect sets g fuel v s ≡ ok t) × Visit (vertices g.base) base v s t
  unfolding strongconnect enter
  strongconnect-Visit zero base v s closed inv new inside enough =
      absurd (omega (arith, size_bounded (vertices g.base) base s inv))
  strongconnect-Visit (suc fuel) base v s closed inv new inside enough =
      let (t, looped, loop) =
        neighbors-Loop (vertices g.base) base fuel (strongconnect sets g fuel)
          (λ n s' inv' new' inside' enough'.
            strongconnect-Visit fuel base n s' closed inv' new' inside' enough')
          v (heads sets g (outgoing_edges g.base v)) (enter v s) (enter v s)
          (enter-Loop (vertices g.base) base v s inv new inside)
          (heads_inside (outgoing_edges g.base v) (λ e m. closed v e inside m))
          (omega (arith, enough)) in
      let (r, closes, visit) = close-Visit (vertices g.base) base v s t new loop in
      (r, rw looped closes, visit)

  -- Between two calls of the outer loop.
  record Between (s : Tarjan) : Type 0 where
    inv : Inv (vertices g.base) s.counter s
    stack_empty : s.stack ≡ []

  rebased : (base : ℕ) (s : Tarjan) → Inv (vertices g.base) base s → s.stack ≡ [] → Between s
  unfolding contains
  rebased base s inv e = record {
    inv = record {
      seen = inv.seen;
      apart = inv.apart;
      once_stack = inv.once_stack;
      once_done = inv.once_done;
      inside = inv.inside;
      on = inv.on;
      linked = inv.linked;
      floor = λ v m. absurd (ground (arith, ap (contains v) e));
      counted = omega arith;
    };
    stack_empty = e;
  }

  abbrev Connected : List ℕ → Tarjan → Result Tarjan → Type 0
  Connected vs s r =
      (t : Tarjan) × (r ≡ ok t)
      × Between t
      × ((v : ℕ) → contains v vs ≡ true → has_key v t.index ≡ true)
      × ((v : ℕ) → has_key v s.index ≡ true → has_key v t.index ≡ true)

  connect_one :
      (fuel v : ℕ) (s : Tarjan)
      → IsClosed
      → Between s
      → contains v (vertices g.base) ≡ true
      → length (vertices g.base) < fuel
      → Connected (v ∷ []) s (if has_key v s.index then ok s else strongconnect sets g fuel v s)
  unfolding contains
  connect_one fuel v s closed b inside enough = elim (Bool-cases (has_key v s.index)) [
    | inl old ↦ (
      s,
      rw old refl,
      b,
      (λ w m. subst (λ x. has_key x s.index ≡ true) (ground arith) old),
      (λ w m. m),
    )
    | inr new ↦
        let (t, called, visit) =
          strongconnect-Visit fuel s.counter v s closed b.inv new inside (omega arith) in
        let grows = visit.grows in
        (
          t,
          rw new called,
          rebased s.counter t visit.inv (visit.bottom refl ∙ b.stack_empty),
          (λ w m. subst (λ x. has_key x t.index ≡ true) (ground arith) visit.entered),
          grows.keys,
        )
  ]

  connect_all-Connected :
      (fuel : ℕ) (vs : List ℕ) (s : Tarjan)
      → IsClosed
      → Between s
      → ((v : ℕ) → contains v vs ≡ true → contains v (vertices g.base) ≡ true)
      → length (vertices g.base) < fuel
      → Connected vs s (connect_all sets g fuel vs s)
  unfolding connect_all contains
  connect_all-Connected fuel [] s closed b inside enough = (s, refl, b, (λ v m. cc), (λ v m. m))
  connect_all-Connected fuel (v ∷ vs) s closed b inside enough =
      let (q, first, b', here, keys) =
        connect_one fuel v s closed b (inside v (ground arith)) enough in
      let (t, rest, b'', there, keys') =
        connect_all-Connected fuel vs q closed b' (λ w m. inside w (ground arith)) enough in
      (
        t,
        rw first rest,
        b'',
        (λ w m. elim (Bool-cases (v == w)) [
          | inl same ↦ keys' w (here w (ground arith))
          | inr other ↦ there w (ground arith)
        ]),
        (λ w m. keys' w (keys w m)),
      )

  -- The components are a partition of the vertices.
  pub record IsPartition (sccs : List (List ℕ)) : Type 0 where
    pub once : Once (flatten sccs)
    pub whole : (v : ℕ) → contains v (flatten sccs) ≡ contains v (vertices g.base)

  starts :
      Between
        record { stack = []; counter = 0; index = []; on_stack = []; lowlink = []; scc_vec = [] }
  unfolding has_key contains
  starts = record {
    inv = record {
      seen = λ v. refl;
      apart = λ v m. refl;
      once_stack = tt;
      once_done = tt;
      inside = λ v m. cc;
      on = λ v m. cc;
      linked = λ v m. cc;
      floor = λ v m. cc;
      counted = omega arith;
    };
    stack_empty = refl;
  }

  -- Where every edge leads to a vertex of the graph, CalcStronglyConnectedComponents ends without a
  -- failed read or an empty stack, and puts each vertex of the graph in one component, once, and
  -- nothing else.
  pub calc_strongly_connected_components-IsPartition :
      IsClosed
      → (sccs : List (List ℕ)) × (calc_strongly_connected_components sets g ≡ ok sccs)
        × IsPartition sccs
  unfolding calc_strongly_connected_components contains
  calc_strongly_connected_components-IsPartition closed =
      let (t, connected, b, all, keys) =
        connect_all-Connected (suc (length (vertices g.base))) (vertices g.base) _ closed starts
          (λ v m. m) (omega arith) in
      let inv = b.inv in
      (
        t.scc_vec,
        rw connected refl,
        record {
          once = inv.once_done;
          whole =
              λ v. ground (arith, inv.seen v, inv.inside v, all v, ap (contains v) b.stack_empty);
        },
      )
