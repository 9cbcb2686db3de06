-- ===== src/Motion/Graph/Components.antt =====
-- planning_service/motion/planning/internal/graph.cc: the strongly connected components, by Tarjan's
-- algorithm. `std::vector` as a stack has its back first here.
pub mod Split
pub mod Steps
pub mod Partition
use planning_service.Prelude.{
  ℕ, zero, suc, ◌+◌, Bool, true, false, ◌==◌, ltb, List, [], ◌∷◌, ◌++◌, length, Option, none, some,
  if◌then◌else◌, number_key,
}
use planning_service.Prelude.Maps.{lookup, store, has_key}
use planning_service.Motion.Graph.{
  ConvexSets, GraphOfConfigs, Result, ok, fail, out_of_range, out_of_fuel, empty_stack, ◌>>=◌, ◌>>◌,
  required,
}

-- The variables that the calls of `strongconnect` share.
pub record Tarjan : Type 0 where
  pub stack : List ℕ
  pub counter : ℕ
  pub index : List (ℕ × ℕ)
  pub on_stack : List (ℕ × Bool)
  pub lowlink : List (ℕ × ℕ)
  pub scc_vec : List (List ℕ)

abbrev pub min : ℕ → ℕ → ℕ
min a b = if ltb b a then b else a

-- What a call does before its loop.
unfoldable pub enter : ℕ → Tarjan → Tarjan
enter v s = record s {
  index = store v s.counter s.index;
  lowlink = store v s.counter s.lowlink;
  counter = suc s.counter;
  on_stack = store v true s.on_stack;
  stack = v ∷ s.stack;
}

-- `lowlink.at(v) = std::min(lowlink.at(v), link)`
unfoldable pub lower_link : ℕ → ℕ → Tarjan → Result Tarjan
lower_link v link s = do
  low ← required (lookup v s.lowlink) out_of_range
  ok (record s { lowlink = store v (min low link) s.lowlink })

-- The loop that pops the stack down to `v`; reading the back of an empty vector is undefined.
unfoldable pub pop_until :
    ℕ → List ℕ → List (ℕ × Bool) → List ℕ → Result (List ℕ × List (ℕ × Bool) × List ℕ)
pop_until v [] on_stack scc = fail empty_stack
pop_until v (w ∷ stack) on_stack scc =
    let rest = pop_until v stack (store w false on_stack) (scc ++ w ∷ []) in
    if w == v then ok (stack, store w false on_stack, scc ++ w ∷ []) else rest

unfoldable pub pop_component : ℕ → Tarjan → Result Tarjan
unfolding pop_until
pop_component v s = do
  (stack, on_stack, scc) ← pop_until v s.stack s.on_stack []
  ok (record s { stack = stack; on_stack = on_stack; scc_vec = s.scc_vec ++ scc ∷ [] })

-- What a call does behind its loop.
unfoldable pub close : ℕ → Tarjan → Result Tarjan
unfolding pop_component
close v s = do
  low ← required (lookup v s.lowlink) out_of_range
  i ← required (lookup v s.index) out_of_range
  let popped = pop_component v s
  if low == i then popped else ok s

-- A round of the loop over the edges, where `call` is the recursive call.
unfoldable pub connect_neighbor : (ℕ → Tarjan → Result Tarjan) → ℕ → ℕ → Tarjan → Result Tarjan
unfolding lower_link
connect_neighbor call v n s =
    let descended = (do
      t ← call n s
      link ← required (lookup n t.lowlink) out_of_range
      lower_link v link t) in
    let seen = (do
      on ← required (lookup n s.on_stack) out_of_range
      let lowered = (do link ← required (lookup n s.index) out_of_range; lower_link v link s)
      if on then lowered else ok s) in
    if has_key n s.index then seen else descended

unfoldable pub connect_neighbors :
    (ℕ → Tarjan → Result Tarjan) → ℕ → List ℕ → Tarjan → Result Tarjan
connect_neighbors call v [] s = ok s
connect_neighbors call v (n ∷ ns) s = connect_neighbor call v n s >>= connect_neighbors call v ns

module _ {S X C : Type 0} (sets : ConvexSets S X C) (g : GraphOfConfigs S C) where
  open sets use {vertices, outgoing_edges, head}

  unfoldable pub heads : List ℕ → List ℕ
  heads [] = []
  heads (e ∷ es) = head g.base e ∷ heads es

  -- Each call enters another vertex, so the calls nest no deeper than there are vertices.
  unfoldable pub strongconnect : ℕ → ℕ → Tarjan → Result Tarjan
  unfolding heads
  strongconnect zero v s = fail out_of_fuel
  strongconnect (suc fuel) v s =
      connect_neighbors (strongconnect fuel) v (heads (outgoing_edges g.base v)) (enter v s)
      >>= close v

  unfoldable pub connect_all : ℕ → List ℕ → Tarjan → Result Tarjan
  connect_all fuel [] s = ok s
  connect_all fuel (v ∷ vs) s =
      let connected = strongconnect fuel v s in
      (if has_key v s.index then ok s else connected) >>= connect_all fuel vs

  -- `CalcStronglyConnectedComponents`
  unfoldable pub calc_strongly_connected_components : Result (List (List ℕ))
  calc_strongly_connected_components = do
    s ←
        connect_all (suc (length (vertices g.base))) (vertices g.base)
          record { stack = []; counter = 0; index = []; on_stack = []; lowlink = []; scc_vec = [] }
    ok s.scc_vec
