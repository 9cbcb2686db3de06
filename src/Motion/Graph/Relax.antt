-- ===== src/Motion/Graph/Relax.antt =====
-- The invariant of the search, and the loop over the outgoing edges. `closed` lists the vertices
-- that were expanded, the last one first; `F` is the score of the last one.
use planning_service.Prelude.{
  ℕ, ◌+◌, ◌≤◌, ◌≡◌, subst, true, false, List, [], ◌∷◌, ◌++◌, some, none, arith, number_key, inl,
  inr, if◌then◌else◌, ◌==◌,
}
use planning_service.Prelude.Tests.{Bool-cases, ==_iff}
use planning_service.Prelude.Maps.{lookup, store, lookup-store}
use planning_service.Prelude.Sets.{contains}
use planning_service.Motion.Graph.{Cost, less, ConvexSets, GraphOfConfigs}
use planning_service.Motion.Graph.Search.{score, Search}
use planning_service.Motion.Graph.Walks.{Contains, Edge}
use planning_service.Motion.Graph.Lowest.{score-store, contains-append}

abbrev pub cost_value : Cost → ℕ
cost_value (some c) = c
cost_value none = 0

abbrev pub Once : List ℕ → Type 0
Once [] = Unit
Once (v ∷ vs) = (contains v vs ≡ false) × Once vs

-- The cost of the best walk found to `v`.
abbrev pub found : Search → ℕ → ℕ
found s v = cost_value (score s.g_score v)

module _ {S X C : Type 0} (sets : ConvexSets S X C) (g : GraphOfConfigs S C) (start : ℕ)
    (h : ℕ → ℕ) where
  open sets use {vertices, outgoing_edges, head}

  pub record IsKnown (s : Search) (v : ℕ) : Type 0 where
    pub inside : Contains sets (vertices g.base) v
    pub g_is : score s.g_score v ≡ some (found s v)
    pub f_is : score s.f_score v ≡ some (found s v + h v)

  -- How `v` was reached: it is the start, or from an expanded vertex.
  pub data Parent (s : Search) (closed : List ℕ) (v : ℕ) : Type 0 where
    root : v ≡ start → Parent s closed v
    link :
        (p c : ℕ)
        → lookup v s.came_from ≡ some p
        → Contains sets closed p
        → Edge sets g p v c
        → found s v ≡ found s p + c
        → Parent s closed v

  abbrev pub Tree : Search → List ℕ → Type 0
  Tree s [] = Unit
  Tree s (v ∷ closed) = Parent s closed v × Tree s closed

  pub record Inv (F : ℕ) (closed : List ℕ) (s : Search) : Type 0 where
    pub apart : (v : ℕ) → Contains sets s.open_set v → contains v closed ≡ false
    pub open_known : (v : ℕ) → Contains sets s.open_set v → IsKnown s v
    pub closed_known : (v : ℕ) → Contains sets closed v → IsKnown s v
    pub unknown :
        (v : ℕ)
        → Contains sets (vertices g.base) v
        → contains v s.open_set ≡ false
        → contains v closed ≡ false
        → score s.g_score v ≡ none
    pub low : (v : ℕ) → Contains sets closed v → found s v + h v ≤ F
    pub high : (v : ℕ) → Contains sets s.open_set v → F ≤ found s v + h v
    pub parents : (v : ℕ) → Contains sets s.open_set v → Parent s closed v
    pub tree : Tree s closed
    pub at_start : score s.g_score start ≡ some 0
    pub once : Once closed

  -- The state after a neighbor was reached at a lower cost.
  abbrev pub improved : Search → ℕ → ℕ → ℕ → Search
  improved s u x t = record {
    open_set = if contains x s.open_set then s.open_set else s.open_set ++ x ∷ [];
    came_from = store x u s.came_from;
    g_score = store x (some t) s.g_score;
    f_score = store x (some (t + h x)) s.f_score;
  }

  module _ (s : Search) (u x t : ℕ) where
    pub found-improved : (v : ℕ) → found (improved s u x t) v ≡ (if x == v then t else found s v)
    found-improved v = ground (arith, score-store x v (some t) s.g_score)

    open-improved :
        (v : ℕ)
        → contains v (improved s u x t).open_set ≡ (if x == v then true else contains v s.open_set)
    unfolding contains
    open-improved v = ground (arith, contains-append v s.open_set (x ∷ []))

    pub IsKnown-improved : (v : ℕ) → IsKnown s v → IsKnown (improved s u x t) v
    IsKnown-improved v k =
        ground
          (arith, score-store x v (some t) s.g_score, score-store x v (some (t + h x)) s.f_score)

    Parent-improved :
        (closed : List ℕ) (v : ℕ)
        → contains x closed ≡ false
        → (x ≡ v → ⊥)
        → Parent s closed v
        → Parent (improved s u x t) closed v
    Parent-improved closed v out other (root e) = root e
    Parent-improved closed v out other (link p c from m e d) =
        link p c (ground (arith, lookup-store x v u s.came_from)) m e
          (ground (arith, found-improved v, found-improved p))

    Tree-improved :
        (closed : List ℕ)
        → contains x closed ≡ false
        → Tree s closed
        → Tree (improved s u x t) closed
    unfolding contains
    Tree-improved [] out tree = tt
    Tree-improved (v ∷ closed) out tree = (
      Parent-improved closed v (ground arith) (λ e. ground arith) tree.0,
      Tree-improved closed (ground arith) tree.1,
    )

  -- A neighbor that is reached at a lower cost was not expanded, and the invariant is kept.
  module _ (F : ℕ) (closed : List ℕ) (s : Search) (u x c : ℕ) (inv : Inv F closed s)
      (expanded : Contains sets closed u) (last : F ≡ found s u + h u)
      (inside : Contains sets (vertices g.base) x) (edge : Edge sets g u x c)
      (consistent : h u ≤ c + h x)
      (lower : less (some (found s u + c)) (score s.g_score x) ≡ true) where
    pub fresh : contains x closed ≡ false
    fresh = elim (Bool-cases (contains x closed)) [
      | inl old ↦
          let known = inv.closed_known x old in let is = known.g_is in ground (arith, inv.low x old)
      | inr new ↦ new
    ]

    not_start : start ≡ x → ⊥
    not_start e = let at_start = inv.at_start in ground (arith)

    abbrev pub next : Search
    next = improved s u x (found s u + c)

    pub here-IsKnown : IsKnown next x
    here-IsKnown = ground (
      arith,
      score-store x x (some (found s u + c)) s.g_score,
      score-store x x (some (found s u + c + h x)) s.f_score,
    )

    here-Parent : Parent next closed x
    here-Parent = link u c (ground (arith, lookup-store x x u s.came_from)) expanded edge (
        ground (
          arith,
          fresh,
          found-improved s u x (found s u + c) x,
          found-improved s u x (found s u + c) u,
        ))

    -- The neighbor, or another vertex that was open before.
    by_open :
        (P : ℕ → Type 0)
        → P x
        → ((v : ℕ) → (x ≡ v → ⊥) → Contains sets s.open_set v → P v)
        → (v : ℕ) → Contains sets next.open_set v
        → P v
    by_open P here other v o = elim (Bool-cases (x == v)) [
      | inl e ↦ subst P ((==_iff x v).0 e) here
      | inr ne ↦ other v (λ e. ground arith) (ground (arith, open-improved s u x (found s u + c) v))
    ]

    pub improved-Inv : Inv F closed next
    improved-Inv = record {
      apart = λ v o. ground (arith, fresh, inv.apart v, open-improved s u x (found s u + c) v);
      open_known =
          by_open (IsKnown next) here-IsKnown
            (λ v ne o. IsKnown-improved s u x (found s u + c) v (inv.open_known v o));
      closed_known = λ v m. IsKnown-improved s u x (found s u + c) v (inv.closed_known v m);
      unknown = λ v i o m. ground (
        arith,
        inv.unknown v i,
        open-improved s u x (found s u + c) v,
        score-store x v (some (found s u + c)) s.g_score,
      );
      low = λ v m. ground (arith, fresh, inv.low v m, found-improved s u x (found s u + c) v);
      high = λ v o. ground (
        arith,
        inv.high v,
        open-improved s u x (found s u + c) v,
        found-improved s u x (found s u + c) v,
      );
      parents =
          by_open (Parent next closed) here-Parent
            (λ v ne o. Parent-improved s u x (found s u + c) closed v fresh ne (inv.parents v o));
      tree = Tree-improved s u x (found s u + c) closed fresh inv.tree;
      at_start =
          ground
            (arith, inv.at_start, not_start, score-store x start (some (found s u + c)) s.g_score);
      once = inv.once;
    }
