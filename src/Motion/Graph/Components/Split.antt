-- ===== src/Motion/Graph/Components/Split.antt =====
-- What the steps of Tarjan's algorithm keep: each vertex that has an index is once on the stack or
-- once in a component.
use planning_service.Prelude.{
  ℕ, ◌+◌, ◌≤◌, ◌≡◌, refl, ap, ◌∙◌, sym, Bool, true, false, ◌==◌, ◌||◌, List, [], ◌∷◌, ◌++◌, length,
  Option, none, some, if◌then◌else◌, number_key, arith,
}
use planning_service.Prelude.Tests.{==_iff}
use planning_service.Prelude.Maps.{lookup, store, has_key, lookup-store, has_key-erase}
use planning_service.Prelude.Sets.{contains}
use mathlib.Core.List.{append-nil, append_assoc}
use planning_service.Motion.Graph.{ok}
use planning_service.Motion.Graph.Lowest.{contains-append}
use planning_service.Motion.Graph.Relax.{Once}
use planning_service.Motion.Graph.Components.{Tarjan, pop_until}

abbrev pub flatten : List (List ℕ) → List ℕ
flatten [] = []
flatten (c ∷ cs) = c ++ flatten cs

abbrev pub number : Option ℕ → ℕ
number (some n) = n
number none = 0

abbrev pub size : Tarjan → ℕ
size s = length s.stack + length (flatten s.scc_vec)

-- `base` is the index of the vertex at the bottom of the stack.
pub record Inv (V : List ℕ) (base : ℕ) (s : Tarjan) : Type 0 where
  pub seen : (v : ℕ) → has_key v s.index ≡ (contains v s.stack || contains v (flatten s.scc_vec))
  pub apart : (v : ℕ) → contains v s.stack ≡ true → contains v (flatten s.scc_vec) ≡ false
  pub once_stack : Once s.stack
  pub once_done : Once (flatten s.scc_vec)
  pub inside : (v : ℕ) → has_key v s.index ≡ true → contains v V ≡ true
  pub on : (v : ℕ) → has_key v s.index ≡ true → lookup v s.on_stack ≡ some (contains v s.stack)
  pub linked :
      (v : ℕ) → has_key v s.index ≡ true → lookup v s.lowlink ≡ some (number (lookup v s.lowlink))
  pub floor :
      (v : ℕ)
      → contains v s.stack ≡ true
      → (base ≤ number (lookup v s.index)) × (base ≤ number (lookup v s.lowlink))
  pub counted : base ≤ s.counter

-- What has an index keeps it and its link, and the stack grows on top.
pub record Grows (s t : Tarjan) : Type 0 where
  pub keys : (v : ℕ) → has_key v s.index ≡ true → has_key v t.index ≡ true
  pub same_index : (v : ℕ) → has_key v s.index ≡ true → lookup v t.index ≡ lookup v s.index
  pub same_link : (v : ℕ) → has_key v s.index ≡ true → lookup v t.lowlink ≡ lookup v s.lowlink
  pub top : List ℕ
  pub stacked : t.stack ≡ top ++ s.stack
  pub larger : size s ≤ size t

pub has_key-store {ℓ} :
    {A : Type ℓ} (k j : ℕ) (v : A) (m : List (ℕ × A))
    → has_key j (store k v m) ≡ (if k == j then true else has_key j m)
unfolding has_key store
has_key-store k j v m = ground (arith, has_key-erase k j m)

pub flatten-append : (cs : List (List ℕ)) (c : List ℕ) → flatten (cs ++ c ∷ []) ≡ flatten cs ++ c
flatten-append [] c = append-nil c
flatten-append (d ∷ cs) c =
    ap (λ (x : List ℕ). d ++ x) (flatten-append cs c) ∙ sym (append_assoc d (flatten cs) c)

pub Once-append :
    (xs ys : List ℕ)
    → Once xs
    → Once ys
    → ((v : ℕ) → contains v xs ≡ true → contains v ys ≡ false)
    → Once (xs ++ ys)
unfolding contains
Once-append [] ys a b apart = b
Once-append (x ∷ xs) ys a b apart = (
  ground (arith, contains-append x xs ys, apart x),
  Once-append xs ys a.1 b (λ v m. apart v (ground arith)),
)

pub Once-parts : (xs ys : List ℕ) → Once (xs ++ ys) → Once xs × Once ys
unfolding contains
Once-parts [] ys o = (tt, o)
Once-parts (x ∷ xs) ys o = ground (arith, contains-append x xs ys, Once-parts xs ys o.1)

pub Once-apart :
    (xs ys : List ℕ) → Once (xs ++ ys) → (v : ℕ) → contains v xs ≡ true → contains v ys ≡ false
unfolding contains
Once-apart [] ys o v m = cc
Once-apart (x ∷ xs) ys o v m =
    ground (arith, contains-append x xs ys, Once-apart xs ys o.1 v, ==_iff x v)

pub clear : List ℕ → List (ℕ × Bool) → List (ℕ × Bool)
clear [] m = m
clear (w ∷ ws) m = clear ws (store w false m)

pub lookup-clear :
    (ws : List ℕ) (m : List (ℕ × Bool)) (v : ℕ)
    → lookup v (clear ws m) ≡ (if contains v ws then some false else lookup v m)
unfolding clear contains
lookup-clear [] m v = refl
lookup-clear (w ∷ ws) m v =
    ground (arith, lookup-clear ws (store w false m) v, lookup-store w v false m)

pub pop_until-append :
    (v : ℕ) (top rest : List ℕ) (m : List (ℕ × Bool)) (scc : List ℕ)
    → contains v top ≡ false
    → pop_until v (top ++ v ∷ rest) m scc
      ≡ ok (rest, clear (top ++ v ∷ []) m, scc ++ (top ++ v ∷ []))
unfolding pop_until clear contains
pop_until-append v [] rest m scc out = ground arith
pop_until-append v (w ∷ top) rest m scc out =
    let other : (w == v) ≡ false = ground arith in
    rw (other) (
      pop_until-append v top rest (store w false m) (scc ++ w ∷ []) (ground arith)
      ∙ ap (λ (x : List ℕ). ok (rest, clear (top ++ v ∷ []) (store w false m), x))
          (append_assoc scc (w ∷ []) (top ++ v ∷ [])))
