-- ===== src/Motion/Graph/Components/Steps.antt =====
-- The steps of `strongconnect` keep the split of the vertices that were visited.
use planning_service.Prelude.{
  ℕ, ◌≤◌, ◌≡◌, refl, subst, ap, ◌∙◌, sym, true, false, ◌==◌, ◌||◌, List, [], ◌∷◌, ◌++◌, length,
  length-append, some, number_key, arith, inl, inr,
}
use planning_service.Prelude.Tests.{Bool-cases, ==_iff}
use planning_service.Prelude.Maps.{lookup, store, has_key, lookup-store}
use planning_service.Prelude.Sets.{contains}
use mathlib.Core.List.{append_assoc}
use planning_service.Motion.Graph.{ok}
use planning_service.Motion.Graph.Lowest.{contains-append}
use planning_service.Motion.Graph.Relax.{Once}
use planning_service.Motion.Graph.Components.{Tarjan, enter, lower_link, pop_component, close, min}
use planning_service.Motion.Graph.Components.Split.{
  flatten, number, size, Inv, Grows, has_key-store, flatten-append, Once-append, Once-parts,
  Once-apart, clear, lookup-clear, pop_until-append,
}

module _ (V : List ℕ) (base : ℕ) where
  enter-Inv :
      (v : ℕ) (s : Tarjan)
      → Inv V base s
      → has_key v s.index ≡ false
      → contains v V ≡ true
      → Inv V base (enter v s)
  unfolding enter contains
  enter-Inv v s inv new inside = record {
    seen = λ w. ground (arith, inv.seen w, has_key-store v w s.counter s.index);
    apart = λ w m. ground (arith, inv.apart w, inv.seen v, ==_iff v w);
    once_stack = ground (arith, inv.seen v, inv.once_stack);
    once_done = inv.once_done;
    inside = λ w m. ground (arith, inv.inside w, has_key-store v w s.counter s.index);
    on = λ w m.
        ground
          (arith, inv.on w, has_key-store v w s.counter s.index, lookup-store v w true s.on_stack);
    linked = λ w m. ground (
      arith,
      inv.linked w,
      has_key-store v w s.counter s.index,
      lookup-store v w s.counter s.lowlink,
    );
    floor = λ w m. ground (
      arith,
      inv.floor w,
      inv.counted,
      lookup-store v w s.counter s.index,
      lookup-store v w s.counter s.lowlink,
    );
    counted = ground (arith, inv.counted);
  }

  -- The loop of a call for `v` from `s` to `t`.
  pub record Loop (v : ℕ) (s t : Tarjan) : Type 0 where
    pub inv : Inv V base t
    pub entered : has_key v t.index ≡ true
    pub low : number (lookup v t.lowlink) ≤ number (lookup v t.index)
    pub keys : (w : ℕ) → has_key w s.index ≡ true → has_key w t.index ≡ true
    pub same_index : (w : ℕ) → has_key w s.index ≡ true → lookup w t.index ≡ lookup w s.index
    pub same_link :
        (w : ℕ)
        → has_key w s.index ≡ true
        → (v == w) ≡ false
        → lookup w t.lowlink ≡ lookup w s.lowlink
    pub top : List ℕ
    pub stacked : t.stack ≡ top ++ s.stack
    pub larger : size s ≤ size t

  pub enter-Loop :
      (v : ℕ) (s : Tarjan)
      → Inv V base s
      → has_key v s.index ≡ false
      → contains v V ≡ true
      → Loop v (enter v s) (enter v s)
  unfolding enter
  enter-Loop v s inv new inside = record {
    inv = enter-Inv v s inv new inside;
    entered = ground (arith, has_key-store v v s.counter s.index);
    low = ground (arith, lookup-store v v s.counter s.index, lookup-store v v s.counter s.lowlink);
    keys = λ w m. m;
    same_index = λ w m. refl;
    same_link = λ w m ne. refl;
    top = [];
    stacked = refl;
    larger = omega arith;
  }

  -- A link that is lowered to one above the bottom of the stack.
  pub lower_link-Loop :
      (v link : ℕ) (s t : Tarjan)
      → Loop v s t
      → base ≤ link
      → (r : Tarjan) × (lower_link v link t ≡ ok r) × Loop v s r
  unfolding lower_link
  lower_link-Loop v link s t loop above =
      let inv = loop.inv in
      let entered = loop.entered in
      let linked = inv.linked v entered in
      let l = number (lookup v t.lowlink) in
      (
        record t { lowlink = store v (min l link) t.lowlink },
        rw linked refl,
        record {
          inv = record {
            seen = inv.seen;
            apart = inv.apart;
            once_stack = inv.once_stack;
            once_done = inv.once_done;
            inside = inv.inside;
            on = inv.on;
            linked = λ w m. ground (arith, inv.linked w, lookup-store v w (min l link) t.lowlink);
            floor = λ w m.
                ground (arith, inv.floor w, ==_iff v w, lookup-store v w (min l link) t.lowlink);
            counted = inv.counted;
          };
          entered = entered;
          low = ground (arith, loop.low, lookup-store v v (min l link) t.lowlink);
          keys = loop.keys;
          same_index = loop.same_index;
          same_link =
              λ w m ne. ground (arith, loop.same_link w m, lookup-store v w (min l link) t.lowlink);
          top = loop.top;
          stacked = loop.stacked;
          larger = loop.larger;
        },
      )

  -- What a call for `v` from `s` gives.
  pub record Visit (v : ℕ) (s t : Tarjan) : Type 0 where
    pub inv : Inv V base t
    pub grows : Grows s t
    pub entered : has_key v t.index ≡ true
    pub above : base ≤ number (lookup v t.lowlink)
    pub bottom : base ≡ s.counter → t.stack ≡ s.stack

  pub visited-Loop : (v n : ℕ) (s t r : Tarjan) → Loop v s t → Visit n t r → Loop v s r
  visited-Loop v n s t r loop visit =
      let grows = visit.grows in
      record {
        inv = visit.inv;
        entered = grows.keys v loop.entered;
        low = ground (arith, loop.low, loop.entered, grows.same_index v, grows.same_link v);
        keys = λ w m. grows.keys w (loop.keys w m);
        same_index = λ w m. grows.same_index w (loop.keys w m) ∙ loop.same_index w m;
        same_link = λ w m ne. grows.same_link w (loop.keys w m) ∙ loop.same_link w m ne;
        top = grows.top ++ loop.top;
        stacked =
            grows.stacked
            ∙ ap (λ (x : List ℕ). grows.top ++ x) loop.stacked
            ∙ sym (append_assoc grows.top loop.top s.stack);
        larger = omega (arith, loop.larger, grows.larger);
      }

  -- The stack is popped down to `v`.
  abbrev popped : ℕ → List ℕ → List ℕ → Tarjan → Tarjan
  popped v top rest t = record t {
    stack = rest;
    on_stack = clear (top ++ v ∷ []) t.on_stack;
    scc_vec = t.scc_vec ++ (top ++ v ∷ []) ∷ [];
  }

  module _ (v : ℕ) (top rest : List ℕ) (t : Tarjan) (inv : Inv V base t)
      (stacked : t.stack ≡ top ++ v ∷ rest) where
    split_stack : (w : ℕ) → contains w t.stack ≡ (contains w (top ++ v ∷ []) || contains w rest)
    split_stack w =
        ap (contains w) (stacked ∙ sym (append_assoc top (v ∷ []) rest))
        ∙ contains-append w (top ++ v ∷ []) rest

    split_done :
        (w : ℕ)
        → contains w (flatten (t.scc_vec ++ (top ++ v ∷ []) ∷ []))
          ≡ (contains w (flatten t.scc_vec) || contains w (top ++ v ∷ []))
    split_done w =
        ap (contains w) (flatten-append t.scc_vec (top ++ v ∷ []))
        ∙ contains-append w (flatten t.scc_vec) (top ++ v ∷ [])

    stack_parts : Once ((top ++ v ∷ []) ++ rest)
    stack_parts = subst Once (stacked ∙ sym (append_assoc top (v ∷ []) rest)) inv.once_stack

    popped-Inv : Inv V base (popped v top rest t)
    popped-Inv = record {
      seen = λ w. ground (arith, inv.seen w, split_stack w, split_done w);
      apart = λ w m. ground (
        arith,
        inv.apart w,
        split_stack w,
        split_done w,
        Once-apart (top ++ v ∷ []) rest stack_parts w,
      );
      once_stack = (Once-parts (top ++ v ∷ []) rest stack_parts).1;
      once_done = subst Once (sym (flatten-append t.scc_vec (top ++ v ∷ []))) (
          Once-append (flatten t.scc_vec) (top ++ v ∷ []) inv.once_done
            (Once-parts (top ++ v ∷ []) rest stack_parts).0
            (λ w m. ground (arith, inv.apart w, split_stack w)));
      inside = inv.inside;
      on = λ w m. ground (
        arith,
        inv.on w,
        split_stack w,
        lookup-clear (top ++ v ∷ []) t.on_stack w,
        Once-apart (top ++ v ∷ []) rest stack_parts w,
      );
      linked = inv.linked;
      floor = λ w m. inv.floor w (ground (arith, split_stack w));
      counted = inv.counted;
    }

    popped-size : size (popped v top rest t) ≡ size t
    popped-size = omega (
      arith,
      ap length (flatten-append t.scc_vec (top ++ v ∷ [])),
      length-append (flatten t.scc_vec) (top ++ v ∷ []),
      length-append top (v ∷ []),
      ap length stacked,
      length-append top (v ∷ rest),
    )

    not_above : contains v top ≡ false
    unfolding contains
    not_above = ground (arith, Once-apart top (v ∷ rest) (subst Once stacked inv.once_stack) v)

    pops : pop_component v t ≡ ok (popped v top rest t)
    unfolding pop_component
    pops = rw (stacked, pop_until-append v top rest t.on_stack [] not_above) refl

  -- The end of a call that leaves its vertex on the stack, and of one that pops its component.
  module _ (v : ℕ) (s t : Tarjan) (new : has_key v s.index ≡ false)
      (loop : Loop v (enter v s) t) where
    entered_index : lookup v t.index ≡ some s.counter
    unfolding enter
    entered_index = ground (
      arith,
      loop.same_index v,
      has_key-store v v s.counter s.index,
      lookup-store v v s.counter s.index,
    )

    entered_stack : t.stack ≡ loop.top ++ v ∷ s.stack
    unfolding enter
    entered_stack = loop.stacked

    on_top : contains v t.stack ≡ true
    unfolding contains
    on_top = ground (arith, ap (contains v) entered_stack, contains-append v loop.top (v ∷ s.stack))

    left-Grows : Grows s t
    unfolding enter
    left-Grows = record {
      keys = λ w m. loop.keys w (ground (arith, has_key-store v w s.counter s.index));
      same_index = λ w m. ground (
        arith,
        loop.same_index w,
        new,
        ==_iff v w,
        has_key-store v w s.counter s.index,
        lookup-store v w s.counter s.index,
      );
      same_link = λ w m. ground (
        arith,
        loop.same_link w,
        new,
        ==_iff v w,
        has_key-store v w s.counter s.index,
        lookup-store v w s.counter s.lowlink,
      );
      top = loop.top ++ v ∷ [];
      stacked = entered_stack ∙ sym (append_assoc loop.top (v ∷ []) s.stack);
      larger = omega (arith, loop.larger);
    }

    abbrev done : Tarjan
    done = popped v loop.top s.stack t

    done-Grows : Grows s done
    done-Grows = record {
      keys = left-Grows.keys;
      same_index = left-Grows.same_index;
      same_link = left-Grows.same_link;
      top = [];
      stacked = refl;
      larger =
          omega (arith, left-Grows.larger, popped-size v loop.top s.stack t loop.inv entered_stack);
    }

    pub close-Visit : (r : Tarjan) × (close v t ≡ ok r) × Visit v s r
    unfolding close
    close-Visit =
        let inv = loop.inv in
        let linked = inv.linked v loop.entered in
        let floor = inv.floor v on_top in
        let l = number (lookup v t.lowlink) in
        elim (Bool-cases (l == s.counter)) [
          | inl same ↦ (
            done,
            rw (linked, entered_index, same) (pops v loop.top s.stack t loop.inv entered_stack),
            record {
              inv = popped-Inv v loop.top s.stack t loop.inv entered_stack;
              grows = done-Grows;
              entered = loop.entered;
              above = floor.1;
              bottom = λ e. refl;
            },
          )
          | inr other ↦ (
            t,
            rw (linked, entered_index, other) refl,
            record {
              inv = inv;
              grows = left-Grows;
              entered = loop.entered;
              above = floor.1;
              bottom = λ e. absurd (ground (arith, floor, loop.low, entered_index));
            },
          )
        ]
