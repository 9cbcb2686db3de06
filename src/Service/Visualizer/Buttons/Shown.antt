-- ===== src/Service/Visualizer/Buttons/Shown.antt =====
-- After `AddButton` the buttons that Meshcat shows are those of the order.
use planning_service.Prelude.{
  ℕ, String, Bool, true, false, not, ◌||◌, ◌&&◌, List, [], ◌∷◌, Option, none, some, ◌≡◌, refl,
  arith, text_key, same_key, same_key_iff, if◌then◌else◌, ◌∙◌, length, All, zero, suc,
}
use planning_service.Prelude.Int.{ℤ}
use planning_service.Prelude.Sets.{contains}
use planning_service.Prelude.Maps.{has_key}
use planning_service.Service.Error.{Outcome, returns, throws}
use planning_service.Service.Action.{Done, pure, throw, resume, ◌>>=◌, ◌>>◌, for_each, then_returns}
use planning_service.Service.Visualizer.{
  VisualizerHub, Meshcats, need_draco, need_draco-some, on_meshcat,
}
use planning_service.Service.Visualizer.Buttons.{
  place, insert_at, invalid_index, delete_shown, show_button, show_buttons, reset_buttons,
  set_order, insert_button, add_button_at,
}

-- No name stands twice.
abbrev pub Unique : List String → Type 0
Unique [] = Unit
Unique (n ∷ names) = (contains n names ≡ false) × Unique names

module _ {ℓ} {A D W Q X C I : Type ℓ} (meshcats : Meshcats A D W Q X C I) where
  open meshcats use {button_names, add_button, delete_button}

  -- Drake's Meshcat: names are unique, a button that is shown can be deleted, and a button without
  -- a key can be added, also again.
  pub record ButtonLaws : Type ℓ where
    pub names-Unique : (w : W) → Unique (button_names w)
    pub delete :
        (n : String) (w : W)
        → contains n (button_names w) ≡ true
        → (w' : W) × (delete_button n w ≡ returns w')
          × ((m : String)
              → contains m (button_names w')
                ≡ (if same_key n m then false else contains m (button_names w)))
    pub add :
        (n : String) (w : W)
        → (w' : W) × (add_button n "" w ≡ returns w')
          × ((m : String)
              → contains m (button_names w') ≡ (same_key n m || contains m (button_names w)))

has_key-insert_at :
    (p : ℕ) (name key m : String) (buttons : List (String × String))
    → has_key m (insert_at p (name, key) buttons) ≡ (same_key name m || has_key m buttons)
unfolding has_key insert_at
has_key-insert_at zero name key m buttons = refl
has_key-insert_at (suc p) name key m [] = refl
has_key-insert_at (suc p) name key m ((n, k) ∷ buttons) =
    ground (arith, has_key-insert_at p name key m buttons)

insert_at-All :
    (p : ℕ) (name : String) (buttons : List (String × String))
    → All (λ b. b.1 ≡ "") buttons
    → All (λ b. b.1 ≡ "") (insert_at p (name, "") buttons)
unfolding insert_at
insert_at-All zero name buttons all = (refl, all)
insert_at-All (suc p) name [] all = (refl, tt)
insert_at-All (suc p) name (b ∷ buttons) all = (all.0, insert_at-All p name buttons all.1)

module _ {ℓ} {A D W Q X C I : Type ℓ} (meshcats : Meshcats A D W Q X C I)
    (laws : ButtonLaws meshcats) where
  open meshcats use {button_names, add_button, delete_button}

  -- A call that returns, and leaves the hub as it is but for a Meshcat that shows the names that
  -- `f` accepts.
  abbrev Shows :
      VisualizerHub A D W Q X I
      → D
      → (String → Bool)
      → Outcome Done × VisualizerHub A D W Q X I
      → Type ℓ
  Shows hub model f x =
      (w : W) × (x
        ≡ (returns tt, record hub { draco = some (record { model = model; meshcat = w }) }))
      × ((m : String) → contains m (button_names w) ≡ f m)

  -- The hub with another Meshcat.
  abbrev showing : VisualizerHub A D W Q X I → D → W → VisualizerHub A D W Q X I
  showing hub model w = record hub { draco = some (record { model = model; meshcat = w }) }

  still_shown :
      (n : String) (names shown shown' : List String)
      → contains n names ≡ false
      → ((m : String) → contains m shown' ≡ (if same_key n m then false else contains m shown))
      → All (λ m. contains m shown ≡ true) names
      → All (λ m. contains m shown' ≡ true) names
  unfolding contains
  still_shown n [] shown shown' a h all = tt
  still_shown n (m ∷ names) shown shown' a h all = (
    ground (arith, h m, same_key_iff n m, same_key_iff m n),
    still_shown n names shown shown' (ground arith) h all.1,
  )

  shown_each :
      (names shown : List String)
      → ((m : String) → contains m names ≡ true → contains m shown ≡ true)
      → All (λ m. contains m shown ≡ true) names
  unfolding contains
  shown_each [] shown h = tt
  shown_each (n ∷ names) shown h =
      (h n (ground (arith, same_key_iff n n)), shown_each names shown (λ m e. h m (ground arith)))

  delete_each :
      (hub : VisualizerHub A D W Q X I) (model : D) (w : W) (names : List String)
      → Unique names
      → All (λ n. contains n (button_names w) ≡ true) names
      → Shows hub model
          (λ m. contains m (button_names w) && not (contains m names))
          (for_each names (delete_shown meshcats) (showing hub model w))
  unfolding for_each delete_shown on_meshcat pure ◌>>◌ resume contains
  delete_each hub model w [] u all = (w, refl, (λ m. ground arith))
  delete_each hub model w (n ∷ names) u all =
      let (w', e, shown) = laws.delete n w all.0 in
      let (w'', e', shown') =
        delete_each hub model w' names u.1 (still_shown n names _ _ u.0 shown all.1) in
      (w'', rw e e', (λ m. ground (arith, shown m, shown' m)))

  add_each :
      (hub : VisualizerHub A D W Q X I) (model : D) (w : W) (buttons : List (String × String))
      → All (λ b. b.1 ≡ "") buttons
      → Shows hub model
          (λ m. has_key m buttons || contains m (button_names w))
          (for_each buttons (show_button meshcats) (showing hub model w))
  unfolding for_each show_button on_meshcat pure ◌>>◌ resume has_key
  add_each hub model w [] all = (w, refl, (λ m. ground arith))
  add_each hub model w ((n, key) ∷ buttons) all =
      let (w', e, shown) = laws.add n w in
      let (w'', e', shown') = add_each hub model w' buttons all.1 in
      (w'', rw (all.0, e) e', (λ m. ground (arith, shown m, shown' m)))

  reset_buttons-Shows :
      (hub : VisualizerHub A D W Q X I) (model : D) (w : W)
      → All (λ b. b.1 ≡ "") hub.button_order
      → Shows hub model
          (λ m. has_key m hub.button_order)
          (reset_buttons meshcats (showing hub model w))
  unfolding reset_buttons need_draco show_buttons ◌>>=◌ ◌>>◌ resume
  reset_buttons-Shows hub model w all =
      let (w', e, shown) =
        delete_each hub model w (button_names w) (laws.names-Unique w)
          (shown_each (button_names w) (button_names w) λ m h. h) in
      let (w'', e', shown') = add_each hub model w' hub.button_order all in
      (w'', rw e e', (λ m. ground (arith, shown m, shown' m)))

  -- How `AddButton` ends on a hub that shows `model` in the Meshcat `w`, over the place that the index
  -- stands for.
  pub data IsAdded (hub : VisualizerHub A D W Q X I) (model : D) (name : String) (i : ℤ)
      : Option ℕ → Outcome Done × VisualizerHub A D W Q X I → Type ℓ where
    invalid :
        IsAdded hub model name i none (throws (invalid_index i (length hub.button_order)), hub)
    added :
        (p : ℕ) (w : W)
        → ((m : String)
            → contains m (button_names w) ≡ (same_key name m || has_key m hub.button_order))
        → IsAdded hub model name i (some p) (
          returns tt,
          record hub {
            draco = some (record { model = model; meshcat = w });
            button_order = insert_at p (name, "") hub.button_order;
          },
        )

  insert_button-IsAdded :
      (hub : VisualizerHub A D W Q X I) (model : D) (w : W) (name : String) (i : ℤ) (o : Option ℕ)
      → hub.draco ≡ some (record { model = model; meshcat = w })
      → All (λ b. b.1 ≡ "") hub.button_order
      → IsAdded hub model name i o (insert_button meshcats o i name "" hub)
  unfolding insert_button throw set_order ◌>>◌ resume
  insert_button-IsAdded hub model w name i none e all = invalid
  insert_button-IsAdded hub model w name i (some p) e all =
      let (w', e', shown) =
        reset_buttons-Shows (record hub { button_order = insert_at p (name, "") hub.button_order })
          model w (insert_at-All p name hub.button_order all) in
      rw (e, e') (added p w' (λ m. shown m ∙ has_key-insert_at p name "" m hub.button_order))

  -- `AddButton` without a key on a hub with a model, all of whose buttons are without a key. An index
  -- outside of the order throws and changes nothing. Any other puts the button at that place of the
  -- order, and afterwards Meshcat shows it and the buttons that were in the order, and no others.
  pub add_button_at-IsAdded :
      (hub : VisualizerHub A D W Q X I) (model : D) (w : W) (name : String) (i : ℤ)
      → hub.draco ≡ some (record { model = model; meshcat = w })
      → All (λ b. b.1 ≡ "") hub.button_order
      → IsAdded hub model name i
          (place i (length hub.button_order))
          (add_button_at meshcats name i "" hub)
  unfolding add_button_at
  add_button_at-IsAdded hub model w name i e all =
      rw (then_returns need_draco _ (need_draco-some hub _ e))
        (insert_button-IsAdded hub model w name i _ e all)
