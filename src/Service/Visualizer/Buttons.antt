-- ===== src/Service/Visualizer/Buttons.antt =====
-- The buttons of the hub (visualizer_hub.h), kept in order by deleting and adding them all.
pub mod Shown
use planning_service.Prelude.{
  ℕ, ◌-◌, ◌+◌, String, Bool, true, false, List, [], ◌∷◌, ◌++◌, length, text_key, same_key, zero,
  suc, Option, none, some, if◌then◌else◌, ltb, leb,
}
use planning_service.Prelude.Int.{ℤ, pos, negsuc}
use planning_service.Prelude.Format.{◌<>◌, decimal}
use planning_service.Prelude.Sets.{contains}
use planning_service.Service.Error.{Outcome, returns, throws, Exception, runtime_error}
use planning_service.Service.Action.{Action, Done, pure, throw, ◌>>=◌, ◌>>◌, for_each}
use planning_service.Service.Visualizer.{VisualizerHub, Meshcats, need_draco, on_meshcat}

-- The place in the order that an index stands for: from the end where it is negative. `none` is
-- outside of the order.
abbrev pub place : ℤ → ℕ → Option ℕ
place (pos i) n = if leb i n then some i else none
place (negsuc k) n = if leb k n then some (n - k) else none

-- `vector::insert`
pub insert_at {ℓ} : {B : Type ℓ} → ℕ → B → List B → List B
insert_at zero b bs = b ∷ bs
insert_at (suc i) b [] = b ∷ []
insert_at (suc i) b (c ∷ bs) = c ∷ insert_at i b bs

-- `std::remove_if` and `erase` on the names.
pub remove_button : String → List (String × String) → List (String × String)
remove_button name [] = []
remove_button name ((n, key) ∷ buttons) =
    let rest = remove_button name buttons in if same_key n name then rest else (n, key) ∷ rest

abbrev pub signed_decimal : ℤ → String
signed_decimal (pos i) = decimal i
signed_decimal (negsuc k) = "-" <> decimal (suc k)

abbrev pub invalid_index : ℤ → ℕ → Exception
invalid_index i n =
    runtime_error
      ("Invalid button index: " <> signed_decimal i <> " for button order of size " <> decimal n)

module _ {ℓ} {A D W Q X I : Type ℓ} where
  unfoldable pub set_order : List (String × String) → Action (VisualizerHub A D W Q X I) Done
  set_order order hub = (returns tt, record hub { button_order = order })

module _ {ℓ} {A D W Q X C I : Type ℓ} (meshcats : Meshcats A D W Q X C I) where
  open meshcats use {button_names, add_button, delete_button}

  unfoldable pub has_button : String → Action (VisualizerHub A D W Q X I) Bool
  has_button name = do live ← need_draco; pure (contains name (button_names live.meshcat))

  unfoldable pub delete_shown : String → Action (VisualizerHub A D W Q X I) Done
  delete_shown name = on_meshcat (delete_button name)

  unfoldable pub show_button : String × String → Action (VisualizerHub A D W Q X I) Done
  show_button (name, keycode) = on_meshcat (add_button name keycode)

  -- The second loop of `ResetButtons`, over the order at that time.
  unfoldable pub show_buttons : Action (VisualizerHub A D W Q X I) Done
  show_buttons hub = for_each hub.button_order show_button hub

  unfoldable pub reset_buttons : Action (VisualizerHub A D W Q X I) Done
  reset_buttons = do
    live ← need_draco
    for_each (button_names live.meshcat) delete_shown
    show_buttons

  unfoldable pub delete_button_named : String → Action (VisualizerHub A D W Q X I) Done
  delete_button_named name hub =
      (need_draco >> set_order (remove_button name hub.button_order) >> delete_shown name) hub

  unfoldable pub insert_button :
      Option ℕ → ℤ → String → String → Action (VisualizerHub A D W Q X I) Done
  insert_button none i name keycode hub = throw (invalid_index i (length hub.button_order)) hub
  insert_button (some p) i name keycode hub =
      (set_order (insert_at p (name, keycode) hub.button_order) >> reset_buttons) hub

  unfoldable pub add_button_at : String → ℤ → String → Action (VisualizerHub A D W Q X I) Done
  add_button_at name i keycode hub =
      (need_draco >> insert_button (place i (length hub.button_order)) i name keycode) hub
