-- ===== src/Service/Visualizer/Alive.antt =====
-- What keeps the model: nothing but a stop takes it away, so that the thread of `Run` never reads a
-- missing model.
pub mod Rounds
use planning_service.Prelude.{
  arith, ℕ, String, Bool, true, false, if◌then◌else◌, List, [], ◌∷◌, Option, none, some, ◌≡◌, refl,
}
use planning_service.Prelude.Int.{ℤ}
use planning_service.Service.Error.{Outcome, returns, throws, Exception}
use planning_service.Service.Action.{Action, Done, pure, throw, ◌>>=◌, ◌>>◌, for_each}
use planning_service.Service.Action.Keeps.{
  Keeps, bind-Keeps, then-Keeps, pure-Keeps, throw-Keeps, if-Keeps, option-Keeps,
}
use planning_service.Service.Visualizer.{
  VisualizerHub, VisualizerStatus, VisualizerOptions, Meshcats, Live, Frame, Command, need_draco,
  need, call, show, when, on_meshcat, queue_meshcat_task, draw_all,
}
use planning_service.Service.Visualizer.Buttons.{
  has_button, delete_shown, show_button, show_buttons, reset_buttons, set_order,
  delete_button_named, insert_button, add_button_at,
}
use planning_service.Service.Visualizer.Frames.{
  Axes, set_frame_axes, register_frame, hide_tree, setup_frame_axes, move_all, update_frame_axes,
}
use planning_service.Service.Visualizer.Configuration.{set_robot_stream_active}

abbrev pub has_model {ℓ} : {D W : Type ℓ} → Option (Live D W) → Bool
has_model none = false
has_model (some live) = true

-- There is a model, and the status is `s`.
unfoldable pub IsLive {ℓ} :
    {A D W Q X I : Type ℓ} → VisualizerStatus → VisualizerHub A D W Q X I → Type 0
IsLive s hub = (has_model hub.draco ≡ true) × (hub.status ≡ s)

for_each-Keeps {ℓ κ μ} :
    {S : Type ℓ} {B : Type κ} (P : S → Type μ) (bs : List B) (f : B → Action S Done)
    → ((b : B) → Keeps P (f b))
    → Keeps P (for_each bs f)
unfolding for_each
for_each-Keeps P [] f h = pure-Keeps P tt
for_each-Keeps P (b ∷ bs) f h = then-Keeps P _ _ (h b) (for_each-Keeps P bs f h)

module _ {ℓ} {A D W Q X I : Type ℓ} (s : VisualizerStatus) where
  abbrev pub Kept {κ} : {B : Type κ} → Action (VisualizerHub A D W Q X I) B → Type ℓ
  Kept m = Keeps (IsLive s) m

  pub need_draco-Keeps : Kept need_draco
  unfolding need_draco
  need_draco-Keeps hub h = h

  pub when-Keeps :
      (f : VisualizerOptions → Bool) (m : Action (VisualizerHub A D W Q X I) Done)
      → Kept m
      → Kept (when f m)
  unfolding when
  when-Keeps f m h hub =
      if-Keeps (IsLive s) (f hub.options) m (pure tt) h (pure-Keeps (IsLive s) tt) hub

  pub on_meshcat-Keeps : (f : W → Outcome W) → Kept (on_meshcat f)
  unfolding on_meshcat IsLive
  on_meshcat-Keeps f hub h = ground arith

  pub set_order-Keeps : (order : List (String × String)) → Kept (set_order order)
  unfolding set_order IsLive
  set_order-Keeps order hub h = h

  pub set_frame_axes-Keeps : (axes : Axes) → Kept (set_frame_axes axes)
  unfolding set_frame_axes IsLive
  set_frame_axes-Keeps axes hub h = h

  pub call-Keeps {κ} : {B : Type κ} (o : Outcome B) → Kept (call o)
  unfolding call
  call-Keeps o hub h = h

  pub need-Keeps {κ} : {B : Type κ} (o : Option B) → Kept (need o)
  unfolding need
  need-Keeps none hub h = h
  need-Keeps (some b) hub h = h

  -- The rules, at this property.
  pub bind {κ μ} :
      {B : Type κ} {C : Type μ} (m : Action (VisualizerHub A D W Q X I) B)
      (k : B → Action (VisualizerHub A D W Q X I) C)
      → Kept m
      → ((b : B) → Kept (k b))
      → Kept (m >>= k)
  bind m k hm hk = bind-Keeps (IsLive s) _ _ hm hk

  pub seq {κ μ} :
      {B : Type κ} {C : Type μ} (m : Action (VisualizerHub A D W Q X I) B)
      (k : Action (VisualizerHub A D W Q X I) C)
      → Kept m
      → Kept k
      → Kept (m >> k)
  seq m k hm hk = then-Keeps (IsLive s) _ _ hm hk

  pub test {κ} :
      {B : Type κ} (b : Bool) (m k : Action (VisualizerHub A D W Q X I) B)
      → Kept m
      → Kept k
      → Kept (if b then m else k)
  test b m k hm hk = if-Keeps (IsLive s) b _ _ hm hk

  pub each {κ} :
      {B : Type κ} (bs : List B) (f : B → Action (VisualizerHub A D W Q X I) Done)
      → ((b : B) → Kept (f b))
      → Kept (for_each bs f)
  each bs f h = for_each-Keeps (IsLive s) bs _ h

  pub done {κ} : {B : Type κ} (b : B) → Kept (pure b)
  done b = pure-Keeps (IsLive s) b

module _ {ℓ} {A D W Q X C I : Type ℓ} (meshcats : Meshcats A D W Q X C I)
    (s : VisualizerStatus) where
  pub show-Keeps : (cs : List (Command X)) → Kept s (show meshcats cs)
  unfolding show
  show-Keeps cs = on_meshcat-Keeps s _

  pub has_button-Keeps : (name : String) → Kept s (has_button meshcats name)
  unfolding has_button
  has_button-Keeps name = search (need_draco-Keeps, bind-Keeps, pure-Keeps)

  pub show_button-Keeps : (b : String × String) → Kept s (show_button meshcats b)
  unfolding show_button
  show_button-Keeps b = on_meshcat-Keeps s _

  pub reset_buttons-Keeps : Kept s (reset_buttons meshcats)
  unfolding reset_buttons delete_shown show_buttons
  reset_buttons-Keeps = bind s _ _ (need_draco-Keeps s) λ live.
      seq s _ _ (each s _ _ λ n. on_meshcat-Keeps s _) λ hub. each s _ _ show_button-Keeps hub

  pub insert_button-Keeps :
      (place : Option ℕ) (i : ℤ) (name keycode : String)
      → Kept s (insert_button meshcats place i name keycode)
  unfolding insert_button
  insert_button-Keeps none i name keycode hub = throw-Keeps _ (IsLive s) _ hub
  insert_button-Keeps (some p) i name keycode hub =
      seq s _ _ (set_order-Keeps s _) reset_buttons-Keeps hub

  pub add_button_at-Keeps :
      (name : String) (i : ℤ) (keycode : String) → Kept s (add_button_at meshcats name i keycode)
  unfolding add_button_at
  add_button_at-Keeps name i keycode hub =
      seq s _ _ (need_draco-Keeps s) (insert_button-Keeps _ i name keycode) hub

  pub delete_button_named-Keeps : (name : String) → Kept s (delete_button_named meshcats name)
  unfolding delete_button_named delete_shown
  delete_button_named-Keeps name hub =
      seq s _ _ (seq s _ _ (need_draco-Keeps s) (set_order-Keeps s _)) (on_meshcat-Keeps s _) hub

  pub register_frame-Keeps :
      (live : Live D W) (frame : Frame) → Kept s (register_frame meshcats live frame)
  unfolding register_frame
  register_frame-Keeps live frame hub =
      test s _ _ _ (done s tt) (seq s _ _ (show-Keeps _) (set_frame_axes-Keeps s _)) hub

  pub setup_frame_axes-Keeps : Kept s (setup_frame_axes meshcats)
  unfolding setup_frame_axes hide_tree
  setup_frame_axes-Keeps = bind s _ _ (need_draco-Keeps s) λ live.
      seq s _ _ (set_frame_axes-Keeps s []) (
        seq s _ _ (each s _ _ (register_frame-Keeps live))
          λ hub. test s _ _ _ (done s tt) (show-Keeps _) hub)

  pub move_all-Keeps : (axes : Axes) → Kept s (move_all meshcats axes)
  unfolding move_all
  move_all-Keeps [] = done s tt
  move_all-Keeps (axis ∷ axes) = bind s _ _ (need_draco-Keeps s) λ live. show-Keeps _

  pub update_frame_axes-Keeps : Kept s (update_frame_axes meshcats)
  unfolding update_frame_axes
  update_frame_axes-Keeps hub = move_all-Keeps hub.frame_axes hub

  pub set_robot_stream_active-Keeps :
      (robot : String) (b : Bool) → Kept s (set_robot_stream_active meshcats robot b)
  unfolding set_robot_stream_active
  set_robot_stream_active-Keeps robot b hub =
      bind s _ _ (need_draco-Keeps s) (λ live. show-Keeps _) hub
