-- ===== src/Comms/Viz/Shown.antt =====
-- What is shown of an object after it was placed, and after it was deleted.
use planning_service.Prelude.{
  String, true, false, List, [], ◌∷◌, none, some, ◌≡◌, refl, arith, ap, sym, ◌∙◌, inl, inr,
  text_key,
}
use planning_service.Prelude.Tests.{Bool-cases}
use planning_service.Prelude.Keys.{same_key_iff}
use planning_service.Prelude.Maps.{lookup, store, erase, lookup-store, lookup-erase}
use planning_service.Service.Error.{Outcome, returns}
use planning_service.Service.Action.{pure, resume, ◌>>◌}
use planning_service.Service.Visualizer.{Meshcats, queue_meshcat_task, delete_path, move_existing}
use planning_service.Comms.Status.{Status, status_ok}
use planning_service.Comms.Viz.{
  VizService, SetObjectRequest, without_prefix, object_path, is_protected, on_hub, forget, queue,
  delete_at, delete_object, handle_set_object, handle_toggle_object,
}
use planning_service.Comms.Viz.Paths.{object_path-under}
use text.Mathlib.Text.{starts_with, ◌==◌ as same_text}
use planning_service.Comms.Viz.Objects.{
  IsSetAnswer, denied, unset_shape, bad_shape, unplaced, placed, placed_at, target_path, with_task,
  handle_set_object-IsSetAnswer, show_placed, show_absent, hide_placed,
}

lookup-stored {ℓ} :
    {V : Type ℓ} (k : String) (v : V) (m : List (String × V)) → lookup k (store k v m) ≡ some v
lookup-stored k v m = ground (arith, lookup-store k k v m, same_key_iff k k)

lookup-erased {ℓ} : {V : Type ℓ} (k : String) (m : List (String × V)) → lookup k (erase k m) ≡ none
lookup-erased k m = ground (arith, lookup-erase k k m, same_key_iff k k)

module _ {ℓ} {A D W Q X C I : Type ℓ} (meshcats : Meshcats A D W Q X C I) where
  module _ (compose : X → X → X) (identity hidden : X) where
    accepted_pose :
        (request : SetObjectRequest X) (s s' : VizService A D W Q X I)
        (r : Outcome Status × VizService A D W Q X I)
        → IsSetAnswer meshcats compose request s r
        → r ≡ (returns status_ok, s')
        → (pose : X) × (s'
            ≡ placed_at meshcats compose (target_path meshcats compose request) pose s)
    accepted_pose request s s' r (denied p) e = absurd (ground (arith, ap (λ x. x.0) e))
    accepted_pose request s s' r (bad_shape x p) e = absurd (ground (arith, ap (λ x. x.0) e))
    accepted_pose request s s' r (unset_shape p) e = absurd (ground (arith, ap (λ x. x.0) e))
    accepted_pose request s s' r (unplaced x p u) e = absurd (ground (arith, ap (λ x. x.0) e))
    accepted_pose request s s' r (placed y x p q c f under) e = (compose x y, ap (λ x. x.1) (sym e))

    -- After SetObject answered OK, ToggleObject at the path under `objects/` moves the object to the pose
    -- that was set where it is to be visible, and away where it is not.
    pub set_object-toggle_object :
        (request : SetObjectRequest X) (s s' : VizService A D W Q X I)
        → handle_set_object meshcats compose request s ≡ (returns status_ok, s')
        → (pose : X) × (s'
            ≡ placed_at meshcats compose (target_path meshcats compose request) pose s)
          × (handle_toggle_object meshcats identity hidden
                (target_path meshcats compose request)
                true
                s'
              ≡ (
                returns status_ok,
                with_task meshcats
                    (move_existing (target_path meshcats compose request) pose ∷ [])
                    s',
              ))
          × (handle_toggle_object meshcats identity hidden
                (target_path meshcats compose request)
                false
                s'
              ≡ (
                returns status_ok,
                with_task meshcats
                    (move_existing (target_path meshcats compose request) hidden ∷ [])
                    s',
              ))
    set_object-toggle_object request s s' e =
        let (pose, is) =
          accepted_pose request s s' _ (handle_set_object-IsSetAnswer meshcats compose request s)
            e in
        let under = object_path-under (without_prefix "/drake/" request.path) in
        (
          pose,
          is,
          show_placed meshcats identity hidden s' (target_path meshcats compose request) under pose
              (ap
                  (λ (v : VizService A D W Q X I).
                    lookup (target_path meshcats compose request) v.object_transforms)
                  is
                ∙ lookup-stored (target_path meshcats compose request) pose s.object_transforms),
          hide_placed meshcats identity hidden s' (target_path meshcats compose request) under,
        )

    -- The path that `DeleteObject` takes away.
    abbrev pub deleted_path : String → String
    deleted_path path = object_path (without_prefix "/drake/" path)

    abbrev pub deleted_from : String → VizService A D W Q X I → VizService A D W Q X I
    deleted_from path s =
        with_task meshcats (delete_path path ∷ [])
          (record s { object_transforms = erase path s.object_transforms })

    delete_accepted :
        (path : String) (s : VizService A D W Q X I)
        → is_protected (without_prefix "/drake/" path) ≡ false
        → same_text (without_prefix "/drake/" path) "" ≡ false
        → delete_object path s ≡ (returns status_ok, deleted_from (deleted_path path) s)
    unfolding delete_object delete_at ◌>>◌ resume forget queue on_hub queue_meshcat_task pure
    delete_accepted path s p q = rw (p, q) refl

    deletes :
        (path : String) (s s' : VizService A D W Q X I)
        → delete_object path s ≡ (returns status_ok, s')
        → s' ≡ deleted_from (deleted_path path) s
    unfolding delete_object delete_at pure
    deletes path s s' e = elim (Bool-cases (is_protected (without_prefix "/drake/" path))) [
      | inl p ↦ absurd (ground (arith, ap (λ x. x.0) e))
      | inr p ↦ elim (Bool-cases (same_text (without_prefix "/drake/" path) "")) [
        | inl q ↦ absurd (ground (arith, ap (λ x. x.0) e))
        | inr q ↦ ap (λ x. x.1) (sym e ∙ delete_accepted path s p q)
      ]
    ]

    -- After DeleteObject answered OK, a task that deletes a path under `objects/` is queued, and
    -- ToggleObject at that path shows nothing: it answers OK and changes nothing.
    pub delete_object-toggle_object :
        (path : String) (s s' : VizService A D W Q X I)
        → delete_object path s ≡ (returns status_ok, s')
        → (s' ≡ deleted_from (deleted_path path) s)
          × (starts_with (deleted_path path) "objects/" ≡ true)
          × (handle_toggle_object meshcats identity hidden (deleted_path path) true s'
              ≡ (returns status_ok, s'))
    delete_object-toggle_object path s s' e =
        let is = deletes path s s' e in
        let under = object_path-under (without_prefix "/drake/" path) in
        (
          is,
          under,
          show_absent meshcats identity hidden s' (deleted_path path) under (
              ap (λ (v : VizService A D W Q X I). lookup (deleted_path path) v.object_transforms) is
              ∙ lookup-erased (deleted_path path) s.object_transforms),
        )
