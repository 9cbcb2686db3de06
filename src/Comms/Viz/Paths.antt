-- ===== src/Comms/Viz/Paths.antt =====
-- Paths in Meshcat's tree: a path under one folder is under no other.
use planning_service.Prelude.{String, true, false, ◌≡◌, refl, arith, ℕ, ap, sym, ◌∙◌, inl, inr}
use planning_service.Prelude.Format.{◌<>◌}
use planning_service.Prelude.Tests.{Bool-cases}
use planning_service.Comms.Viz.{object_path, without_prefix}
use text.Mathlib.Text.{starts_with}
use text.Mathlib.TextEquality.{eq_iff}
use text.Mathlib.TextLemmas.{nil≢cons, head-eq_of_cons-eq}
use text.Mathlib.TextPositions.{starts_with-append}
use Prim.Native.Nat.{compare as compare_ℕ, Ordering, zero, ◌-◌}
use Prim.Native.Char.{Char, code, len_utf8}
use Prim.Native.String.slice
use Prim.Native.String.{fits}
use Prim.Native.String

fits_head : (o : Ordering) (x c : Char) (r t : String) → fits o x r ≡ String.◌∷◌ c t → x ≡ c
fits_head Ordering.lt x c r t e = head-eq_of_cons-eq e
fits_head Ordering.eq x c r t e = head-eq_of_cons-eq e
fits_head Ordering.gt x c r t e = absurd (nil≢cons e)

slice_head :
    (s : String) (n : ℕ) (c : Char) (t : String)
    → String.slice s zero n ≡ String.◌∷◌ c t
    → (r : String) × (s ≡ String.◌∷◌ c r)
slice_head String.[] n c t e = absurd (nil≢cons (sym (slice.nil zero n) ∙ e))
slice_head (String.◌∷◌ x s) n c t e =
    let rest = String.slice s zero (n - len_utf8 x) in
    (
      s,
      ap (λ (y : Char). String.◌∷◌ y s)
          (fits_head (compare_ℕ (len_utf8 x) n) x c rest t (sym (slice.cons-zero x s n) ∙ e)),
    )

-- A text that starts with two texts has the first character of both.
starts_with_heads :
    (s : String) (c d : Char) (t u : String)
    → starts_with s (String.◌∷◌ c t) ≡ true
    → starts_with s (String.◌∷◌ d u) ≡ true
    → c ≡ d
starts_with_heads s c d t u h k =
    let first = slice_head s (String.len (String.◌∷◌ c t)) c t ((eq_iff _ _).0 h) in
    let second = slice_head s (String.len (String.◌∷◌ d u)) d u ((eq_iff _ _).0 k) in
    head-eq_of_cons-eq (sym first.1 ∙ second.1)

-- A path under `objects/` is neither below the root's name nor protected.
pub object-not_root :
    (path : String) → starts_with path "objects/" ≡ true → starts_with path "/drake/" ≡ false
object-not_root path h = elim (Bool-cases (starts_with path "/drake/")) [
  | inl root ↦
      let e = ap code (starts_with_heads path "o" "/" "bjects/" "drake/" h root) in
      absurd (omega arith)
  | inr other ↦ other
]

pub object_path-under : (path : String) → starts_with (object_path path) "objects/" ≡ true
unfolding object_path ◌<>◌
object_path-under path = elim (Bool-cases (starts_with path "objects/")) [
  | inl under ↦ rw (under, under) refl
  | inr other ↦ rw other (starts_with-append "objects/" path)
]

pub without_root-object :
    (path : String) → starts_with path "objects/" ≡ true → without_prefix "/drake/" path ≡ path
unfolding without_prefix
without_root-object path h = rw (object-not_root path h) refl
