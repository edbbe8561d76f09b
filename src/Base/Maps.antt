-- ===== src/Base/Maps.antt =====
-- A Go map with text keys is an association list: reading and writing at a key.
use mathlib.Core.Path.{◌≡◌, refl}
use mathlib.Core.Logic.{inl, inr}
use mathlib.Core.Bool.{false}
use mathlib.Core.Option.{Option, none, some}
use mathlib.Core.List.{List, [], ◌∷◌}
use native.Mathlib.Omega.{arith}
use Prim.Native.String.{String}
use text.Mathlib.Text.{◌==◌ as str_eq}
use text.Mathlib.TextEquality.{eq_iff as str_eq_iff}
use go_outbox.Base.Tests.{if◌then◌else◌, Bool-cases}

module _ {ℓ} {A : Type ℓ} where
  -- A map's value at a key.
  abbrev pub lookup : String → List (String × A) → Option A
  lookup k [] = none
  lookup k ((j, a) ∷ rest) = if str_eq j k then some a else lookup k rest

  -- `m[k] = v`
  unfoldable pub assign : String → A → List (String × A) → List (String × A)
  assign k v [] = (k, v) ∷ []
  assign k v ((j, w) ∷ rest) = if str_eq j k then (k, v) ∷ rest else (j, w) ∷ assign k v rest

  pub lookup-assign_same :
      (k : String) (v : A) (m : List (String × A)) → lookup k (assign k v m) ≡ some v
  unfolding assign
  lookup-assign_same k v [] = ground (arith, str_eq_iff k k)
  lookup-assign_same k v ((j, w) ∷ rest) = elim (Bool-cases (str_eq j k)) [
    | inl same ↦ rw same (ground (arith, str_eq_iff k k))
    | inr other ↦ rw (other, other) (lookup-assign_same k v rest)
  ]

  pub lookup-assign_other :
      (i k : String) (v : A) (m : List (String × A))
      → str_eq k i ≡ false
      → lookup i (assign k v m) ≡ lookup i m
  unfolding assign
  lookup-assign_other i k v [] h = rw h refl
  lookup-assign_other i k v ((j, w) ∷ rest) h = elim (Bool-cases (str_eq j k)) [
    | inl same ↦
        let e : j ≡ k = (str_eq_iff j k).0 same in
        let apart : str_eq j i ≡ false = rw e h in rw (same, h, apart) refl
    | inr other ↦ rw (other, lookup-assign_other i k v rest h) refl
  ]

  pub lookup-assign :
      (i k : String) (v : A) (m : List (String × A))
      → lookup i (assign k v m) ≡ (if str_eq k i then some v else lookup i m)
  lookup-assign i k v m = elim (Bool-cases (str_eq k i)) [
    | inl same ↦ rw (same, (str_eq_iff k i).0 same) (lookup-assign_same i v m)
    | inr other ↦ rw other (lookup-assign_other i k v m other)
  ]
