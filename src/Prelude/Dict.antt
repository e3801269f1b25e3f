-- ===== src/Prelude/Dict.antt =====
-- Python's `dict` with `str` keys: an association list in insertion order. Writing to a key that is
-- there keeps its place.
use mathlib.Core.Path.{◌≡◌, refl}
use mathlib.Core.Option.{Option, none, some}
use mathlib.Core.List.{List, [], ◌∷◌}
use native.Mathlib.Omega.{arith}
use text.Mathlib.Text.{◌==◌}
use text.Mathlib.TextEquality.{eq_iff}
use Prim.Native.String.{String}
use mathlib.Core.Path.{subst}
use mathlib.Core.Logic.{inl, inr}
use routing.Prelude.Lists.{All}
use routing.Prelude.Tests.{if◌then◌else◌, Bool-cases}

abbrev pub Dict {ℓ} : Type ℓ → Type ℓ
Dict V = List (String × V)

module _ {ℓ} {V : Type ℓ} where
  unfoldable pub lookup : String → Dict V → Option V
  lookup k [] = none
  lookup k ((j, v) ∷ m) = if j == k then some v else lookup k m

  unfoldable pub insert : String → V → Dict V → Dict V
  insert k v [] = (k, v) ∷ []
  insert k v ((j, w) ∷ m) = if j == k then (j, v) ∷ m else (j, w) ∷ insert k v m

  unfoldable pub erase : String → Dict V → Dict V
  erase k [] = []
  erase k ((j, w) ∷ m) = let rest = erase k m in if j == k then rest else (j, w) ∷ rest

  pub lookup-insert :
      (key other : String) (x : V) (d : Dict V)
      → lookup other (insert key x d) ≡ (if key == other then some x else lookup other d)
  unfolding lookup insert
  lookup-insert key other x ((first, w) ∷ d) =
      ground
        (arith, lookup-insert key other x d, eq_iff first key, eq_iff first other, eq_iff key other)
  lookup-insert key other x [] = refl

  pub lookup-erase :
      (k j : String) (m : Dict V) → lookup j (erase k m) ≡ (if k == j then none else lookup j m)
  unfolding lookup erase
  lookup-erase k j [] = ground arith
  lookup-erase k j ((i, w) ∷ m) =
      ground (arith, eq_iff k j, eq_iff i k, eq_iff i j, lookup-erase k j m)

some_injective {ℓ} : {A : Type ℓ} {x y : A} → some x ≡ some y → x ≡ y
some_injective e = cc

module _ {ℓ κ} {V : Type ℓ} where
  -- A property of all values.
  abbrev pub Values : (V → Type κ) → Dict V → Type κ
  Values P d = All (λ p. P p.1) d

  pub Values-insert :
      (P : V → Type κ) (k : String) (v : V) (d : Dict V)
      → P v
      → Values P d
      → Values P (insert k v d)
  unfolding insert
  Values-insert P k v [] hv h = (hv, tt)
  Values-insert P k v ((j, w) ∷ d) hv h = elim (Bool-cases (j == k)) [
    | inl same ↦ rw same (hv, h.1)
    | inr other ↦ rw other (h.0, Values-insert P k v d hv h.1)
  ]

  pub Values-erase : (P : V → Type κ) (k : String) (d : Dict V) → Values P d → Values P (erase k d)
  unfolding erase
  Values-erase P k [] h = tt
  Values-erase P k ((j, w) ∷ d) h = elim (Bool-cases (j == k)) [
    | inl same ↦ rw same (Values-erase P k d h.1)
    | inr other ↦ rw other (h.0, Values-erase P k d h.1)
  ]

  pub Values-lookup :
      (P : V → Type κ) (k : String) (v : V) (d : Dict V) → Values P d → lookup k d ≡ some v → P v
  unfolding lookup
  Values-lookup P k v [] h e = absurd (cc)
  Values-lookup P k v ((j, w) ∷ d) h e = elim (Bool-cases (j == k)) [
    | inl same ↦ subst P (some_injective (rw same at e)) h.0
    | inr other ↦ Values-lookup P k v d h.1 (rw other at e)
  ]
