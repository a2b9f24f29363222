-- ===== src/Common/Mapping.antt =====
-- Python's `dict` with texts as keys: the list of its items, in the order of their first writing.
use mathlib.Core.Path.{◌≡◌, refl}
use mathlib.Core.Logic.{inl, inr}
use mathlib.Core.Option.{Option, none, some}
use mathlib.Core.List.{List, [], ◌∷◌}
use native.Mathlib.Omega.{arith}
use rapidstream_noc.Common.Tests.{if◌then◌else◌, Bool-cases}
use rapidstream_noc.Common.Errors.{Result, ok, err, key_error}
use rapidstream_noc.Common.Text.{Text, text_eq}
use rapidstream_noc.Common.Text.Equality.{text_eq_iff}

abbrev pub Dict {ℓ} : Type ℓ → Type ℓ
Dict V = List (Text × V)

module _ {ℓ} {V : Type ℓ} where
  -- `d[key] = value`.
  unfoldable pub set_item : Text → V → Dict V → Dict V
  set_item key value [] = (key, value) ∷ []
  set_item key value ((k, v) ∷ d) =
      if text_eq key k then (k, value) ∷ d else (k, v) ∷ set_item key value d

  unfoldable pub lookup : Text → Dict V → Option V
  lookup key [] = none
  lookup key ((k, v) ∷ d) = if text_eq key k then some v else lookup key d

  -- `d[key]`.
  abbrev pub item : Text → Dict V → Result V
  item key d = elim (lookup key d) [ none ↦ err key_error | some v ↦ ok v ]

  -- `d | e`.
  unfoldable pub merge : Dict V → Dict V → Dict V
  unfolding set_item
  merge d [] = d
  merge d ((k, v) ∷ e) = merge (set_item k v d) e

  pub lookup-set_item :
      (key k : Text) (value : V) (d : Dict V)
      → lookup key (set_item k value d) ≡ (if text_eq key k then some value else lookup key d)
  unfolding lookup set_item
  lookup-set_item key k value [] = refl
  lookup-set_item key k value ((j, v) ∷ d) =
      let rest = lookup-set_item key k value d in
      let kj = text_eq_iff k j in
      let at_k = text_eq_iff key k in
      let at_j = text_eq_iff key j in ground (arith, rest, kj, at_k, at_j)

  -- No key stands twice.
  abbrev pub IsDict : Dict V → Type ℓ
  IsDict [] = Unit
  IsDict ((k, v) ∷ d) = (lookup k d ≡ none) × IsDict d

  pub set_item-IsDict :
      (key : Text) (value : V) (d : Dict V) → IsDict d → IsDict (set_item key value d)
  unfolding set_item lookup
  set_item-IsDict key value [] whole = (refl, tt)
  set_item-IsDict key value ((k, v) ∷ d) (fresh, whole) =
      let rest = set_item-IsDict key value d whole in
      let after = lookup-set_item k key value d in
      let one_way = text_eq_iff key k in
      let other_way = text_eq_iff k key in
      elim (Bool-cases (text_eq key k)) [
        | inl e ↦ rw e (fresh, whole)
        | inr e ↦ rw e (ground (arith, after, one_way, other_way, fresh, e), rest)
      ]

  pub item-eq-ok : (key : Text) (d : Dict V) {v : V} → item key d ≡ ok v → lookup key d ≡ some v
  item-eq-ok key d {v} e = found (lookup key d) e
    where
      found : (o : Option V) → (elim o [ none ↦ err key_error | some w ↦ ok w ]) ≡ ok v → o ≡ some v
      found none e = cc
      found (some w) e = cc
