-- ===== src/Common/Text/Equality.antt =====
-- Comparison of texts decides their equality.
use rapidstream_noc.Common.Text.{Text, text_eq}
use mathlib.Core.Path.{◌≡◌, refl}
use mathlib.Core.Logic.{◌≢◌, ◌↔◌, inl, inr}
use mathlib.Core.Bool.{Bool, true, false, ◌||◌}
use rapidstream_noc.Common.Tests.{◌==◌, Bool-cases}
use mathlib.Core.List.Memᴰ
use mathlib.Core.List.{List, [], ◌∷◌, Memᴰ}
use native.Mathlib.Omega.{arith}

pub text_eq_iff : (s t : Text) → (text_eq s t ≡ true) ↔ (s ≡ t)
unfolding text_eq
text_eq_iff [] [] = (λ _. refl, λ _. refl)
text_eq_iff [] (d ∷ t) = (λ h. cc, λ h. cc)
text_eq_iff (c ∷ s) [] = (λ h. cc, λ h. cc)
text_eq_iff (c ∷ s) (d ∷ t) = ground (arith, text_eq_iff s t)

pub text_eq_refl : (s : Text) → text_eq s s ≡ true
text_eq_refl s = (text_eq_iff s s).1 refl

pub text_eq_ne : (s t : Text) → s ≢ t → text_eq s t ≡ false
text_eq_ne s t h = ground (arith, text_eq_iff s t)

-- Whether two texts differ at a place that both have.
abbrev pub clash : Text → Text → Bool
clash (c ∷ s) (d ∷ t) = elim (c == d) [ true ↦ clash s t | false ↦ true ]
clash _ _ = false

pub ne_of_clash : (s t : Text) → clash s t ≡ true → s ≢ t
ne_of_clash [] [] h = cc
ne_of_clash [] (d ∷ t) h = cc
ne_of_clash (c ∷ s) [] h = cc
ne_of_clash (c ∷ s) (d ∷ t) h = ground (arith, ne_of_clash s t)

-- `s in ts`.
abbrev pub text_elem : Text → List Text → Bool
text_elem s [] = false
text_elem s (t ∷ ts) = text_eq s t || text_elem s ts

pub text_elem_iff : (s : Text) (ts : List Text) → (text_elem s ts ≡ true) ↔ Memᴰ s ts
text_elem_iff s [] = (λ h. cc, λ m. absurd (Memᴰ.not-nil m))
text_elem_iff s (t ∷ ts) = (
  λ h. elim (Bool-cases (text_eq s t)) [
    | inl e ↦ Memᴰ.head ((text_eq_iff s t).0 e)
    | inr n ↦ Memᴰ.tail ((text_elem_iff s ts).0 (rw n at h))
  ],
  λ m. elim (Memᴰ.cases_cons m) [
    | inl e ↦ rw ((text_eq_iff s t).1 e)
    | inr later ↦ ground (arith, (text_elem_iff s ts).1 later)
  ],
)
