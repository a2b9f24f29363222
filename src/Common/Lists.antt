-- ===== src/Common/Lists.antt =====
-- Lists measured and indexed by native numbers, and a predicate on every element.
use Prim.Native.Nat.{ℕ, zero, suc, ◌+◌, ◌≤◌, ◌<◌}
use mathlib.Core.Path.{◌≡◌, refl, ap, sym, subst}
use mathlib.Core.List.{List, [], ◌∷◌, ◌++◌, map}
use mathlib.Core.List.Memᴰ
use mathlib.Core.List.{Memᴰ}
use mathlib.Core.Logic.{◌↔◌, inl, inr}
use mathlib.Core.Bool.{Bool, true, false, ◌||◌}
use native.Mathlib.Decide.{ℕ_discrete}
use mathlib.Core.Option.{Option, none, some}
use native.Mathlib.Omega.{arith}
use rapidstream_noc.Common.Tests.{◌==◌}

module _ {ℓ} {A : Type ℓ} where
  abbrev pub length : List A → ℕ
  length [] = 0
  length (x ∷ xs) = suc (length xs)

  abbrev pub get_elem? : List A → ℕ → Option A
  get_elem? [] i = none
  get_elem? (x ∷ xs) zero = some x
  get_elem? (x ∷ xs) (suc i) = get_elem? xs i

  abbrev pub take : ℕ → List A → List A
  take zero xs = []
  take (suc n) [] = []
  take (suc n) (x ∷ xs) = x ∷ take n xs

  pub length-append : (xs ys : List A) → length (xs ++ ys) ≡ length xs + length ys
  length-append [] ys = omega arith
  length-append (x ∷ xs) ys = omega (arith, length-append xs ys)

pub length-map {ℓ κ} :
    {A : Type ℓ} {B : Type κ} (xs : List A) (f : A → B) → length (map f xs) ≡ length xs
length-map [] f = refl
length-map (x ∷ xs) f = ap suc (length-map xs f)

abbrev pub sum : List ℕ → ℕ
sum [] = 0
sum (n ∷ ns) = n + sum ns

module _ {ℓ κ} {A : Type ℓ} (P : A → Type κ) where
  abbrev pub All : List A → Type κ
  All [] = Unit
  All (x ∷ xs) = P x × All xs

  pub All-append : (xs ys : List A) → All xs → All ys → All (xs ++ ys)
  All-append [] ys _ hy = hy
  All-append (x ∷ xs) ys (px, hx) hy = (px, All-append xs ys hx hy)

pub All-map {ℓ κ μ} :
    {A : Type ℓ} {P : A → Type κ} {Q : A → Type μ} (imp : (a : A) → P a → Q a) (xs : List A)
    → All P xs
    → All Q xs
All-map imp [] _ = tt
All-map imp (x ∷ xs) (p, ps) = (imp x p, All-map imp xs ps)

-- `range(lo, lo + n)`.
abbrev pub range_from : ℕ → ℕ → List ℕ
range_from lo zero = []
range_from lo (suc n) = lo ∷ range_from (suc lo) n

-- `range(n)`.
abbrev pub range : ℕ → List ℕ
range n = range_from 0 n

pub length-range_from : (lo n : ℕ) → length (range_from lo n) ≡ n
length-range_from lo zero = refl
length-range_from lo (suc n) = ap suc (length-range_from (suc lo) n)

pub Memᴰ-range_from : (i lo n : ℕ) → Memᴰ i (range_from lo n) ↔ ((lo ≤ i) × (i < lo + n))
Memᴰ-range_from i lo zero = (λ m. absurd (Memᴰ.not-nil m), λ h. absurd (omega arith))
Memᴰ-range_from i lo (suc n) = (
  λ m. elim (Memᴰ.cases_cons m) [
    | inl e ↦ (omega arith, omega arith)
    | inr m' ↦ let h = (Memᴰ-range_from i (suc lo) n).0 m' in (omega arith, omega arith)
  ],
  λ (p, q). elim (ℕ_discrete i lo) [
    | yes e ↦ Memᴰ.head e
    | no n' ↦ Memᴰ.tail ((Memᴰ-range_from i (suc lo) n).1 (omega arith, omega arith))
  ],
)

-- `n in xs`.
abbrev pub elem : ℕ → List ℕ → Bool
elem n [] = false
elem n (x ∷ xs) = n == x || elem n xs

pub elem_of_Memᴰ : (n : ℕ) (xs : List ℕ) → Memᴰ n xs → elem n xs ≡ true
elem_of_Memᴰ n [] m = absurd (Memᴰ.not-nil m)
elem_of_Memᴰ n (x ∷ xs) (Memᴰ.head e) = ground arith
elem_of_Memᴰ n (x ∷ xs) (Memᴰ.tail m) = ground (arith, elem_of_Memᴰ n xs m)

pub take_all {ℓ} : {A : Type ℓ} (xs : List A) → take (length xs) xs ≡ xs
take_all [] = refl
take_all (x ∷ xs) = ap (λ ys. x ∷ ys) (take_all xs)

module _ {ℓ κ} {A : Type ℓ} (P : A → Type κ) where
  pub All-append_inv : (xs ys : List A) → All P (xs ++ ys) → All P xs × All P ys
  All-append_inv [] ys h = (tt, h)
  All-append_inv (x ∷ xs) ys (p, h) = let (hx, hy) = All-append_inv xs ys h in ((p, hx), hy)

  pub All_at : (x : A) (xs : List A) → All P xs → Memᴰ x xs → P x
  All_at x [] _ m = absurd (Memᴰ.not-nil m)
  All_at x (y ∷ ys) (p, h) m = elim (Memᴰ.cases_cons m) [
    | inl e ↦ subst P (sym e) p
    | inr later ↦ All_at x ys h later
  ]
