-- ===== src/Common/Loops.antt =====
-- `for x in range(…): out += body(x)`, where the body may raise; and indexing that raises.
use Prim.Native.Nat.{ℕ, zero, suc, ◌+◌, ◌-◌, ◌≤◌, ◌<◌}
use mathlib.Core.Path.{◌≡◌, refl, subst}
use mathlib.Core.List.{List, [], ◌∷◌, ◌++◌}
use native.Mathlib.Omega.{arith}
use rapidstream_noc.Common.Tests.{leb, if◌then◌else◌}
use rapidstream_noc.Common.Lists.{length, All, All-append, range_from}
use rapidstream_noc.Common.Errors.{Result, ok, err, index_error, ◌>>=◌, Returns}

module _ {ℓ} {A : Type ℓ} where
  -- `xs[i]` for `i ≥ 0`.
  abbrev pub get_item : List A → ℕ → Result A
  get_item [] i = err index_error
  get_item (x ∷ xs) zero = ok x
  get_item (x ∷ xs) (suc i) = get_item xs i

  -- `xs[a - b]`: a negative index counts from the end.
  abbrev pub get_item_sub : List A → ℕ → ℕ → Result A
  get_item_sub xs a b =
      if leb b a
      then get_item xs (a - b)
      else if leb (b - a) (length xs)
      then get_item xs (length xs - (b - a))
      else err index_error

  pub get_item-Returns :
      (xs : List A) (i : ℕ) → i < length xs → Returns (λ _. Unit {0}) (get_item xs i)
  get_item-Returns [] i h = elim h [ ]
  get_item-Returns (x ∷ xs) zero h = (x, refl, tt)
  get_item-Returns (x ∷ xs) (suc i) h = get_item-Returns xs i (omega arith)

pub get_item-All {ℓ κ} :
    {A : Type ℓ} (P : A → Type κ) (xs : List A) (i : ℕ) (a : A)
    → All P xs
    → get_item xs i ≡ ok a
    → P a
get_item-All P [] i a hs e = cc
get_item-All P (x ∷ xs) zero a (h, hs) e = subst P (cc) h
get_item-All P (x ∷ xs) (suc i) a (h, hs) e = get_item-All P xs i a hs e

module _ {ℓ κ} {A : Type ℓ} {B : Type κ} where
  -- `out += body(x)` for each `x` of a list.
  unfoldable pub concat_each : List A → (A → Result (List B)) → Result (List B)
  concat_each [] body = ok []
  concat_each (x ∷ xs) body = body x >>= λ ys. concat_each xs body >>= λ zs. ok (ys ++ zs)

  -- `out.append(body(x))` for each `x` of a list.
  unfoldable pub map_each : List A → (A → Result B) → Result (List B)
  map_each [] body = ok []
  map_each (x ∷ xs) body = body x >>= λ y. map_each xs body >>= λ ys. ok (y ∷ ys)

  pub concat_each-Returns {μ} :
      (P : B → Type μ) (xs : List A) (body : A → Result (List B))
      → All (λ x. Returns (All P) (body x)) xs
      → Returns (All P) (concat_each xs body)
  unfolding concat_each
  concat_each-Returns P [] body _ = ([], refl, tt)
  concat_each-Returns P (x ∷ xs) body ((ys, e, p), hs) =
      let (zs, e', q) = concat_each-Returns P xs body hs in
      (ys ++ zs, rw (e, e'), All-append P ys zs p q)

-- What holds of every index below `n` holds of every element of the range.
pub All-range {κ} :
    (P : ℕ → Type κ) (lo n : ℕ) → ((i : ℕ) → lo ≤ i → i < lo + n → P i) → All P (range_from lo n)
All-range P lo zero h = tt
All-range P lo (suc n) h = (
  h lo (omega arith) (omega arith),
  All-range P (suc lo) n (λ i p q. h i (omega arith) (omega arith)),
)
