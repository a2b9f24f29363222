-- ===== src/Ilp/Balance.antt =====
-- noc_pass.py: what the sums over a node's edges in the constraints count, and what a sum of binary
-- variables that is one chooses.
use mathlib.Core.Path.{subst}
use mathlib.Core.List.Memᴰ
use mathlib.Core.List.{Memᴰ}
use rapidstream_noc.Common.{
  ℕ, sym, ap, ◌+◌, ◌≤◌, ◌≡◌, ◌≢◌, refl, inl, inr, false, List, [], ◌∷◌, ◌++◌, map, ◌==◌, ◌∙◌,
  eq_of_==, some, All, arith, Bool-cases, if◌then◌else◌, All-append_inv,
}
use rapidstream_noc.Common.Text.{Text, text_eq}
use rapidstream_noc.Common.Text.Equality.{text_eq_iff, text_elem, text_elem_iff}
use rapidstream_noc.Graph.{EdgeTuple}
use rapidstream_noc.Ilp.{Var, lp_sum, total, Solution, first_chosen, keep, flat_map}
use rapidstream_noc.Ilp.Trail.{one_if, outdegree, indegree}

pub All-flat_map {ℓ κ μ} :
    {A : Type ℓ} {B : Type κ} (P : B → Type μ) (f : A → List B) (x : A) (xs : List A)
    → All P (flat_map f xs)
    → Memᴰ x xs
    → All P (f x)
All-flat_map P f x [] _ m = absurd (Memᴰ.not-nil m)
All-flat_map P f x (y ∷ ys) h m =
    let (first, rest) = All-append_inv P (f y) (flat_map f ys) h in
    elim (Memᴰ.cases_cons m) [
      | inl e ↦ subst (λ k. All P (f k)) (sym e) first
      | inr later ↦ All-flat_map P f x ys rest later
    ]

pub All_map_at {ℓ κ μ} :
    {A : Type ℓ} {B : Type κ} (P : B → Type μ) (f : A → B) (x : A) (xs : List A)
    → All P (map f xs)
    → Memᴰ x xs
    → P (f x)
All_map_at P f x [] _ m = absurd (Memᴰ.not-nil m)
All_map_at P f x (y ∷ ys) (p, h) m = elim (Memᴰ.cases_cons m) [
  | inl e ↦ subst (λ k. P (f k)) (sym e) p
  | inr later ↦ All_map_at P f x ys h later
]

abbrev pub sum_of {ℓ} : {A : Type ℓ} → (A → ℕ) → List A → ℕ
sum_of f [] = 0
sum_of f (a ∷ as') = f a + sum_of f as'

module _ {ℓ} {A : Type ℓ} (a : Solution) (f : A → Var) where
  pub total_lp : (xs : List A) → total a (lp_sum (map f xs)) ≡ sum_of (λ n. a (f n)) xs
  total_lp [] = refl
  total_lp (n ∷ ns) = omega (arith, total_lp ns)

  pub total_lp_snoc :
      (xs : List A) (v : Var)
      → total a (lp_sum (map f xs ++ v ∷ [])) ≡ sum_of (λ n. a (f n)) xs + a v
  total_lp_snoc [] v = omega arith
  total_lp_snoc (n ∷ ns) v = omega (arith, total_lp_snoc ns v)

-- The second ends of the edges out of a node, and the first ends of those into it.
abbrev pub heads : Text → List EdgeTuple → List Text
heads n [] = []
heads n ((u, v) ∷ es) = if text_eq n u then v ∷ heads n es else heads n es

abbrev pub tails : Text → List EdgeTuple → List Text
tails n [] = []
tails n ((u, v) ∷ es) = if text_eq n v then u ∷ tails n es else tails n es

-- The edges at which a function is one.
abbrev pub selected : (EdgeTuple → ℕ) → List EdgeTuple → List EdgeTuple
selected value es = keep (λ e. value e == 1) es

pub selected-All {κ} :
    (P : EdgeTuple → Type κ) (value : EdgeTuple → ℕ) (es : List EdgeTuple)
    → All P es
    → All (λ e. P e × (value e ≡ 1)) (selected value es)
selected-All P value [] _ = tt
selected-All P value (e ∷ es) (p, h) = elim (Bool-cases (value e == 1)) [
  | inl one ↦ rw one ((p, eq_of_== (value e) 1 one), selected-All P value es h)
  | inr other ↦ rw other (selected-All P value es h)
]

module _ (value : EdgeTuple → ℕ) (binary : (e : EdgeTuple) → value e ≤ 1) where
  pub sum_of-heads :
      (n : Text) (es : List EdgeTuple)
      → sum_of (λ v. value (n, v)) (heads n es) ≡ outdegree (selected value es) n
  sum_of-heads n [] = refl
  sum_of-heads n ((u, v) ∷ es) = elim (Bool-cases (text_eq n u)) [
    | inl e ↦ rw e (
        subst
          (λ k.
            value (k, v) + sum_of (λ w. value (n, w)) (heads n es)
            ≡ outdegree (selected value ((u, v) ∷ es)) n)
          (sym ((text_eq_iff n u).0 e)) (ground (arith, e, binary (u, v), sum_of-heads n es)))
    | inr ne ↦ ground (arith, ne, binary (u, v), sum_of-heads n es)
  ]

  pub sum_of-tails :
      (n : Text) (es : List EdgeTuple)
      → sum_of (λ u. value (u, n)) (tails n es) ≡ indegree (selected value es) n
  sum_of-tails n [] = refl
  sum_of-tails n ((u, v) ∷ es) = elim (Bool-cases (text_eq n v)) [
    | inl e ↦ rw e (
        subst
          (λ k.
            value (u, k) + sum_of (λ w. value (w, n)) (tails n es)
            ≡ indegree (selected value ((u, v) ∷ es)) n)
          (sym ((text_eq_iff n v).0 e)) (ground (arith, e, binary (u, v), sum_of-tails n es)))
    | inr ne ↦ ground (arith, ne, binary (u, v), sum_of-tails n es)
  ]

-- A node that no edge touches has no degree.
pub untouched :
    (ns : List Text) (w : Text) (es : List EdgeTuple)
    → All (λ (u, v). Memᴰ u ns × Memᴰ v ns) es
    → text_elem w ns ≡ false
    → (outdegree es w ≡ 0) × (indegree es w ≡ 0)
untouched ns w [] _ out = (refl, refl)
untouched ns w ((u, v) ∷ es) ((hu, hv), h) out =
    let differs : (k : Text) → Memᴰ k ns → text_eq w k ≡ false = λ k m.
      elim (Bool-cases (text_eq w k)) [
        | inl e ↦ absurd (
            ground (
              arith,
              out,
              (text_elem_iff w ns).1 (subst (λ t. Memᴰ t ns) (sym ((text_eq_iff w k).0 e)) m),
            ))
        | inr ne ↦ ne
      ] in
    let (no_out, no_in) = untouched ns w es h out in
    (
      omega (arith, ap one_if (differs u hu), no_out),
      omega (arith, ap one_if (differs v hv), no_in),
    )

sum_of_zero {ℓ} :
    {A : Type ℓ} (f : A → ℕ) (x : A) (xs : List A) → sum_of f xs ≡ 0 → Memᴰ x xs → f x ≡ 0
sum_of_zero f x [] h m = absurd (Memᴰ.not-nil m)
sum_of_zero f x (y ∷ ys) h m = elim (Memᴰ.cases_cons m) [
  | inl e ↦ ap f e ∙ omega arith
  | inr later ↦ sum_of_zero f x ys (omega arith) later
]

-- The one name of a list at which a binary function is one, which `first_chosen` finds.
pub record TheOne (f : Text → ℕ) (ns : List Text) : Type 0 where
  pub name : Text
  pub listed : Memᴰ name ns
  pub is_one : f name ≡ 1
  pub found : first_chosen f ns ≡ some name
  pub only : (m : Text) → Memᴰ m ns → m ≢ name → f m ≡ 0

pub the_one :
    (f : Text → ℕ) (binary : (n : Text) → f n ≤ 1) (ns : List Text) → sum_of f ns ≡ 1 → TheOne f ns
the_one f binary [] h = absurd (omega arith)
the_one f binary (n ∷ ns) h = elim (Bool-cases (f n == 1)) [
  | inl e ↦
      let is_one = eq_of_== (f n) 1 e in
      record {
        name = n;
        listed = Memᴰ.head refl;
        is_one = is_one;
        found = rw e;
        only = λ m here other. elim (Memᴰ.cases_cons here) [
          | inl same ↦ absurd (other same)
          | inr later ↦ sum_of_zero f m ns (omega (arith, is_one)) later
        ];
      }
  | inr ne ↦
      let zero_here : f n ≡ 0 = ground (arith, ne, binary n) in
      let t = the_one f binary ns (omega (arith, zero_here)) in
      record {
        name = t.name;
        listed = Memᴰ.tail t.listed;
        is_one = t.is_one;
        found = rw ne t.found;
        only = λ m here other. elim (Memᴰ.cases_cons here) [
          | inl same ↦ ap f same ∙ zero_here
          | inr later ↦ t.only m later other
        ];
      }
]
