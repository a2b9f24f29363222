-- ===== src/Bd/HbmCounters.antt =====
-- The counters of the banks in get_hbm_noc_port.
use rapidstream_noc.Common.{
  ℕ, ◌≤◌, zero, suc, ◌+◌, ◌<◌, ◌≡◌, refl, ap, ◌∙◌, List, [], ◌∷◌, ◌++◌, Bool-cases, ◌==◌,
  if◌then◌else◌, get_elem?, Result, ok, err, key_error, ◌≢◌, Option, none, some, arith, Dict, Bool,
  true, false, inl, inr,
}
use native.Mathlib.Decide.{ℕ_discrete}
use rapidstream_noc.Common.Text.{Text}
use rapidstream_noc.Select.{update_at}
use rapidstream_noc.Bd.{MmapAttr}
use rapidstream_noc.Bd.Hbm.{count_if, hbm_port, get_hbm_noc_port}

abbrev pub is_on : ℕ → MmapAttr → Bool
is_on b attr = attr.bank == b

pub count_if-append :
    (test : MmapAttr → Bool) (earlier : Dict MmapAttr) (port : Text) (attr : MmapAttr)
    → count_if test (earlier ++ (port, attr) ∷ [])
      ≡ (if test attr then 1 else 0) + count_if test earlier
count_if-append test [] port attr = elim (Bool-cases (test attr)) [ inl h ↦ rw h | inr h ↦ rw h ]
count_if-append test ((p, a) ∷ earlier) port attr =
    let rest = count_if-append test earlier port attr in
    elim (Bool-cases (test a)) [ inl h ↦ rw h (omega (arith, rest)) | inr h ↦ rw h rest ]

-- Counting one more at a place that a list has.
counted_up :
    (xs : List ℕ) (i n : ℕ)
    → get_elem? xs i ≡ some n
    → (ys : List ℕ) × (update_at xs i (λ k. ok (k + 1)) ≡ ok ys)
      × (get_elem? ys i ≡ some (n + 1))
      × ((j : ℕ) → j ≢ i → get_elem? ys j ≡ get_elem? xs j)
unfolding update_at
counted_up [] i n h = cc
counted_up (x ∷ xs) zero n h = ((x + 1) ∷ xs, refl, cc h, others)
  where
    others : (j : ℕ) → j ≢ 0 → get_elem? ((x + 1) ∷ xs) j ≡ get_elem? (x ∷ xs) j
    others zero ne = absurd (ne refl)
    others (suc j) ne = refl
counted_up (x ∷ xs) (suc i) n h =
    let (ys, made, same, other) = counted_up xs i n h in
    (x ∷ ys, rw made refl, same, others ys other)
  where
    others :
        (ys : List ℕ)
        → ((j : ℕ) → j ≢ i → get_elem? ys j ≡ get_elem? xs j)
        → (j : ℕ) → j ≢ suc i
        → get_elem? (x ∷ ys) j ≡ get_elem? (x ∷ xs) j
    others ys other zero ne = refl
    others ys other (suc j) ne = other j (λ e. ne (ap suc e))

-- Each bank's counter is one more than the number of its ports so far.
abbrev pub Counted : List ℕ → Dict MmapAttr → Type 0
Counted cnt earlier = (b : ℕ) → b < 32 → get_elem? cnt b ≡ some (1 + count_if (is_on b) earlier)

-- No bank from 32 on has a counter.
abbrev pub Beyond : List ℕ → Type 0
Beyond cnt = (b : ℕ) → 32 ≤ b → get_elem? cnt b ≡ none

pub get_hbm_noc_port-Counted :
    (earlier : Dict MmapAttr) (cnt : List ℕ) (port : Text) (attr : MmapAttr)
    → Counted cnt earlier
    → attr.bank < 32
    → (next : List ℕ) × (get_hbm_noc_port cnt attr.bank
        ≡ ok (hbm_port attr.bank (1 + count_if (is_on attr.bank) earlier), next))
      × Counted next (earlier ++ (port, attr) ∷ [])
      × (Beyond cnt → Beyond next)
unfolding get_hbm_noc_port
get_hbm_noc_port-Counted earlier cnt port attr counted small =
    let found = counted attr.bank small in
    let (next, made, at_, other) = counted_up cnt attr.bank _ found in
    (
      next,
      rw (ap of_some found, made) refl,
      λ b b_small. up next at_ other b (counted b b_small),
      λ beyond b large. other b (omega (arith, small, large)) ∙ beyond b large,
    )
  where
    of_some : Option ℕ → Result ℕ
    of_some o = elim o [ none ↦ err key_error | some c ↦ ok c ]

    up :
        (next : List ℕ)
        → get_elem? next attr.bank ≡ some (1 + count_if (is_on attr.bank) earlier + 1)
        → ((j : ℕ) → j ≢ attr.bank → get_elem? next j ≡ get_elem? cnt j)
        → (b : ℕ) → get_elem? cnt b ≡ some (1 + count_if (is_on b) earlier)
        → get_elem? next b ≡ some (1 + count_if (is_on b) (earlier ++ (port, attr) ∷ []))
    up next at_ other b before =
        let grown = count_if-append (is_on b) earlier port attr in
        elim (ℕ_discrete b attr.bank) [
          | yes e ↦
              let same : is_on b attr ≡ true = ground (arith, e) in
              ap (get_elem? next) e
              ∙ at_
              ∙ ap some (omega (arith, rw same at grown, ap (λ k. count_if (is_on k) earlier) e))
          | no ne ↦
              let different : is_on b attr ≡ false = ground (arith, ne) in
              other b ne ∙ before ∙ ap some (omega (arith, rw different at grown))
        ]

pub get_hbm_noc_port-large :
    (cnt : List ℕ) (bank : ℕ)
    → get_elem? cnt bank ≡ none
    → get_hbm_noc_port cnt bank ≡ err key_error
unfolding get_hbm_noc_port
get_hbm_noc_port-large cnt bank beyond = rw (ap of_some beyond) refl
  where
    of_some : Option ℕ → Result ℕ
    of_some o = elim o [ none ↦ err key_error | some c ↦ ok c ]
