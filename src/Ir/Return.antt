-- ===== src/Ir/Return.antt =====
-- get_credit_return_regions places every part of the credit return pipeline.
use mathlib.Core.Path.{subst}
use mathlib.Core.List.{reverse, reverse-cons}
use rapidstream_noc.Common.{
  ℕ, ◌≢◌, ◌==◌, Bool-cases, zero, suc, ◌+◌, ◌-◌, ◌*◌, ◌/◌, ◌≤◌, ◌<◌, ◌≡◌, ◌∙◌, refl, sym, ap, inl,
  inr, List, [], ◌∷◌, Option, none, some, if◌then◌else◌, ltb, Dict, lookup, set_item, length,
  length-append, arith, Returns,
}
use rapidstream_noc.Common.Text.{Text}
use rapidstream_noc.Common.Text.Edit.{quoted}
use rapidstream_noc.Ir.Regions.{
  head_region, tail_region, body_region, set_bodies, route_round, route_rounds, last_of,
  return_regions, get_credit_return_regions,
}
use rapidstream_noc.Ir.Placed.{
  body-set_bodies, head-set_bodies, tail-set_bodies, body-route_rounds_before, body-route_rounds,
  body-route_rounds_after, head-route_rounds, tail-route_rounds, body-body, body-head, head-body,
  head-head, quoted_at,
}

-- The slot of the `k`-th register between head and tail, for the route from the NSU back: the head's
-- slot has one of them, so has the tail's, and every slot between has two; the parameters of
-- registers that the pipeline does not have are filled with the tail's slot up to the ninth.
abbrev pub slot_of_body : List Text → ℕ → Option Text
slot_of_body back k =
    if ltb (k + 2) (length back * 2)
    then quoted_at back ((k + 1) / 2)
    else if ltb k 9
    then quoted_at back (length back - 1)
    else none

quoted_at-last :
    (r : Text) (route : List Text)
    → quoted_at (r ∷ route) (length route) ≡ some (quoted (last_of r route))
quoted_at-last r [] = refl
quoted_at-last r (s ∷ route) = quoted_at-last s route

quoted_at-end :
    (r : Text) (route : List Text)
    → quoted_at (r ∷ route) (length (r ∷ route) - 1) ≡ some (quoted (last_of r route))
quoted_at-end r route =
    let same : length (r ∷ route) - 1 ≡ length route = omega arith in
    rw same (quoted_at-last r route)

length-reverse : (xs : List Text) → length (reverse xs) ≡ length xs
length-reverse [] = refl
length-reverse (x ∷ xs) =
    ap (λ (l : List Text). length l) (reverse-cons x xs)
    ∙ omega (arith, length-append (reverse xs) (x ∷ []), length-reverse xs)

abbrev Placed : List Text → ℕ → Dict Text → Type 0
Placed back k d =
    (lookup head_region d ≡ quoted_at back 0)
    × (lookup tail_region d ≡ quoted_at back (length back - 1))
    × (lookup (body_region k) d ≡ slot_of_body back k)

module _ (r s : Text) (route : List Text) where
  abbrev n : ℕ
  n = length (r ∷ s ∷ route)

  abbrev first : Dict Text
  first = set_item (body_region 0) (quoted r) (set_item head_region (quoted r) [])

  abbrev rounds : Dict Text
  rounds = route_rounds n 1 (s ∷ route) first

  abbrev tail_slot : Text
  tail_slot = quoted (last_of s route)

  first-body : (k : ℕ) → lookup (body_region k) first ≡ (if k == 0 then some (quoted r) else none)
  unfolding lookup
  first-body k =
      body-body k (quoted r) (set_item head_region (quoted r) []) 0
      ∙ rw (body-head k (quoted r) []) refl

  rounds-body :
      (k : ℕ)
      → k + 2 < n * 2
      → lookup (body_region k) rounds ≡ quoted_at (r ∷ s ∷ route) ((k + 1) / 2)
  rounds-body zero h =
      body-route_rounds_before 0 n 0 (s ∷ route) first (omega arith) (omega arith) ∙ first-body 0
  rounds-body (suc k) h =
      let half : (suc k + 1) / 2 ≡ suc (k / 2) = omega arith in
      rw half (elim (Bool-cases (k == k / 2 * 2)) [
        | inl e ↦
            (let even : k ≡ k / 2 * 2 = ground (arith, e) in
              body-route_rounds (suc k) n 0 (k / 2) (s ∷ route) first (omega arith)
                (inl (omega arith)) h)
        | inr e ↦
            (let odd : k ≢ k / 2 * 2 = ground (arith, e) in
              body-route_rounds (suc k) n 0 (k / 2) (s ∷ route) first (omega arith)
                (inr (omega arith)) h)
      ])

  rounds-none : (k : ℕ) → n * 2 ≤ k + 2 → lookup (body_region k) rounds ≡ none
  rounds-none k h =
      body-route_rounds_after k n 0 (s ∷ route) first (omega arith) h ∙ ground (arith, first-body k)

return_regions-Placed :
    (back : List Text) (k : ℕ) → 1 < length back → Returns (Placed back k) (return_regions back)
unfolding route_rounds route_round
return_regions-Placed [] k h = let never : ⊥ = omega arith in elim never [ ]
return_regions-Placed (r ∷ []) k h = let never : ⊥ = omega arith in elim never [ ]
return_regions-Placed (r ∷ s ∷ route) k h =
    let lo = n r s route * 2 - 2 in
    let fill = 9 - lo in
    let made = rounds r s route in
    let v = tail_slot r s route in
    let last = quoted_at-end r (s ∷ route) in
    let body = body-set_bodies k lo fill v made in
    let placed = rounds-body r s route k in
    let absent = rounds-none r s route k in
    (
      set_bodies lo fill v made,
      refl,
      (
        head-set_bodies lo fill v made
            ∙ head-route_rounds (n r s route) 0 (s ∷ route) (first r s route)
            ∙ head-body 0 (quoted r) (set_item head_region (quoted r) [])
            ∙ head-head (quoted r) [],
        tail-set_bodies lo fill v made
            ∙ tail-route_rounds (n r s route) 0 s route (first r s route) (omega arith)
            ∙ sym last,
        ground (arith, last, body, placed, absent),
      ),
    )

-- For a route of at least two slots, get_credit_return_regions returns parameters that place the
-- head in the route's last slot, the tail in its first, and every register between them in its slot
-- on the way back, where the registers that the pipeline does not have share the tail's slot up to
-- the ninth and have no parameter after it.
pub get_credit_return_regions-Placed :
    (fifo_route : List Text) (k : ℕ)
    → 1 < length fifo_route
    → Returns
        (λ d.
          (lookup head_region d ≡ quoted_at (reverse fifo_route) 0)
          × (lookup tail_region d ≡ quoted_at (reverse fifo_route) (length fifo_route - 1))
          × (lookup (body_region k) d ≡ slot_of_body (reverse fifo_route) k))
        (get_credit_return_regions fifo_route)
unfolding get_credit_return_regions
get_credit_return_regions-Placed fifo_route k h =
    let same = length-reverse fifo_route in
    let (d, e, (head_at, tail_at, body_at)) =
      return_regions-Placed (reverse fifo_route) k (omega arith) in
    (
      d,
      e,
      (
        head_at,
        subst (λ m. lookup tail_region d ≡ quoted_at (reverse fifo_route) (m - 1)) same tail_at,
        body_at,
      ),
    )
