-- ===== src/Ir/Regions.antt =====
-- The regions of a pipeline's parts: set_all_pipeline_regions and get_credit_return_regions. The
-- route is reversed in place; pipeline_credit_ret reads a route once, as its masters have different
-- names.
use mathlib.Core.List.{reverse, append_cancel_left, append_cancel_right}
use rapidstream_noc.Common.{
  ℕ, zero, suc, ◌+◌, ◌-◌, ◌*◌, ◌≡◌, Bool-cases, inl, inr, List, [], ◌∷◌, ◌++◌, Result, ok, err,
  index_error, if◌then◌else◌, ◌==◌, Dict, set_item, length, arith,
}
use rapidstream_noc.Common.Text.{Text, text_eq, codes, str_of}
use rapidstream_noc.Common.Text.Decimal.{str_of_inj}
use rapidstream_noc.Common.Text.Equality.{text_eq_refl, text_eq_ne}
use rapidstream_noc.Common.Text.Edit.{quoted}

abbrev pub head_region : Text
head_region = codes "__HEAD_REGION"

abbrev pub tail_region : Text
tail_region = codes "__TAIL_REGION"

-- `f"__BODY_{i}_REGION"`.
abbrev pub body_region : ℕ → Text
body_region i = codes "__BODY_" ++ str_of i ++ codes "_REGION"

-- `for i in range(…)`: the parts of `count` numbers from `i` on get the region.
unfoldable pub set_bodies : ℕ → ℕ → Text → Dict Text → Dict Text
unfolding set_item
set_bodies i zero region regions = regions
set_bodies i (suc count) region regions =
    set_bodies (suc i) count region (set_item (body_region i) region regions)

unfoldable pub set_all_pipeline_regions : Text → Dict Text
unfolding set_bodies set_item
set_all_pipeline_regions region =
    set_item tail_region (quoted region)
      (set_item head_region (quoted region) (set_bodies 0 9 (quoted region) []))

-- One round of the loop over the route, of which `n` is the length.
unfoldable pub route_round : ℕ → ℕ → Text → Dict Text → Dict Text
unfolding set_item
route_round n i r regions =
    if i == 0
    then set_item (body_region 0) (quoted r) (set_item head_region (quoted r) regions)
    else if i == n - 1
    then set_item tail_region (quoted r)
        (set_item (body_region ((i - 1) * 2 + 1)) (quoted r) regions)
    else set_item (body_region ((i - 1) * 2 + 2)) (quoted r)
        (set_item (body_region ((i - 1) * 2 + 1)) (quoted r) regions)

unfoldable pub route_rounds : ℕ → ℕ → List Text → Dict Text → Dict Text
unfolding route_round
route_rounds n i [] regions = regions
route_rounds n i (r ∷ route) regions = route_rounds n (suc i) route (route_round n i r regions)

-- `fifo_route[-1]`.
abbrev pub last_of : Text → List Text → Text
last_of r [] = r
last_of r (s ∷ route) = last_of s route

-- For the route as the function has reversed it.
abbrev pub return_regions : List Text → Result (Dict Text)
return_regions [] = err index_error
return_regions (r ∷ route) =
    let n = length (r ∷ route) in
    ok (
      set_bodies (n * 2 - 2) (9 - (n * 2 - 2)) (quoted (last_of r route))
        (route_rounds n 0 (r ∷ route) []))

unfoldable pub get_credit_return_regions : List Text → Result (Dict Text)
get_credit_return_regions fifo_route = return_regions (reverse fifo_route)

-- Two numbers of parts give two keys.
pub body_region-eq : (i j : ℕ) → text_eq (body_region i) (body_region j) ≡ (i == j)
body_region-eq i j = elim (Bool-cases (i == j)) [
  | inl e ↦ let same : i ≡ j = ground (arith, e) in rw (e, same) (text_eq_refl (body_region j))
  | inr n ↦ rw n (
      text_eq_ne (body_region i) (body_region j) (λ e.
        let digits = append_cancel_right (str_of i) (str_of j) (codes "_REGION") (
          append_cancel_left (codes "__BODY_") (str_of i ++ codes "_REGION")
            (str_of j ++ codes "_REGION") e) in
        let same = str_of_inj i j digits in ground (arith, n)))
]
