-- ===== src/Ir/Placed.antt =====
-- Where get_credit_return_regions places the parts of the credit return pipeline.
use rapidstream_noc.Common.{
  ℕ, zero, suc, ◌+◌, ◌-◌, ◌*◌, ◌≤◌, ◌<◌, ◌≡◌, ◌∙◌, ◌⊎◌, refl, List, [], ◌∷◌, Option, none, some,
  if◌then◌else◌, ◌==◌, ltb, leb, ◌&&◌, Dict, lookup, set_item, lookup-set_item, length, get_elem?,
  arith,
}
use rapidstream_noc.Common.Text.{Text, text_eq}
use rapidstream_noc.Common.Text.Edit.{quoted}
use rapidstream_noc.Ir.Regions.{
  head_region, tail_region, body_region, set_bodies, route_round, route_rounds, last_of,
  body_region-eq,
}

module _ (k : ℕ) (v : Text) (d : Dict Text) where
  pub body-body :
      (j : ℕ)
      → lookup (body_region k) (set_item (body_region j) v d)
        ≡ (if k == j then some v else lookup (body_region k) d)
  body-body j = lookup-set_item (body_region k) (body_region j) v d ∙ rw (body_region-eq k j) refl

  pub body-head : lookup (body_region k) (set_item head_region v d) ≡ lookup (body_region k) d
  unfolding text_eq
  body-head = lookup-set_item (body_region k) head_region v d

  body-tail : lookup (body_region k) (set_item tail_region v d) ≡ lookup (body_region k) d
  unfolding text_eq
  body-tail = lookup-set_item (body_region k) tail_region v d

  pub head-body : lookup head_region (set_item (body_region k) v d) ≡ lookup head_region d
  unfolding text_eq
  head-body = lookup-set_item head_region (body_region k) v d

  tail-body : lookup tail_region (set_item (body_region k) v d) ≡ lookup tail_region d
  unfolding text_eq
  tail-body = lookup-set_item tail_region (body_region k) v d

tail-tail : (v : Text) (d : Dict Text) → lookup tail_region (set_item tail_region v d) ≡ some v
unfolding text_eq
tail-tail v d = lookup-set_item tail_region tail_region v d

head-tail :
    (v : Text) (d : Dict Text)
    → lookup head_region (set_item tail_region v d) ≡ lookup head_region d
unfolding text_eq
head-tail v d = lookup-set_item head_region tail_region v d

pub head-head : (v : Text) (d : Dict Text) → lookup head_region (set_item head_region v d) ≡ some v
unfolding text_eq
head-head v d = lookup-set_item head_region head_region v d

pub body-set_bodies :
    (k i count : ℕ) (v : Text) (d : Dict Text)
    → lookup (body_region k) (set_bodies i count v d)
      ≡ (if leb i k && ltb k (i + count) then some v else lookup (body_region k) d)
unfolding set_bodies
body-set_bodies k i zero v d = ground arith
body-set_bodies k i (suc count) v d =
    let rest = body-set_bodies k (suc i) count v (set_item (body_region i) v d) in
    let here = body-body k v d i in ground (arith, rest, here)

pub head-set_bodies :
    (i count : ℕ) (v : Text) (d : Dict Text)
    → lookup head_region (set_bodies i count v d) ≡ lookup head_region d
unfolding set_bodies
head-set_bodies i zero v d = refl
head-set_bodies i (suc count) v d =
    head-set_bodies (suc i) count v (set_item (body_region i) v d) ∙ head-body i v d

pub tail-set_bodies :
    (i count : ℕ) (v : Text) (d : Dict Text)
    → lookup tail_region (set_bodies i count v d) ≡ lookup tail_region d
unfolding set_bodies
tail-set_bodies i zero v d = refl
tail-set_bodies i (suc count) v d =
    tail-set_bodies (suc i) count v (set_item (body_region i) v d) ∙ tail-body i v d

-- A round after the first.
body-route_round :
    (k n i : ℕ) (r : Text) (d : Dict Text)
    → i + 2 ≤ n
    → lookup (body_region k) (route_round n (suc i) r d) ≡ (
        if k == i * 2 + 1
        then some (quoted r)
        else if k == i * 2 + 2 && ltb (i + 2) n
        then some (quoted r)
        else lookup (body_region k) d)
unfolding route_round
body-route_round k n i r d h =
    let before : suc i - 1 ≡ i = omega arith in
    let once = set_item (body_region (i * 2 + 1)) (quoted r) d in
    let one = body-body k (quoted r) d (i * 2 + 1) in
    let two = body-body k (quoted r) once (i * 2 + 2) in
    let end_ = body-tail k (quoted r) once in rw before (ground (arith, one, two, end_))

head-route_round :
    (n i : ℕ) (r : Text) (d : Dict Text)
    → lookup head_region (route_round n (suc i) r d) ≡ lookup head_region d
unfolding route_round
head-route_round n i r d =
    let once = set_item (body_region ((suc i - 1) * 2 + 1)) (quoted r) d in
    let one = head-body ((suc i - 1) * 2 + 1) (quoted r) d in
    let two = head-body ((suc i - 1) * 2 + 2) (quoted r) once in
    let end_ = head-tail (quoted r) once in ground (arith, one, two, end_)

tail-route_round :
    (n i : ℕ) (r : Text) (d : Dict Text)
    → i + 2 ≡ n
    → lookup tail_region (route_round n (suc i) r d) ≡ some (quoted r)
unfolding route_round
tail-route_round n i r d h =
    let once = set_item (body_region ((suc i - 1) * 2 + 1)) (quoted r) d in
    let end_ = tail-tail (quoted r) once in ground (arith, end_)

-- The later rounds leave the parts before them as they are.
pub body-route_rounds_before :
    (k n i : ℕ) (route : List Text) (d : Dict Text)
    → i + 1 + length route ≡ n
    → k ≤ i * 2
    → lookup (body_region k) (route_rounds n (suc i) route d) ≡ lookup (body_region k) d
unfolding route_rounds
body-route_rounds_before k n i [] d e h = refl
body-route_rounds_before k n i (r ∷ route) d e h =
    let later =
      body-route_rounds_before k n (suc i) route (route_round n (suc i) r d) (omega arith)
        (omega arith) in
    let here = body-route_round k n i r d (omega arith) in ground (arith, later, here)

abbrev pub quoted_at : List Text → ℕ → Option Text
quoted_at route m = elim (get_elem? route m) [ none ↦ none | some r ↦ some (quoted r) ]

-- Each later round places two parts, the last one only the first of the two.
pub body-route_rounds :
    (k n i m : ℕ) (route : List Text) (d : Dict Text)
    → i + 1 + length route ≡ n
    → (k ≡ i * 2 + m * 2 + 1) ⊎ (k ≡ i * 2 + m * 2 + 2)
    → k + 2 < n * 2
    → lookup (body_region k) (route_rounds n (suc i) route d) ≡ quoted_at route m
unfolding route_rounds
body-route_rounds k n i m [] d e at_m h = let never : ⊥ = omega arith in elim never [ ]
body-route_rounds k n i zero (r ∷ route) d e at_m h =
    let later =
      body-route_rounds_before k n (suc i) route (route_round n (suc i) r d) (omega arith)
        (omega arith) in
    let here = body-route_round k n i r d (omega arith) in ground (arith, later, here)
body-route_rounds k n i (suc m) (r ∷ route) d e at_m h =
    body-route_rounds k n (suc i) m route (route_round n (suc i) r d) (omega arith) (omega arith) h

-- No round places a part that the pipeline does not have.
pub body-route_rounds_after :
    (k n i : ℕ) (route : List Text) (d : Dict Text)
    → i + 1 + length route ≡ n
    → n * 2 ≤ k + 2
    → lookup (body_region k) (route_rounds n (suc i) route d) ≡ lookup (body_region k) d
unfolding route_rounds
body-route_rounds_after k n i [] d e h = refl
body-route_rounds_after k n i (r ∷ route) d e h =
    let later =
      body-route_rounds_after k n (suc i) route (route_round n (suc i) r d) (omega arith) h in
    let here = body-route_round k n i r d (omega arith) in ground (arith, later, here)

pub head-route_rounds :
    (n i : ℕ) (route : List Text) (d : Dict Text)
    → lookup head_region (route_rounds n (suc i) route d) ≡ lookup head_region d
unfolding route_rounds
head-route_rounds n i [] d = refl
head-route_rounds n i (r ∷ route) d =
    head-route_rounds n (suc i) route (route_round n (suc i) r d) ∙ head-route_round n i r d

pub tail-route_rounds :
    (n i : ℕ) (r : Text) (route : List Text) (d : Dict Text)
    → i + 2 + length route ≡ n
    → lookup tail_region (route_rounds n (suc i) (r ∷ route) d) ≡ some (quoted (last_of r route))
unfolding route_rounds
tail-route_rounds n i r [] d e = tail-route_round n i r d (omega arith)
tail-route_rounds n i r (s ∷ route) d e =
    tail-route_rounds n (suc i) s route (route_round n (suc i) r d) (omega arith)
