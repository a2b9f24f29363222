-- ===== src/Select/Count.antt =====
-- What `get_streams_noc_area` counts in a slot.
use mathlib.Core.Path.{subst}
use rapidstream_noc.Common.{
  ℕ, zero, suc, ◌+◌, ◌<◌, ◌≡◌, ◌≢◌, refl, sym, ap, ◌∙◌, Bool, false, ◌&&◌, List, [], ◌∷◌, map,
  range, ◌==◌, Result, ok, ok_inj, err, ◌>>=◌, >>=-eq-ok, get_item, map_each, arith, if◌then◌else◌,
}
use native.Mathlib.Decide.{ℕ_discrete}
use rapidstream_noc.Common.Text.{Text}
use rapidstream_noc.Graph.Names.{get_item-map-range, get_item-range}
use rapidstream_noc.Device.{Device, cell_at}
use rapidstream_noc.Device.Slots.{map_each-cons, get_item-map_each}
use rapidstream_noc.Slots.{extract_slot_range}
use rapidstream_noc.Select.{
  NocUsage, StreamsSlots, update_at, increment, use_first, use_range, count_streams, zeros,
  usage_at, get_streams_noc_area,
}

abbrev one_if : Bool → ℕ
one_if b = if b then 1 else 0

-- Whether a list of slots begins with a slot.
abbrev pub begins : List (ℕ × ℕ) → ℕ → ℕ → Bool
begins [] x y = false
begins ((u, v) ∷ slots) x y = u == x && v == y

abbrev pub range_begins : Text → ℕ → ℕ → Bool
range_begins slot_range x y = elim (extract_slot_range slot_range) [
  | ok slots ↦ begins slots x y
  | err e ↦ false
]

-- How many streams have a slot as the first of their source, or of their destination.
abbrev pub num_sources : StreamsSlots → ℕ → ℕ → ℕ
num_sources [] x y = 0
num_sources ((s, slots) ∷ streams) x y =
    one_if (range_begins slots.src x y) + num_sources streams x y

abbrev pub num_dests : StreamsSlots → ℕ → ℕ → ℕ
num_dests [] x y = 0
num_dests ((s, slots) ∷ streams) x y = one_if (range_begins slots.dest x y) + num_dests streams x y

module _ {ℓ} {A : Type ℓ} where
  update_at-here :
      (xs : List A) (i : ℕ) (f : A → Result A) (ys : List A) (a : A)
      → update_at xs i f ≡ ok ys
      → get_item xs i ≡ ok a
      → (b : A) × (f a ≡ ok b) × (get_item ys i ≡ ok b)
  unfolding update_at
  update_at-here [] i f ys a e h = cc
  update_at-here (x ∷ xs) zero f ys a e h =
      let (b, made, eq) = >>=-eq-ok (f x) _ e in
      (
        b,
        subst (λ k. f k ≡ ok b) (ok_inj h) made,
        subst (λ l. get_item l 0 ≡ ok b) (ok_inj eq) refl,
      )
  update_at-here (x ∷ xs) (suc i) f ys a e h =
      let (bs, made, eq) = >>=-eq-ok (update_at xs i f) _ e in
      let (b, became, there) = update_at-here xs i f bs a made h in
      (b, became, subst (λ l. get_item l (suc i) ≡ ok b) (ok_inj eq) there)

  update_at-other :
      (xs : List A) (i j : ℕ) (f : A → Result A) (ys : List A) (a : A)
      → update_at xs i f ≡ ok ys
      → get_item xs j ≡ ok a
      → i ≢ j
      → get_item ys j ≡ ok a
  unfolding update_at
  update_at-other [] i j f ys a e h ne = cc
  update_at-other (x ∷ xs) zero zero f ys a e h ne = absurd (ne refl)
  update_at-other (x ∷ xs) zero (suc j) f ys a e h ne =
      let (b, made, eq) = >>=-eq-ok (f x) _ e in
      subst (λ l. get_item l (suc j) ≡ ok a) (ok_inj eq) h
  update_at-other (x ∷ xs) (suc i) zero f ys a e h ne =
      let (bs, made, eq) = >>=-eq-ok (update_at xs i f) _ e in
      subst (λ l. get_item l 0 ≡ ok a) (ok_inj eq) h
  update_at-other (x ∷ xs) (suc i) (suc j) f ys a e h ne =
      let (bs, made, eq) = >>=-eq-ok (update_at xs i f) _ e in
      subst (λ l. get_item l (suc j) ≡ ok a) (ok_inj eq)
        (update_at-other xs i j f bs a made h (λ k. ne (ap suc k)))

pub increment-column :
    (column made : List ℕ) (v y n : ℕ)
    → update_at column v (λ k. ok (k + 1)) ≡ ok made
    → get_item column y ≡ ok n
    → get_item made y ≡ ok (n + one_if (v == y))
increment-column column made v y n e h = elim (ℕ_discrete v y) [
  | no other ↦
      update_at-other column v y _ made n e h other ∙ ap (λ k. ok k) (ground (arith, other))
  | yes same ↦
      let (b, more, there) =
        update_at-here column v (λ k. ok (k + 1)) made n e
          (subst (λ k. get_item column k ≡ ok n) (sym same) h) in
      subst (λ k. get_item made k ≡ ok b) same there
      ∙ sym more
      ∙ ap (λ k. ok k) (ground (arith, same))
]

pub increment-cell :
    (usage made : List (List ℕ)) (u v x y n : ℕ)
    → increment usage u v ≡ ok made
    → cell_at usage x y ≡ ok n
    → cell_at made x y ≡ ok (n + one_if (u == x && v == y))
increment-cell usage made u v x y n e h =
    let (column, found, at_y) = >>=-eq-ok (get_item usage x) _ h in
    elim (ℕ_discrete u x) [
      | no other ↦
          rw (update_at-other usage u x _ made column e found other, at_y)
            (ap (λ k. ok k) (ground (arith, other)))
      | yes same ↦
          let (c, became, there) =
            update_at-here usage u (λ c. update_at c v (λ k. ok (k + 1))) made column e
              (subst (λ k. get_item usage k ≡ ok column) (sym same) found) in
          rw (subst (λ k. get_item made k ≡ ok c) same there)
            (increment-column column c v y n became at_y ∙ ap (λ k. ok k) (ground (arith, same)))
    ]

use_range-cell :
    (usage made : List (List ℕ)) (slot_range : Text) (x y n : ℕ)
    → use_range usage slot_range ≡ ok made
    → cell_at usage x y ≡ ok n
    → cell_at made x y ≡ ok (n + one_if (range_begins slot_range x y))
use_range-cell usage made slot_range x y n e h =
    let (slots, read, used) = >>=-eq-ok (extract_slot_range slot_range) _ e in
    rw (range_begins, read) (by_slots slots used)
  where
    by_slots :
        (slots : List (ℕ × ℕ))
        → use_first usage slots ≡ ok made
        → cell_at made x y ≡ ok (n + one_if (begins slots x y))
    by_slots [] used =
        subst (λ t. cell_at t x y ≡ ok (n + 0)) (ok_inj used) (h ∙ ap (λ k. ok k) (omega arith))
    by_slots ((u, v) ∷ slots) used = increment-cell usage made u v x y n used h

count_streams-cells :
    (streams : StreamsSlots) (nmu nsu nmu' nsu' : List (List ℕ)) (x y m n : ℕ)
    → count_streams streams nmu nsu ≡ ok (nmu', nsu')
    → cell_at nmu x y ≡ ok m
    → cell_at nsu x y ≡ ok n
    → (cell_at nmu' x y ≡ ok (m + num_sources streams x y))
      × (cell_at nsu' x y ≡ ok (n + num_dests streams x y))
unfolding count_streams
count_streams-cells [] nmu nsu nmu' nsu' x y m n e hm hn =
    let same = ok_inj e in
    (
      subst (λ t. cell_at t.0 x y ≡ ok (m + 0)) same (hm ∙ ap (λ k. ok k) (omega arith)),
      subst (λ t. cell_at t.1 x y ≡ ok (n + 0)) same (hn ∙ ap (λ k. ok k) (omega arith)),
    )
count_streams-cells ((s, slots) ∷ streams) nmu nsu nmu' nsu' x y m n e hm hn =
    let (nmu1, e1, rest) = >>=-eq-ok (use_range nmu slots.src) _ e in
    let (nsu1, e2, rest2) = >>=-eq-ok (use_range nsu slots.dest) _ rest in
    let (cm, cn) =
      count_streams-cells streams nmu1 nsu1 nmu' nsu' x y _ _ rest2
        (use_range-cell nmu nmu1 slots.src x y m e1 hm)
        (use_range-cell nsu nsu1 slots.dest x y n e2 hn) in
    (cm ∙ ap (λ k. ok k) (omega arith), cn ∙ ap (λ k. ok k) (omega arith))

pub zeros-cell :
    (slot_width slot_height x y : ℕ)
    → x < slot_width
    → y < slot_height
    → cell_at (zeros slot_width slot_height) x y ≡ ok 0
zeros-cell slot_width slot_height x y hx hy =
    rw (get_item-map-range (λ x. map {B = ℕ} (λ y. 0) (range slot_height)) slot_width x hx)
      (get_item-map-range {A = ℕ} (λ y. 0) slot_height y hy)

map_each-item {ℓ κ} :
    {A : Type ℓ} {B : Type κ} (xs : List A) (body : A → Result B) (ys : List B) (i : ℕ) (x : A)
    → map_each xs body ≡ ok ys
    → get_item xs i ≡ ok x
    → (y : B) × (body x ≡ ok y) × (get_item ys i ≡ ok y)
map_each-item [] body ys i x e f = cc
map_each-item (x' ∷ xs) body ys zero x e f =
    let (y, zs, e1, e2, eq) = map_each-cons x' xs body ys e in
    (y, subst (λ k. body k ≡ ok y) (ok_inj f) e1, subst (λ l. get_item l 0 ≡ ok y) (sym eq) refl)
map_each-item (x' ∷ xs) body ys (suc i) x e f =
    let (y, zs, e1, e2, eq) = map_each-cons x' xs body ys e in
    let (z, made, there) = map_each-item xs body zs i x e2 f in
    (z, made, subst (λ l. get_item l (suc i) ≡ ok z) (sym eq) there)

-- When `get_streams_noc_area` returns, its entry for a slot of the grid counts the streams that have
-- the slot as the first of their source range, and of their destination range.
pub get_streams_noc_area-counts :
    (streams : StreamsSlots) (d : Device) (usage : List (List NocUsage)) (x y : ℕ)
    → get_streams_noc_area streams d ≡ ok usage
    → x < d.slot_width
    → y < d.slot_height
    → (get_item usage x >>= λ column. get_item column y)
      ≡ ok (record { nmu = num_sources streams x y; nsu = num_dests streams x y })
unfolding get_streams_noc_area
get_streams_noc_area-counts streams d usage x y e hx hy =
    let (tables, counted, filled) =
      >>=-eq-ok
        (count_streams streams (zeros d.slot_width d.slot_height)
          (zeros d.slot_width d.slot_height))
        _ e in
    let zero_here = zeros-cell d.slot_width d.slot_height x y hx hy in
    let (cm, cn) =
      count_streams-cells streams _ _ tables.0 tables.1 x y 0 0 counted zero_here zero_here in
    let row =
      λ (i : ℕ). map_each (range d.slot_height) (λ (j : ℕ). usage_at tables.0 tables.1 i j) in
    let (column, made, in_column) =
      map_each-item (range d.slot_width) row usage x x filled (get_item-range d.slot_width x hx) in
    rw (
      in_column,
      get_item-map_each (range d.slot_height) (λ j. usage_at tables.0 tables.1 x j) column y y made
          (get_item-range d.slot_height y hy),
      cm ∙ ap (λ k. ok k) (zero_plus (num_sources streams x y)),
      cn ∙ ap (λ k. ok k) (zero_plus (num_dests streams x y)),
    )
  where
    zero_plus : (n : ℕ) → 0 + n ≡ n
    zero_plus n = omega arith
