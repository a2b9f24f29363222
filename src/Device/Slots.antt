-- ===== src/Device/Slots.antt =====
-- The numbers of NMU and NSU nodes that a device counts for a slot.
use rapidstream_noc.Common.{
  ℕ, zero, suc, ◌*◌, ◌/◌, ◌<◌, ◌≤◌, ◌≡◌, refl, ◌∙◌, List, [], ◌∷◌, map, length, range, arith,
  lt→ltb, Result, ok, Returns, All, All-range, le→leb, ==_refl, get_item-Returns, >>=-eq-ok,
  get_item, map_each,
}
use rapidstream_noc.Graph.Names.{get_item-map-range, get_item-range}
use rapidstream_noc.Device.{
  Device, init, per_slot, cell_at, get_num_nmu_in_slot, get_num_nsu_in_slot, first_column_fits,
}

module _ {ℓ κ} {A : Type ℓ} {B : Type κ} where
  pub map_each-cons :
      (x : A) (xs : List A) (body : A → Result B) (ys : List B)
      → map_each (x ∷ xs) body ≡ ok ys
      → (y : B) × (zs : List B) × (body x ≡ ok y) × (map_each xs body ≡ ok zs) × (ys ≡ y ∷ zs)
  unfolding map_each
  map_each-cons x xs body ys e =
      let (y, e1, rest) = >>=-eq-ok (body x) _ e in
      let (zs, e2, done) = >>=-eq-ok (map_each xs body) _ rest in (y, zs, e1, e2, cc)

  -- What `map_each` puts at a place is what the body returned there.
  pub get_item-map_each :
      (xs : List A) (body : A → Result B) (ys : List B) (i : ℕ) (x : A)
      → map_each xs body ≡ ok ys
      → get_item xs i ≡ ok x
      → get_item ys i ≡ body x
  get_item-map_each [] body ys i x e f = cc
  get_item-map_each (x' ∷ xs) body ys zero x e f =
      let (y, zs, e1, e2, eq) = map_each-cons x' xs body ys e in rw eq (cc)
  get_item-map_each (x' ∷ xs) body ys (suc i) x e f =
      let (y, zs, e1, e2, eq) = map_each-cons x' xs body ys e in
      rw eq (get_item-map_each xs body zs i x e2 f)

  pub map_each-Returns :
      (xs : List A) (body : A → Result B)
      → All (λ x. Returns (λ _. Unit {0}) (body x)) xs
      → Returns (λ _. Unit {0}) (map_each xs body)
  unfolding map_each
  map_each-Returns [] body _ = ([], refl, tt)
  map_each-Returns (x ∷ xs) body ((y, e, _), hs) =
      let (ys, e', _) = map_each-Returns xs body hs in (y ∷ ys, rw (e, e'), tt)

  get_item-map :
      (f : A → B) (xs : List A) (i : ℕ) (x : A)
      → get_item xs i ≡ ok x
      → get_item (map f xs) i ≡ ok (f x)
  get_item-map f [] i x e = cc
  get_item-map f (x' ∷ xs) zero x e = cc
  get_item-map f (x' ∷ xs) (suc i) x e = get_item-map f xs i x e

-- The arguments that the assertions of `__init__` accept.
pub record IsAccepted (d : Device) : Type 0 where
  pub slrs : d.noc_graph.num_slr ≡ d.slot_height
  pub rows : length d.noc_graph.rows_per_slr ≡ d.noc_graph.num_slr
  pub columns : length d.cr_mapping ≤ d.slot_width
  pub first_column : first_column_fits d.cr_mapping d.slot_height ≡ ok tt

abbrev filled : Device → List ℕ → Device
filled d heights = record d {
  nmu_per_slot = per_slot d.slot_width d.noc_graph.num_col heights;
  nsu_per_slot = per_slot d.slot_width d.noc_graph.num_col heights;
}

heights-Returns :
    (d : Device)
    → IsAccepted d
    → Returns (λ _. Unit {0}) (map_each (range d.slot_height) (get_item d.noc_graph.rows_per_slr))
heights-Returns d a = map_each-Returns (range d.slot_height) (get_item d.noc_graph.rows_per_slr) (
    All-range (λ j. Returns (λ _. Unit {0}) (get_item d.noc_graph.rows_per_slr j)) 0 d.slot_height
      (λ j _ h. get_item-Returns d.noc_graph.rows_per_slr j (omega arith)))
  where
    open a use {slrs, rows}

init-filled :
    (d : Device) (heights : List ℕ)
    → IsAccepted d
    → map_each (range d.slot_height) (get_item d.noc_graph.rows_per_slr) ≡ ok heights
    → init d ≡ ok (filled d heights)
unfolding init
init-filled d heights a e = rw (
  ==_refl d.noc_graph.num_slr d.slot_height a.slrs,
  le→leb (length d.cr_mapping) d.slot_width a.columns,
  a.first_column,
  e,
)

cell-filled :
    (d : Device) (heights : List ℕ) (x y height : ℕ)
    → map_each (range d.slot_height) (get_item d.noc_graph.rows_per_slr) ≡ ok heights
    → x < d.slot_width
    → y < d.slot_height
    → get_item d.noc_graph.rows_per_slr y ≡ ok height
    → cell_at (per_slot d.slot_width d.noc_graph.num_col heights) x y
      ≡ ok (height * d.noc_graph.num_col / d.slot_width)
cell-filled d heights x y height e hx hy at_y =
    rw (get_item-map-range (λ i. map entry heights) d.slot_width x hx) (
      get_item-map entry heights y height (
        get_item-map_each (range d.slot_height) (get_item d.noc_graph.rows_per_slr) heights y y e
          (get_item-range d.slot_height y hy)
        ∙ at_y))
  where
    entry : ℕ → ℕ
    entry h = h * d.noc_graph.num_col / d.slot_width

-- Accepted arguments make a device that keeps their NoC graph and grid, and whose count of NMUs and
-- of NSUs in a slot of the grid is the slot's share, rounded down, of the nodes of its SLR.
pub init_counts :
    (d : Device)
    → IsAccepted d
    → (x y height : ℕ) → x < d.slot_width
    → y < d.slot_height
    → get_item d.noc_graph.rows_per_slr y ≡ ok height
    → (made : Device) × (init d ≡ ok made)
      × (made.noc_graph ≡ d.noc_graph)
      × (made.slot_width ≡ d.slot_width)
      × (made.slot_height ≡ d.slot_height)
      × (get_num_nmu_in_slot made x y ≡ ok (height * d.noc_graph.num_col / d.slot_width))
      × (get_num_nsu_in_slot made x y ≡ ok (height * d.noc_graph.num_col / d.slot_width))
unfolding get_num_nmu_in_slot get_num_nsu_in_slot
init_counts d a x y height hx hy at_y =
    let (heights, e, _) = heights-Returns d a in
    let counted = cell-filled d heights x y height e hx hy at_y in
    (
      filled d heights,
      init-filled d heights a e,
      refl,
      refl,
      refl,
      rw (lt→ltb x d.slot_width hx, lt→ltb y d.slot_height hy) counted,
      rw (lt→ltb x d.slot_width hx, lt→ltb y d.slot_height hy) counted,
    )
