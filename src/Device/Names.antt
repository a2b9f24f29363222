-- ===== src/Device/Names.antt =====
-- The names of a slot's nodes: how many there are, and that slots share none.
use mathlib.Core.List.Memᴰ
use mathlib.Core.List.{Memᴰ}
use mathlib.Core.Path.{subst, ap₂}
use native.Mathlib.Nat.{mul-le-mul_left, le-div_iff_mul-le, div-mul-le_self, div-eq_of_eq-mul_left}
use native.Mathlib.Decide.{dec_lt}
use rapidstream_noc.Common.{
  ℕ, suc, ◌+◌, ◌*◌, ◌/◌, ◌<◌, ◌≤◌, ◌≡◌, refl, sym, ◌∙◌, inl, inr, List, [], ◌∷◌, map, length,
  length-append, length-map, length-range_from, sum, take, range_from, Memᴰ-range_from, arith,
  lt→ltb, ok, get_item, sum-take-suc, sum-take_mono, guard, assertion_error, ltb, ltb→lt,
  guard-eq-ok, >>=-eq-ok,
}
use rapidstream_noc.Common.Text.{Text}
use rapidstream_noc.Graph.Names.{node_name, node_name_inj}
use rapidstream_noc.Device.{Device, grid_names, get_nmu_or_nsu_names_in_slot}

length-grid_names :
    (t : Text) (xs ys : List ℕ) → length (grid_names t xs ys) ≡ length xs * length ys
length-grid_names t [] ys = omega arith
length-grid_names t (x ∷ xs) ys = omega (
  arith,
  length-append {0} (map (λ y. node_name t x y) ys) (grid_names t xs ys),
  length-map {0, 0} ys (λ y. node_name t x y),
  length-grid_names t xs ys,
)

-- A name in a grid is that of a node at some column and row of it.
Memᴰ-grid_names :
    (t n : Text) (xs ys : List ℕ)
    → Memᴰ n (grid_names t xs ys)
    → (x : ℕ) × (y : ℕ) × Memᴰ x xs × Memᴰ y ys × (node_name t x y ≡ n)
Memᴰ-grid_names t n [] ys m = absurd (Memᴰ.not-nil m)
Memᴰ-grid_names t n (x ∷ xs) ys m = elim (Memᴰ.append_cases (map (λ y. node_name t x y) ys) m) [
  | inl here ↦
      let (y, my, e) = Memᴰ.of_map (λ y. node_name t x y) ys here in (x, y, Memᴰ.head refl, my, e)
  | inr later ↦
      let (x', y, mx, my, e) = Memᴰ-grid_names t n xs ys later in (x', y, Memᴰ.tail mx, my, e)
]

regroup : (c h w n : ℕ) → c * w ≤ n → c * h * w ≤ h * n
regroup c h w n p = omega (arith, mul-le-mul_left h p)

next_block : (size a b : ℕ) → a < b → size * a + size ≤ size * b
next_block size a b h = grind arith

-- Blocks of one size that overlap are one block.
same_block :
    (size a b k : ℕ)
    → size * a ≤ k
    → k < size * a + size
    → size * b ≤ k
    → k < size * b + size
    → a ≡ b
same_block size a b k p q r s = elim (dec_lt a b) [
  | yes h ↦ absurd (omega (arith, next_block size a b h))
  | no h ↦ elim (dec_lt b a) [
    | yes h' ↦ absurd (omega (arith, next_block size b a h'))
    | no h' ↦ omega arith
  ]
]

module _ (d : Device) (t : Text) where
  abbrev cols : ℕ
  cols = d.noc_graph.num_col / d.slot_width

  abbrev slot_grid : ℕ → ℕ → ℕ → List Text
  slot_grid x y height =
      grid_names t (range_from (cols * x) cols)
        (range_from (sum (take y d.noc_graph.rows_per_slr)) height)

  names-slot_grid :
      (x y height : ℕ)
      → x < d.slot_width
      → y < d.slot_height
      → get_item d.noc_graph.rows_per_slr y ≡ ok height
      → get_nmu_or_nsu_names_in_slot d t x y ≡ ok (slot_grid x y height)
  unfolding get_nmu_or_nsu_names_in_slot
  names-slot_grid x y height hx hy e = rw (lt→ltb x d.slot_width hx, lt→ltb y d.slot_height hy, e)

  share-le :
      (height : ℕ) → 0 < d.slot_width → cols * height ≤ height * d.noc_graph.num_col / d.slot_width
  share-le height h = (le-div_iff_mul-le h).1 (
      regroup cols height d.slot_width d.noc_graph.num_col
        (div-mul-le_self d.noc_graph.num_col d.slot_width))

  same_rows :
      (a b ha hb k : ℕ)
      → get_item d.noc_graph.rows_per_slr a ≡ ok ha
      → get_item d.noc_graph.rows_per_slr b ≡ ok hb
      → sum (take a d.noc_graph.rows_per_slr) ≤ k
      → k < sum (take a d.noc_graph.rows_per_slr) + ha
      → sum (take b d.noc_graph.rows_per_slr) ≤ k
      → k < sum (take b d.noc_graph.rows_per_slr) + hb
      → a ≡ b
  same_rows a b ha hb k ea eb p q r s = ground (
    arith,
    sum-take-suc d.noc_graph.rows_per_slr a ha,
    sum-take-suc d.noc_graph.rows_per_slr b hb,
    sum-take_mono d.noc_graph.rows_per_slr (suc a) b,
    sum-take_mono d.noc_graph.rows_per_slr (suc b) a,
  )

  names-block :
      (x y height : ℕ) (n : Text)
      → Memᴰ n (slot_grid x y height)
      → (col : ℕ) × (row : ℕ) × (node_name t col row ≡ n)
        × (cols * x ≤ col)
        × (col < cols * x + cols)
        × (sum (take y d.noc_graph.rows_per_slr) ≤ row)
        × (row < sum (take y d.noc_graph.rows_per_slr) + height)
  names-block x y height n m =
      let (col, row, in_cols, in_rows, e) = Memᴰ-grid_names t n _ _ m in
      let (c0, c1) = (Memᴰ-range_from col (cols * x) cols).0 in_cols in
      let (r0, r1) = (Memᴰ-range_from row _ height).0 in_rows in (col, row, e, c0, c1, r0, r1)

names-inv :
    (d : Device) (t : Text) (x y : ℕ) (ns : List Text)
    → get_nmu_or_nsu_names_in_slot d t x y ≡ ok ns
    → (x < d.slot_width)
      × (y < d.slot_height)
      × (height : ℕ) × (get_item d.noc_graph.rows_per_slr y ≡ ok height)
      × (ns ≡ slot_grid d t x y height)
unfolding get_nmu_or_nsu_names_in_slot
names-inv d t x y ns e =
    let (_, g1, e1) = >>=-eq-ok (guard (ltb x d.slot_width) assertion_error) _ e in
    let (_, g2, e2) = >>=-eq-ok (guard (ltb y d.slot_height) assertion_error) _ e1 in
    let (height, at_y, e3) = >>=-eq-ok (get_item d.noc_graph.rows_per_slr y) _ e2 in
    (
      ltb→lt x d.slot_width (guard-eq-ok _ assertion_error g1),
      ltb→lt y d.slot_height (guard-eq-ok _ assertion_error g2),
      height,
      at_y,
      cc,
    )

slot_grid-size :
    (d : Device) (t : Text) (x y height : ℕ)
    → length (slot_grid d t x y height) ≡ d.noc_graph.num_col / d.slot_width * height
slot_grid-size d t x y height =
    let c = d.noc_graph.num_col / d.slot_width in
    length-grid_names t _ _
    ∙ ap₂ (λ m n. m * n) (length-range_from (c * x) c)
        (length-range_from (sum (take y d.noc_graph.rows_per_slr)) height)

-- For a slot of the device `get_nmu_or_nsu_names_in_slot` returns the names of its whole columns in
-- its rows, which are no more than the count of the slot's nodes.
pub names_count :
    (d : Device) (t : Text) (x y height : ℕ)
    → x < d.slot_width
    → y < d.slot_height
    → get_item d.noc_graph.rows_per_slr y ≡ ok height
    → (ns : List Text) × (get_nmu_or_nsu_names_in_slot d t x y ≡ ok ns)
      × (length ns ≡ d.noc_graph.num_col / d.slot_width * height)
      × (length ns ≤ height * d.noc_graph.num_col / d.slot_width)
names_count d t x y height hx hy e =
    let size = slot_grid-size d t x y height in
    (
      slot_grid d t x y height,
      names-slot_grid d t x y height hx hy e,
      size,
      omega (arith, size, share-le d t height (omega arith)),
    )

-- When the slots divide the columns evenly, `get_nmu_or_nsu_names_in_slot` returns exactly as many
-- names as the device counts nodes for the slot.
pub names_count_even :
    (d : Device) (t : Text) (x y height : ℕ)
    → x < d.slot_width
    → y < d.slot_height
    → get_item d.noc_graph.rows_per_slr y ≡ ok height
    → d.noc_graph.num_col / d.slot_width * d.slot_width ≡ d.noc_graph.num_col
    → (ns : List Text) × (get_nmu_or_nsu_names_in_slot d t x y ≡ ok ns)
      × (length ns ≡ height * d.noc_graph.num_col / d.slot_width)
names_count_even d t x y height hx hy e even = (
  slot_grid d t x y height,
  names-slot_grid d t x y height hx hy e,
  slot_grid-size d t x y height
      ∙ sym (
          div-eq_of_eq-mul_left (omega arith) (
            regroup_eq (d.noc_graph.num_col / d.slot_width) height d.slot_width d.noc_graph.num_col
              even)),
)
  where
    regroup_eq : (c h w n : ℕ) → c * w ≡ n → h * n ≡ c * h * w
    regroup_eq c h w n p = rw (← p) (omega arith)

-- A name that `get_nmu_or_nsu_names_in_slot` lists for two slots shows that they are one slot.
pub names_disjoint :
    (d : Device) (t n : Text) (x y x' y' : ℕ) (ns ns' : List Text)
    → get_nmu_or_nsu_names_in_slot d t x y ≡ ok ns
    → get_nmu_or_nsu_names_in_slot d t x' y' ≡ ok ns'
    → Memᴰ n ns
    → Memᴰ n ns'
    → (x ≡ x') × (y ≡ y')
names_disjoint d t n x y x' y' ns ns' e e' m m' =
    let (hx, hy, height, at_y, eq) = names-inv d t x y ns e in
    let (hx', hy', height', at_y', eq') = names-inv d t x' y' ns' e' in
    let (col, row, is_n, c0, c1, r0, r1) = names-block d t x y height n (subst (Memᴰ n) eq m) in
    let (col', row', is_n', c0', c1', r0', r1') =
      names-block d t x' y' height' n (subst (Memᴰ n) eq' m') in
    let (same_col, same_row) = node_name_inj t col row col' row' (is_n ∙ sym is_n') in
    (
      same_block (d.noc_graph.num_col / d.slot_width) x x' col c0 c1 (omega arith) (omega arith),
      same_rows d t y y' height height' row at_y at_y' r0 r1 (omega arith) (omega arith),
    )
