-- ===== src/Device.antt =====
-- device.py: an FPGA device as a grid of slots over its NoC graph; and the nodes of a slot range
-- (ir_helper.py: get_slot_nodes, get_slot_to_noc_nodes).
pub mod Slots
pub mod Names
pub mod Tests
use rapidstream_noc.Common.{
  ℕ, ◌+◌, ◌*◌, ◌/◌, List, [], ◌∷◌, ◌++◌, map, sum, take, length, range, range_from, ltb, leb, ◌==◌,
  if◌then◌else◌, Result, ok, assertion_error, guard, ◌>>=◌, ◌>>◌, get_item, map_each, concat_each,
}
use rapidstream_noc.Common.Text.{Text, codes}
use rapidstream_noc.Graph.{NocGraph}
use rapidstream_noc.Graph.Names.{node_name}
use rapidstream_noc.Slots.{extract_slot_range}

pub record Device : Type 0 where
  pub part_num : Text
  pub board_part : Text
  pub slot_width : ℕ
  pub slot_height : ℕ
  pub cr_mapping : List (List Text)
  pub noc_graph : NocGraph
  pub nmu_per_slot : List (List ℕ)
  pub nsu_per_slot : List (List ℕ)

-- The second assertion of `__init__` on `cr_mapping`.
abbrev pub first_column_fits : List (List Text) → ℕ → Result (Unit {0})
first_column_fits [] height = ok tt
first_column_fits (column ∷ columns) height = guard (leb (length column) height) assertion_error

-- The two loops that fill a table: the entry of column `i` and row `j` is that of `j` alone.
abbrev pub per_slot : ℕ → ℕ → List ℕ → List (List ℕ)
per_slot slot_width num_col heights =
    map (λ i. map (λ height. height * num_col / slot_width) heights) (range slot_width)

-- `Device(**data)`: the assertions of `__init__`, and the generated tables.
unfoldable pub init : Device → Result Device
init d = do
  guard (d.noc_graph.num_slr == d.slot_height) assertion_error
  guard (leb (length d.cr_mapping) d.slot_width) assertion_error
  first_column_fits d.cr_mapping d.slot_height
  heights ← map_each (range d.slot_height) (get_item d.noc_graph.rows_per_slr)
  ok (record d {
    nmu_per_slot = per_slot d.slot_width d.noc_graph.num_col heights;
    nsu_per_slot = per_slot d.slot_width d.noc_graph.num_col heights;
  })

-- `table[x][y]`.
abbrev pub cell_at : List (List ℕ) → ℕ → ℕ → Result ℕ
cell_at table x y = get_item table x >>= λ column. get_item column y

unfoldable pub get_num_nmu_in_slot : Device → ℕ → ℕ → Result ℕ
get_num_nmu_in_slot d x y = do
  guard (ltb x d.slot_width) assertion_error
  guard (ltb y d.slot_height) assertion_error
  cell_at d.nmu_per_slot x y

unfoldable pub get_num_nsu_in_slot : Device → ℕ → ℕ → Result ℕ
get_num_nsu_in_slot d x y = do
  guard (ltb x d.slot_width) assertion_error
  guard (ltb y d.slot_height) assertion_error
  cell_at d.nsu_per_slot x y

-- The comprehension over the columns and rows of a slot.
abbrev pub grid_names : Text → List ℕ → List ℕ → List Text
grid_names node_type [] ys = []
grid_names node_type (x ∷ xs) ys =
    map (λ y. node_name node_type x y) ys ++ grid_names node_type xs ys

unfoldable pub get_nmu_or_nsu_names_in_slot : Device → Text → ℕ → ℕ → Result (List Text)
get_nmu_or_nsu_names_in_slot d node_type x y = do
  guard (ltb x d.slot_width) assertion_error
  guard (ltb y d.slot_height) assertion_error
  let cols_per_slot = d.noc_graph.num_col / d.slot_width
  height ← get_item d.noc_graph.rows_per_slr y
  ok (
      grid_names node_type (range_from (cols_per_slot * x) cols_per_slot)
        (range_from (sum (take y d.noc_graph.rows_per_slr)) height))

unfoldable pub get_slot_cr : Device → ℕ → ℕ → Result Text
get_slot_cr d x y = get_item d.cr_mapping x >>= λ column. get_item column y

unfoldable pub get_slot_nodes : Text → Text → Device → Result (List Text)
get_slot_nodes slot_range node_type d = do
  slots ← extract_slot_range slot_range
  concat_each slots (λ (x, y). get_nmu_or_nsu_names_in_slot d node_type x y)

-- The "src" and "dest" entries of a stream.
pub record Ends {ℓ} (A : Type ℓ) : Type ℓ where
  pub src : A
  pub dest : A

unfoldable pub get_slot_to_noc_nodes :
    List (Text × Ends Text) → Device → Result (List (Text × Ends (List Text)))
get_slot_to_noc_nodes streams_slots d = map_each streams_slots λ (stream_name, slots). do
  src ← get_slot_nodes slots.src (codes "nmu") d
  dest ← get_slot_nodes slots.dest (codes "nsu") d
  ok (stream_name, record { src = src; dest = dest })
