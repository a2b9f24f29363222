-- ===== src/Device/Tests.antt =====
-- A device of two by two slots over four columns of seven and six rows.
use mathlib.Core.List.{Memᴰ}
use rapidstream_noc.Common.{
  map_each, ℕ, ◌≤◌, ◌≡◌, refl, List, [], ◌∷◌, length, map, arith, ok, err, assertion_error, ◌>>=◌,
}
use rapidstream_noc.Common.Text.{Text, codes, str_of}
use rapidstream_noc.Graph.{NocGraph}
use rapidstream_noc.Device.{
  Device, init, get_num_nmu_in_slot, get_num_nsu_in_slot, get_nmu_or_nsu_names_in_slot,
}
use rapidstream_noc.Device.Slots.{IsAccepted, init_counts}
use rapidstream_noc.Device.Names.{names_count, names_count_even, names_disjoint}

abbrev noc : ℕ → NocGraph
noc columns = record {
  num_slr = 2;
  num_col = columns;
  rows_per_slr = 7 ∷ 6 ∷ [];
  nmu_nodes = [];
  nsu_nodes = [];
  nps_vnoc_nodes = [];
  nps_hnoc_nodes = [];
  nps_slr0_nodes = [];
  ncrb_nodes = [];
  nps_hbm_nodes = [];
  ncrb_hbm_nodes = [];
  hbm_mc_nodes = [];
  nmu_hbm_nodes = [];
  nps4_hbm_mc_nodes = [];
  nps6_hbm_mc_nodes = [];
  edges = [];
}

abbrev device : ℕ → Device
device columns = record {
  part_num = codes "xcvp1802";
  board_part = [];
  slot_width = 2;
  slot_height = 2;
  cr_mapping = [];
  noc_graph = noc columns;
  nmu_per_slot = [];
  nsu_per_slot = [];
}

device-IsAccepted : IsAccepted (device 5)
device-IsAccepted = record { slrs = refl; rows = refl; columns = omega arith; first_column = refl }

program : Unit {0}
unfolding init get_num_nmu_in_slot get_nmu_or_nsu_names_in_slot str_of map_each
program = tt

-- Five columns in two slots: a slot counts 17 of 35 nodes, and lists the 14 of its two whole columns.
counted : (init (device 5) >>= λ d. get_num_nmu_in_slot d 0 0) ≡ ok 17
unfolding program
counted = refl

listed :
    (get_nmu_or_nsu_names_in_slot (device 5) (codes "nmu") 0 0 >>= λ ns. ok (length ns)) ≡ ok 14
unfolding program
listed = refl

outside : get_nmu_or_nsu_names_in_slot (device 5) (codes "nmu") 2 0 ≡ err assertion_error
unfolding program
outside = refl

init_counts_run :
    (made : Device) × (init (device 5) ≡ ok made)
    × (made.noc_graph ≡ noc 5)
    × (made.slot_width ≡ 2)
    × (made.slot_height ≡ 2)
    × (get_num_nmu_in_slot made 1 1 ≡ ok 15)
    × (get_num_nsu_in_slot made 1 1 ≡ ok 15)
init_counts_run = init_counts (device 5) device-IsAccepted 1 1 6 (omega arith) (omega arith) refl

names_count_run :
    (ns : List Text) × (get_nmu_or_nsu_names_in_slot (device 5) (codes "nmu") 1 1 ≡ ok ns)
    × (length ns ≡ 12)
    × (length ns ≤ 15)
names_count_run = names_count (device 5) (codes "nmu") 1 1 6 (omega arith) (omega arith) refl

names_count_even_run :
    (ns : List Text) × (get_nmu_or_nsu_names_in_slot (device 4) (codes "nsu") 1 1 ≡ ok ns)
    × (length ns ≡ 12)
names_count_even_run =
    names_count_even (device 4) (codes "nsu") 1 1 6 (omega arith) (omega arith) refl refl

abbrev nmu_names : List Text
nmu_names =
    map codes (
      "nmu_x0y0" ∷ "nmu_x0y1" ∷ "nmu_x0y2" ∷ "nmu_x0y3" ∷ "nmu_x0y4" ∷ "nmu_x0y5" ∷ "nmu_x0y6" ∷ [])

first_slot : get_nmu_or_nsu_names_in_slot (device 2) (codes "nmu") 0 0 ≡ ok nmu_names
unfolding program
first_slot = refl

names_disjoint_example : (◌≡◌ {A = ℕ} 0 0) × (◌≡◌ {A = ℕ} 0 0)
names_disjoint_example =
    names_disjoint (device 2) (codes "nmu") (codes "nmu_x0y0") 0 0 0 0 nmu_names nmu_names
      first_slot first_slot (Memᴰ.head refl) (Memᴰ.head refl)
