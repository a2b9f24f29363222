-- ===== src/Ilp/Serves/Tests.antt =====
-- One stream of 32 bytes per cycle from a slot's NMU through a switch to its NSU.
use mathlib.Core.List.{Memᴰ}
use rapidstream_noc.Common.{
  none, key_error, networkx_error, ◌≤◌, ◌≡◌, refl, List, [], ◌∷◌, arith, true, Result, ok, err,
  Returns, ◌||◌,
}
use rapidstream_noc.Common.Text.{Text, codes}
use rapidstream_noc.Graph.{NocGraph, Edge, get_all_edges}
use rapidstream_noc.Device.{Device, Ends}
use rapidstream_noc.Select.{StreamsSlots}
use rapidstream_noc.Ilp.{
  Var, x, y, z, not_mapped_stream, port_x, x_ret, StreamNodes, MmapNoc, Solution,
}
use rapidstream_noc.Ilp.Trail.{one_if}
use rapidstream_noc.Ilp.Path.{Route}
use rapidstream_noc.Ilp.Capacity.{StreamsBw, carried}
use rapidstream_noc.Ilp.Selector.{Problem, noc_problem, ilp_noc_selector}
use rapidstream_noc.Ilp.Tests.{
  listed, listed-IsDiGraph, node_of, is_pair, one_if_le, all_hold, all_hold-Satisfies,
}
use rapidstream_noc.Common.{map_each, concat_each, lookup, set_item}
use rapidstream_noc.Common.Text.{contains, split, starts_with, text_eq, int_of, int_acc, str_of}
use rapidstream_noc.Width.{round_up_to_noc_bw, round_up_to_noc_tdata}
use rapidstream_noc.Slots.{
  extract_slot_range, extract_slot_coord, coordinates, manhattan_dist, split_slot_region,
}
use rapidstream_noc.Device.{get_slot_to_noc_nodes, get_slot_nodes, get_nmu_or_nsu_names_in_slot}
use rapidstream_noc.Select.{get_stream_manhattan_bw, manhattan_bw_rounds}
use rapidstream_noc.Graph.{get_all_nmu_nodes, get_all_nsu_nodes}
use rapidstream_noc.Ilp.{ilp_noc_selector_add_stream_constr, get_nx_graph_from_noc_graph}
use rapidstream_noc.Ilp.Ports.{ilp_noc_selector_add_mmap_constr}
use rapidstream_noc.Ilp.Lookups.{
  lp_name, stream_lookups, mmap_lookups, entry_of_stream, neighbours, x_of,
}
use rapidstream_noc.Ilp.Capacity.{port_terms, ilp_noc_selector_add_bw_constr}
use rapidstream_noc.Ilp.Serves.{ilp_noc_selector-serves}

abbrev in_edge : Edge
in_edge = record { src = node_of (codes "nmu_x0y0"); dest = node_of (codes "m"); bandwidth = 64000 }

abbrev noc : NocGraph
noc = record {
  num_slr = 1;
  num_col = 1;
  rows_per_slr = 1 ∷ [];
  nmu_nodes = (node_of (codes "nmu_x0y0") ∷ []) ∷ [];
  nsu_nodes = (node_of (codes "nsu_x0y0") ∷ []) ∷ [];
  nps_vnoc_nodes = (node_of (codes "m") ∷ []) ∷ [];
  nps_hnoc_nodes = [];
  nps_slr0_nodes = [];
  ncrb_nodes = [];
  nps_hbm_nodes = [];
  ncrb_hbm_nodes = [];
  hbm_mc_nodes = [];
  nmu_hbm_nodes = [];
  nps4_hbm_mc_nodes = [];
  nps6_hbm_mc_nodes = [];
  edges =
      in_edge
      ∷ record { src = node_of (codes "m"); dest = node_of (codes "nsu_x0y0"); bandwidth = 64000 }
      ∷ [];
}

abbrev device : Device
device = record {
  part_num = [];
  board_part = [];
  slot_width = 1;
  slot_height = 1;
  cr_mapping = [];
  noc_graph = noc;
  nmu_per_slot = [];
  nsu_per_slot = [];
}

abbrev slot : Text
slot = codes "SLOT_X0Y0_TO_SLOT_X0Y0"

abbrev streams_slots : StreamsSlots
streams_slots = (codes "a", record { src = slot; dest = slot }) ∷ []

abbrev streams_bw : StreamsBw
streams_bw = (codes "a", 30000) ∷ []

abbrev answer : Solution
answer (x s (u, v)) =
    one_if (is_pair s u (codes "a") (codes "nmu_x0y0") || is_pair s u (codes "a") (codes "m"))
answer (y s n) = one_if (is_pair s n (codes "a") (codes "nmu_x0y0"))
answer (z s n) = one_if (is_pair s n (codes "a") (codes "nsu_x0y0"))
answer (not_mapped_stream s) = 0
answer (port_x s e) = 0
answer (x_ret s e) = 0

-- A solver that has one answer.
abbrev solve : Problem → Result Solution
solve m = ok answer

abbrev ends : Ends (List Text)
ends = record { src = codes "nmu_x0y0" ∷ []; dest = codes "nsu_x0y0" ∷ [] }

abbrev answer_of : Result (StreamNodes × Problem) → Problem
answer_of (ok (nodes, m)) = m
answer_of (err _) = record { constraints = []; objective = [] }

abbrev m : Problem
m = answer_of (noc_problem listed streams_slots streams_bw [] [] device)

computing : Unit {0}
unfolding noc_problem get_slot_to_noc_nodes get_slot_nodes extract_slot_range extract_slot_coord
    coordinates get_nmu_or_nsu_names_in_slot get_stream_manhattan_bw manhattan_bw_rounds
    manhattan_dist map_each concat_each contains split starts_with text_eq int_of int_acc str_of
    lookup set_item stream_lookups mmap_lookups entry_of_stream neighbours x_of port_terms
    round_up_to_noc_bw round_up_to_noc_tdata ilp_noc_selector_add_bw_constr
    ilp_noc_selector_add_mmap_constr ilp_noc_selector_add_stream_constr get_nx_graph_from_noc_graph
    get_all_edges get_all_nmu_nodes get_all_nsu_nodes split_slot_region
computing = tt

-- Two streams whose names differ in an underscore have variables of one name.
names_meet :
    lp_name (x (codes "a_b") (codes "m", codes "n"))
    ≡ lp_name (x (codes "ab") (codes "m", codes "n"))
unfolding lp_name starts_with
names_meet = refl

-- A port with a bandwidth and no ends, and a port whose source is no node of the graph.
port_unknown :
    noc_problem listed streams_slots streams_bw []
      ((codes "p", record { read_bw = 1; write_bw = 1 }) ∷ [])
      device
    ≡ err key_error
unfolding computing
port_unknown = refl

source_unknown :
    noc_problem listed streams_slots streams_bw
      ((codes "p", record { src = codes "n"; dest = codes "m" }) ∷ [])
      []
      device
    ≡ err networkx_error
unfolding computing
source_unknown = refl

posed : noc_problem listed streams_slots streams_bw [] [] device ≡ ok ((codes "a", ends) ∷ [], m)
unfolding computing
posed = refl

hold : all_hold answer m.constraints ≡ true
unfolding computing
hold = refl

solve_binary : (v : Var) → answer v ≤ 1
solve_binary (x s (u, v)) = one_if_le _
solve_binary (y s n) = one_if_le _
solve_binary (z s n) = one_if_le _
solve_binary (not_mapped_stream s) = omega arith
solve_binary (port_x s e) = omega arith
solve_binary (x_ret s e) = omega arith

abbrev no_ports : MmapNoc
no_ports = []

no_port : lookup (codes "a") no_ports ≡ none
unfolding lookup
no_port = refl

ilp_noc_selector-serves_example :
    Returns
      (λ node_loc.
        ((route : Route (get_all_edges device.noc_graph) answer (codes "a") ends) × Memᴰ
            (codes "a", (route.src, route.dest))
            node_loc)
        × (carried answer (codes "nmu_x0y0", codes "m") streams_bw ≤ 64000))
      (ilp_noc_selector solve listed streams_slots streams_bw [] [] device)
ilp_noc_selector-serves_example =
    ilp_noc_selector-serves solve listed streams_slots streams_bw [] [] device
      ((codes "a", ends) ∷ []) m posed answer refl listed-IsDiGraph solve_binary
      (all_hold-Satisfies answer m.constraints hold) (((30, omega arith, refl), no_port), tt)
      (codes "a") ends (Memᴰ.head refl) refl (cc, tt) (cc, tt) in_edge (Memᴰ.head refl)
