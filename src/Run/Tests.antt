-- ===== src/Run/Tests.antt =====
-- Options of both kinds, two memory-mapped ports, and two streams.
use rapidstream_noc.Common.{
  ℕ, ◌≤◌, ◌*◌, ◌≡◌, ◌≢◌, ◌↔◌, refl, List, [], ◌∷◌, ◌++◌, map, none, some, false, All, Returns, ok,
  err, bad_parameter, arith, Dict, lookup,
}
use rapidstream_noc.Common.Text.{Text, codes, text_eq}
use rapidstream_noc.Common.Text.Equality.{ne_of_clash}
use rapidstream_noc.Tcl.{print_mmap_noc_loc_tcl}
use rapidstream_noc.Bd.{MmapAttr}
use rapidstream_noc.Bd.Hbm.{hbm_connections}
use rapidstream_noc.Bd.HbmPorts.{fresh}
use rapidstream_noc.Bd.HbmApart.{Distinct}
use rapidstream_noc.Bd.Stream.{create_stream_noc, dut_stream_noc_tcl}
use rapidstream_noc.Run.Options.{vh1582, selector_greedy, Options, parse_arguments}
use rapidstream_noc.Run.Accepted.{IsConsistent, parse_arguments_iff}
use rapidstream_noc.Device.{get_num_nmu_in_slot, get_num_nsu_in_slot}
use rapidstream_noc.Fabric.Layout.{IsLink}
use rapidstream_noc.Run.Devices.{device_of}
use rapidstream_noc.Run.Grid.{device_of-counts}
use rapidstream_noc.Run.Outputs.{located_nocs, keys, m_axis, noc_stream_attr}
use rapidstream_noc.Run.Located.{constraints_of, mmap_locations-interfaces}
use rapidstream_noc.Run.Attached.{direct_commands, selected-direct}

-- An input of RapidStream for the greedy selector.
abbrev greedy_run : Options
greedy_run = record {
  rapidstream_json = some (codes "add_pipeline.json");
  tapa_xo = none;
  device_name = vh1582;
  mmap_port_json = codes "ports.json";
  selector = selector_greedy;
  build_dir = some (codes "build");
  tar = none;
  top_mod_name = none;
  mmap_ilp = false;
}

greedy_run_accepted : parse_arguments greedy_run ≡ ok greedy_run
unfolding parse_arguments
greedy_run_accepted = refl

named_run_refused :
    parse_arguments (record greedy_run { top_mod_name = some (codes "top") }) ≡ err bad_parameter
unfolding parse_arguments
named_run_refused = refl

parse_arguments_iff_example : (parse_arguments greedy_run ≡ ok greedy_run) ↔ IsConsistent greedy_run
parse_arguments_iff_example = parse_arguments_iff greedy_run

abbrev ports : Dict MmapAttr
ports =
    (codes "m0", record { bank = 3; noc = none; read_bw = 1000; write_bw = 50 })
    ∷ (
      codes "m1",
      record { bank = 4; noc = some (codes "NOC_NMU512_X0Y0"); read_bw = 1000; write_bw = 50 },
    )
    ∷ []

node_named : some (codes "NOC_NMU512_X0Y0") ≢ some []
node_named = cc

mmap_locations-interfaces_example :
    Returns
      (λ rs. print_mmap_noc_loc_tcl (located_nocs ports) ≡ constraints_of rs)
      (hbm_connections 0 (record { reg = 0; hbm = 0 }) fresh ports)
mmap_locations-interfaces_example =
    mmap_locations-interfaces ports (omega arith, (omega arith, tt)) (cc, (cc, tt))

abbrev names : List Text
names = codes "f0" ∷ codes "f1" ∷ []

abbrev widths : Dict ℕ
widths = (codes "f0", 100) ∷ (codes "f1", 512) ∷ []

names-Distinct : Distinct names
names-Distinct = ((ne_of_clash (codes "f0") (codes "f1") refl, tt), (tt, tt))

widths_narrow : All (λ s. (w : ℕ) × (lookup s widths ≡ some w) × (w ≤ 512)) names
unfolding lookup text_eq
widths_narrow = ((100, refl, omega arith), ((512, refl, omega arith), tt))

selected-direct_example :
    Returns
      (λ attrs.
        (keys attrs ≡ map m_axis names)
        × (dut_stream_noc_tcl attrs
            ≡ ok (create_stream_noc attrs ∷ direct_commands 0 attrs ++ codes "endgroup" ∷ [])))
      (noc_stream_attr names widths [])
selected-direct_example = selected-direct names widths names-Distinct widths_narrow

device_of-counts_example :
    Returns
      (λ d.
        (get_num_nmu_in_slot d 1 1 ≡ ok (6 * 2))
        × (get_num_nsu_in_slot d 1 1 ≡ ok (6 * 2))
        × All (IsLink d.noc_graph) d.noc_graph.edges)
      (device_of vh1582)
device_of-counts_example = device_of-counts vh1582 1 1 6 (omega arith) refl
