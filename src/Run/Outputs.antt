-- ===== src/Run/Outputs.antt =====
-- run_noc_pass.py: the selection of streams, and the location constraints, the attributes of the
-- streams and the block design made of it. A width is not negative.
use rapidstream_noc.Common.{
  ℕ, ◌*◌, ◌/◌, List, [], ◌∷◌, ◌++◌, map, Option, none, some, Bool, false, if◌then◌else◌, ◌==◌,
  length, Result, ok, assertion_error, guard, ◌>>=◌, ◌>>◌, Dict, item, set_item,
}
use rapidstream_noc.Common.Text.{Text, codes, str_of}
use rapidstream_noc.Width.{frequency, round_up_to_noc_tdata}
use rapidstream_noc.Device.{Device}
use rapidstream_noc.Select.{StreamsSlots, greedy_selector}
use rapidstream_noc.Select.Random.{random_selector}
use rapidstream_noc.Ilp.{NetworkX, MmapNoc, Solution}
use rapidstream_noc.Ilp.Capacity.{StreamsBw, MmapBw}
use rapidstream_noc.Ilp.Selector.{Problem, ilp_noc_selector}
use rapidstream_noc.Ir.OverNoc.{NocStream}
use rapidstream_noc.Tcl.{print_mmap_noc_loc_tcl, print_stream_noc_loc_tcl}
use rapidstream_noc.Tcl.Floorplan.{export_constraint, export_control_s_axi_constraint}
use rapidstream_noc.Tcl.Project.{gen_vivado_prj_tcl}
use rapidstream_noc.Bd.{MmapAttr}
use rapidstream_noc.Bd.Stream.{StreamAttr}
use rapidstream_noc.Bd.Design.{gen_arm_bd_ddr, gen_arm_bd_hbm}
use rapidstream_noc.Run.Options.{
  DeviceEnum, vh1582, vp1802, SelectorEnum, selector_none, selector_empty, selector_random,
  selector_greedy, selector_grb,
}

-- `{s: w * FREQUENCY / 8 for s, w in streams_widths.items()}`, in quarters.
abbrev pub streams_bw_of : Dict ℕ → StreamsBw
streams_bw_of streams_widths = map (λ (s, w). (s, w * frequency / 8)) streams_widths

-- What a selector answers; the nodes of the streams are those of the ILP alone.
pub record Selected : Type 0 where
  pub noc_streams : List Text
  pub node_loc : List (Text × (Text × Text))

abbrev pub without_nodes : Result (List Text) → Result Selected
without_nodes names =
    names >>= λ noc_streams. ok (record { noc_streams = noc_streams; node_loc = [] })

-- The keys of a dictionary.
abbrev pub keys {ℓ} : {V : Type ℓ} → List (Text × V) → List Text
keys d = map (λ (k, v). k) d

module _ (randint : ℕ → ℕ → ℕ) (sample : ℕ → ℕ → List Text) (solve : Problem → Result Solution)
    (nx : NetworkX) where
  -- The branches on the selector; `none` is a random selection whose fuel is not enough.
  unfoldable pub select :
      SelectorEnum
      → ℕ
      → StreamsSlots
      → Dict ℕ
      → Result (MmapNoc × MmapBw)
      → Device
      → Option (Result Selected)
  unfolding greedy_selector random_selector ilp_noc_selector
  select selector_none fuel streams_slots streams_widths mmap d =
      some (ok (record { noc_streams = []; node_loc = [] }))
  select selector_empty fuel streams_slots streams_widths mmap d = some (
      guard (length (streams_bw_of streams_widths) == length streams_slots) assertion_error
      >> ok (record { noc_streams = []; node_loc = [] }))
  select selector_random fuel streams_slots streams_widths mmap d =
      elim (random_selector randint sample streams_slots d fuel) [
        | none ↦ none
        | some names ↦ some (
            guard (length (streams_bw_of streams_widths) == length streams_slots) assertion_error
            >> without_nodes names)
      ]
  select selector_greedy fuel streams_slots streams_widths mmap d = some (
      guard (length (streams_bw_of streams_widths) == length streams_slots) assertion_error
      >> without_nodes (greedy_selector streams_slots d))
  select selector_grb fuel streams_slots streams_widths mmap d = some do
    guard (length (streams_bw_of streams_widths) == length streams_slots) assertion_error
    (mmap_noc, mmap_bw) ← mmap
    node_loc ←
        ilp_noc_selector solve nx streams_slots (streams_bw_of streams_widths) mmap_noc mmap_bw d
    ok (record { noc_streams = keys node_loc; node_loc = node_loc })

-- `[attr["noc"] for n, attr in mmap_port_ir.items() if attr.get("noc")]`.
unfoldable pub located_nocs : Dict MmapAttr → List Text
located_nocs [] = []
located_nocs ((n, attr) ∷ ports) = elim attr.noc [
  | none ↦ located_nocs ports
  | some [] ↦ located_nocs ports
  | some (c ∷ loc) ↦ (c ∷ loc) ∷ located_nocs ports
]

-- The lines of the file with the location constraints; MULTI_SITE_NOC is False.
unfoldable pub noc_constraint :
    Bool → SelectorEnum → Dict MmapAttr → List (Text × (Text × Text)) → Result (List Text)
unfolding located_nocs print_mmap_noc_loc_tcl print_stream_noc_loc_tcl
noc_constraint mmap_ilp selector mmap_port_ir node_loc = do
  let mmap = (if mmap_ilp then print_mmap_noc_loc_tcl (located_nocs mmap_port_ir) else [])
  streams ← elim selector [
    | selector_grb ↦ print_stream_noc_loc_tcl node_loc
    | selector_none ↦ ok []
    | selector_empty ↦ ok []
    | selector_random ↦ ok []
    | selector_greedy ↦ ok []
  ]
  ok (mmap ++ streams)

abbrev pub m_axis : Text → Text
m_axis s = codes "m_axis_" ++ s

abbrev pub s_axis : Text → Text
s_axis s = codes "s_axis_" ++ s

-- The loop over the selected streams.
unfoldable pub selected_attrs : List Text → Dict ℕ → Dict StreamAttr → Result (Dict StreamAttr)
unfolding set_item round_up_to_noc_tdata
selected_attrs [] streams_widths attrs = ok attrs
selected_attrs (s ∷ noc_streams) streams_widths attrs = do
  bw ← item s (streams_bw_of streams_widths)
  w ← item s streams_widths
  width ← round_up_to_noc_tdata (str_of w) false
  selected_attrs noc_streams streams_widths
      (set_item (m_axis s) (record { dest = s_axis s; bandwidth = bw; width = width }) attrs)

-- The loop over the streams that return credits.
unfoldable pub returning_attrs : Dict NocStream → Dict StreamAttr → Dict StreamAttr
unfolding set_item
returning_attrs [] attrs = attrs
returning_attrs ((s, attr) ∷ cc_ret_noc_stream) attrs = returning_attrs cc_ret_noc_stream (
    set_item (m_axis s) (record { dest = s_axis s; bandwidth = attr.bandwidth; width = attr.width })
      attrs)

unfoldable pub noc_stream_attr : List Text → Dict ℕ → Dict NocStream → Result (Dict StreamAttr)
unfolding selected_attrs returning_attrs
noc_stream_attr noc_streams streams_widths cc_ret_noc_stream =
    selected_attrs noc_streams streams_widths [] >>= λ attrs.
    ok (returning_attrs cc_ret_noc_stream attrs)

-- BD_NAME, HBM_INIT_FILE and IMPL_FREQUENCY.
abbrev pub bd_attr_of : Text → Dict Text
bd_attr_of top_mod_name =
    (codes "bd_name", codes "top_arm")
    ∷ (codes "top_mod", top_mod_name)
    ∷ (codes "hbm_init_file", codes "/home/jakeke/rapidstream-noc/test/serpens32_nasa4704.mem")
    ∷ (codes "frequency", codes "300.0")
    ∷ []

-- The block design for a device; USE_M_AXI_FPD is False.
unfoldable pub block_design :
    DeviceEnum → Text → Dict MmapAttr → Dict StreamAttr → Result (List Text)
unfolding gen_arm_bd_ddr gen_arm_bd_hbm
block_design vp1802 top_mod_name mmap_port_ir attrs =
    gen_arm_bd_ddr (bd_attr_of top_mod_name) mmap_port_ir attrs false
block_design vh1582 top_mod_name mmap_port_ir attrs =
    gen_arm_bd_hbm (bd_attr_of top_mod_name) mmap_port_ir attrs false

-- The placement constraints, for the floorplan of the final IR; MULTI_SITE_NOC and USE_M_AXI_FPD are
-- False.
unfoldable pub placement : SelectorEnum → Dict (List Text) → Device → Result (List Text)
unfolding export_constraint export_control_s_axi_constraint
placement selector_none floorplan d = ok []
placement _ floorplan d = do
  areas ← export_constraint floorplan d
  control ← export_control_s_axi_constraint floorplan d
  ok (areas ++ control)

-- The script of the Vivado project, with the names of the files that the script dumps.
unfoldable pub vivado_prj : Text → Device → Result (List Text)
unfolding gen_vivado_prj_tcl
vivado_prj build_dir d = gen_vivado_prj_tcl (
    (codes "build_dir", build_dir)
    ∷ (codes "part_num", d.part_num)
    ∷ (codes "board_part", d.board_part)
    ∷ (codes "bd_name", codes "top_arm")
    ∷ (codes "rtl_dir", codes "rtl/")
    ∷ (codes "tb_file", codes "/home/jakeke/rapidstream-noc/test/jacobi2d_mem8_tb.sv")
    ∷ (codes "constraint", codes "constraint.tcl")
    ∷ (codes "bd_tcl", codes "arm_bd.tcl")
    ∷ (codes "noc_tcl", codes "noc_constraint.tcl")
    ∷ [])
