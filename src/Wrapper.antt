-- ===== src/Wrapper.antt =====
-- noc_rtl_wrapper.py: every FIFO of the grouped module becomes a NMU FIFO, a NSU FIFO and the driver
-- of a `tlast`, with the ports between them and the NoC.
pub mod Rtl
use rapidstream_noc.Common.{
  ℕ, ◌/◌, Bool, true, false, List, [], ◌∷◌, ◌++◌, map, Option, none, some, Result, ok, ◌>>=◌,
  if◌then◌else◌, ◌||◌, Dict, item, merge, get_item, ℤ,
}
use rapidstream_noc.Common.Text.{Text, text_eq, codes, str_of, int_of, contains}
use rapidstream_noc.Width.{round_up_to_noc_tdata}
use rapidstream_noc.Ir.{
  Ir, Module, Inst, Port, Entry, find_repr_id, parse_top_mod, create_port_wire_connection,
  create_module_inst_ir, create_m_axis_ports, create_s_axis_ports, create_port_ir,
}
use rapidstream_noc.Ir.Regions.{head_region, tail_region, set_all_pipeline_regions}
use rapidstream_noc.Ir.Parse.{parse_fifo_params}
use rapidstream_noc.Ir.Update.{with_connections}
use rapidstream_noc.Ir.OverNoc.{with_ports, change_ir, append_mod, grouped}

abbrev pub with_submodules : List Inst → Module → Module
with_submodules submodules m = record {
  name = m.name;
  parameters = m.parameters;
  ports = m.ports;
  wires = m.wires;
  submodules = submodules;
}

abbrev pub dont_touch : Inst → Inst
dont_touch m = record {
  name = m.name;
  module_ = codes "(* dont_touch = \"true\" *) " ++ m.module_;
  connections = m.connections;
  parameters = m.parameters;
  floorplan_region = m.floorplan_region;
  pragmas = m.pragmas;
}

-- `any(IREnum.REGION.value in p["name"] for p in …)`.
unfoldable pub any_region : List Entry → Bool
unfolding contains
any_region [] = false
any_region (p ∷ ps) = contains p.name (codes "__REGION") || any_region ps

unfoldable pub add_dont_touch : Ir → Result Ir
unfolding parse_top_mod change_ir any_region
add_dont_touch ir = do
  top_ir ← parse_top_mod ir
  ok (
      change_ir ir.top_name
        (λ m.
          with_submodules
            (map (λ i. if any_region i.parameters then dont_touch i else i) m.submodules) m)
        ir)

-- The keys of PIPELINE_MAPPING.
unfoldable pub is_pipeline : Text → Bool
unfolding text_eq
is_pipeline name =
    text_eq name (codes "__rs_ap_ctrl_start_ready_pipeline")
    || (text_eq name (codes "__rs_ff_pipeline") || text_eq name (codes "__rs_hs_pipeline"))

unfoldable pub add_dont_touch_pp_grp : Ir → Ir
unfolding is_pipeline contains
add_dont_touch_pp_grp ir = record {
  top_name = ir.top_name;
  module_definitions =
      map
        (λ m.
          if is_pipeline m.name
          then with_submodules
              (map (λ i. if contains i.name (codes "BODY") then dont_touch i else i) m.submodules) m
          else m)
        ir.module_definitions;
}

-- `Const_1_Driver`, of ir_verilog.py.
abbrev pub create_const_one_driver : Module
create_const_one_driver = record {
  name = codes "Const_1_Driver";
  parameters = [];
  ports = create_port_ir (codes "out") (codes "output wire") (codes "0") (codes "0") ∷ [];
  wires = [];
  submodules = [];
}

-- The parameters of the two FIFOs.
unfoldable pub half_fifo_params : Text → ℕ → Text → Dict Text
unfolding merge set_all_pipeline_regions
half_fifo_params data_width depth region =
    merge
      ((codes "BODY_LEVEL", codes "0")
        ∷ (codes "DATA_WIDTH", data_width)
        ∷ (codes "DEPTH", str_of (depth / 2))
        ∷ (codes "EXTRA_PIPELINE_BEFORE_TAIL", codes "0")
        ∷ (codes "PIPELINE_READY_IN_HEAD", codes "1")
        ∷ (codes "PIPELINE_VALID_AND_DATA_IN_HEAD", codes "1")
        ∷ [])
      (set_all_pipeline_regions region)

-- `ports[…]["name"]`, at the place of the key.
abbrev pub port_name : List Port → ℕ → Result Text
port_name ports i = get_item ports i >>= λ p. ok p.wire.name

-- What one FIFO adds to `axis_noc_ports` and to `new_modules`.
pub record Split : Type 0 where
  pub ports : List Port
  pub modules : List Inst

-- The names of the wires of one interface.
pub record Axis : Type 0 where
  pub tdata : Text
  pub tvalid : Text
  pub tready : Text

unfoldable pub nmu_fifo : Inst → Dict Text → Axis → Inst
unfolding create_module_inst_ir find_repr_id
nmu_fifo fifo params axis =
    create_module_inst_ir
      (record {
        module_name = codes "__rs_hs_pipeline";
        inst_name = codes "nmu_" ++ fifo.name;
        floorplan_region = none;
        pragmas = some fifo.pragmas;
      })
      params
      ((codes "clk", codes "ap_clk" ∷ [])
        ∷ (codes "if_read", axis.tready ∷ [])
        ∷ (codes "if_dout", axis.tdata ∷ [])
        ∷ (codes "if_empty_n", axis.tvalid ∷ [])
        ∷ (codes "if_write", find_repr_id fifo.connections (codes "if_write") ∷ [])
        ∷ (codes "if_din", find_repr_id fifo.connections (codes "if_din") ∷ [])
        ∷ (codes "if_full_n", find_repr_id fifo.connections (codes "if_full_n") ∷ [])
        ∷ [])
      ((codes "reset", codes "1'b0") ∷ [])

unfoldable pub nsu_fifo : Inst → Dict Text → Axis → Inst
unfolding create_module_inst_ir find_repr_id
nsu_fifo fifo params axis =
    create_module_inst_ir
      (record {
        module_name = codes "__rs_hs_pipeline";
        inst_name = codes "nsu_" ++ fifo.name;
        floorplan_region = none;
        pragmas = none;
      })
      params
      ((codes "clk", codes "ap_clk" ∷ [])
        ∷ (codes "if_read", find_repr_id fifo.connections (codes "if_read") ∷ [])
        ∷ (codes "if_dout", find_repr_id fifo.connections (codes "if_dout") ∷ [])
        ∷ (codes "if_empty_n", find_repr_id fifo.connections (codes "if_empty_n") ∷ [])
        ∷ (codes "if_write", axis.tvalid ∷ [])
        ∷ (codes "if_din", axis.tdata ∷ [])
        ∷ (codes "if_full_n", axis.tready ∷ [])
        ∷ [])
      ((codes "reset", codes "1'b0") ∷ [])

unfoldable pub tlast_inst : Inst → Text → Inst
unfolding create_module_inst_ir
tlast_inst fifo tlast =
    create_module_inst_ir
      (record {
        module_name = codes "Const_1_Driver";
        inst_name = fifo.name ++ codes "_tlast_inst";
        floorplan_region = none;
        pragmas = none;
      })
      [] ((codes "out", tlast ∷ []) ∷ []) []
