-- ===== src/Ir/Merged.antt =====
-- ir_credit_based.py: what add_cc_slave_group adds for one pair of slots, and the function itself.
use mathlib.Core.List.{reverse}
use rapidstream_noc.Common.{
  ℕ, ◌*◌, List, [], ◌∷◌, ◌++◌, none, some, Result, ok, ◌>>=◌, Dict, merge, length,
}
use rapidstream_noc.Common.Text.{Text, codes, str_of, int_of}
use rapidstream_noc.Ir.{Inst, Module, Wire, create_wire_ir, create_module_inst_ir, str_below}
use rapidstream_noc.Ir.Regions.{set_all_pipeline_regions}
use rapidstream_noc.Ir.Update.{bit_length, Parts}
use rapidstream_noc.Ir.Group.{
  Groups, get_srcdest_grp, get_conn_dict, reads_of, whole_bytes, assign_slices, merged_name_of,
}

unfoldable pub cc_slave_group_inst :
    Text → Text → Text → Text → Text → ℕ → List Text → List Text → Inst
unfolding create_module_inst_ir
cc_slave_group_inst merged_name region init_credit width timer_width size reads empty_ns =
    create_module_inst_ir
      (record {
        module_name = codes "credit_control_slave_group";
        inst_name = merged_name ++ codes "_cc_slave_group";
        floorplan_region = some region;
        pragmas = none;
      })
      ((codes "INIT_CREDIT", init_credit)
        ∷ (codes "CREDIT_CNT_WIDTH", width)
        ∷ (codes "TIMER_WIDTH", timer_width)
        ∷ (codes "GROUP_SIZE", str_of size)
        ∷ [])
      ((codes "clk", codes "ap_clk" ∷ [])
        ∷ (codes "rst_n", codes "ap_rst_n" ∷ [])
        ∷ (codes "read_i", reads)
        ∷ (codes "empty_n_i", empty_ns)
        ∷ (codes "ready_i", (merged_name ++ codes "_slave_credit_pp_full_n_i") ∷ [])
        ∷ (codes "credit_valid_o", (merged_name ++ codes "_slave_credit_valid_o") ∷ [])
        ∷ (codes "credit_o", (merged_name ++ codes "_slave_credit_o") ∷ [])
        ∷ [])
      []

-- The parameters that the two pipelines of the credit return share.
unfoldable pub cc_ret_params : Text → Text → Dict Text
unfolding merge
cc_ret_params width region =
    merge
      ((codes "BODY_LEVEL", codes "1")
        ∷ (codes "DATA_WIDTH", width)
        ∷ (codes "DEPTH", codes "1")
        ∷ (codes "EXTRA_PIPELINE_BEFORE_TAIL", codes "0")
        ∷ (codes "PIPELINE_READY_IN_HEAD", codes "1")
        ∷ (codes "PIPELINE_VALID_AND_DATA_IN_HEAD", codes "1")
        ∷ [])
      (set_all_pipeline_regions region)

unfoldable pub nmu_cc_ret_inst : Text → Text → Text → Inst
unfolding create_module_inst_ir cc_ret_params
nmu_cc_ret_inst merged_name width region =
    create_module_inst_ir
      (record {
        module_name = codes "__rs_hs_pipeline";
        inst_name = codes "nmu_" ++ (merged_name ++ codes "_cc_ret");
        floorplan_region = none;
        pragmas = none;
      })
      (cc_ret_params width region)
      ((codes "clk", codes "ap_clk" ∷ [])
        ∷ (codes "if_write", (merged_name ++ codes "_slave_credit_valid_o") ∷ [])
        ∷ (codes "if_din", (merged_name ++ codes "_slave_credit_o") ∷ [])
        ∷ (codes "if_full_n", (merged_name ++ codes "_slave_credit_pp_full_n_i") ∷ [])
        ∷ (codes "if_read", (codes "m_axis_" ++ (merged_name ++ codes "_cc_ret_tready")) ∷ [])
        ∷ (codes "if_dout", (codes "m_axis_" ++ (merged_name ++ codes "_cc_ret_tdata")) ∷ [])
        ∷ (codes "if_empty_n", (codes "m_axis_" ++ (merged_name ++ codes "_cc_ret_tvalid")) ∷ [])
        ∷ [])
      ((codes "reset", codes "1'b0") ∷ [])

unfoldable pub nsu_cc_ret_inst : Text → Text → Text → Inst
unfolding create_module_inst_ir cc_ret_params
nsu_cc_ret_inst merged_name width region =
    create_module_inst_ir
      (record {
        module_name = codes "__rs_hs_pipeline";
        inst_name = codes "nsu_" ++ (merged_name ++ codes "_cc_ret");
        floorplan_region = none;
        pragmas = none;
      })
      (cc_ret_params width region)
      ((codes "clk", codes "ap_clk" ∷ [])
        ∷ (codes "if_write", (codes "s_axis_" ++ (merged_name ++ codes "_cc_ret_tvalid")) ∷ [])
        ∷ (codes "if_din", (codes "s_axis_" ++ (merged_name ++ codes "_cc_ret_tdata")) ∷ [])
        ∷ (codes "if_full_n", (codes "s_axis_" ++ (merged_name ++ codes "_cc_ret_tready")) ∷ [])
        ∷ (codes "if_dout", (merged_name ++ codes "_master_credit_i") ∷ [])
        ∷ (codes "if_empty_n", (merged_name ++ codes "_master_credit_valid_i") ∷ [])
        ∷ [])
      ((codes "if_read", codes "1'b1") ∷ (codes "reset", codes "1'b0") ∷ [])

unfoldable pub cc_ret_wires : Text → ℕ → List Wire
unfolding create_wire_ir
cc_ret_wires merged_name ret_width =
    create_wire_ir (merged_name ++ codes "_slave_credit_pp_full_n_i") (codes "0") (codes "0")
    ∷ create_wire_ir (merged_name ++ codes "_slave_credit_valid_o") (codes "0") (codes "0")
    ∷ create_wire_ir (merged_name ++ codes "_slave_credit_o") (str_below ret_width) (codes "0")
    ∷ create_wire_ir (merged_name ++ codes "_master_credit_valid_i") (codes "0") (codes "0")
    ∷ create_wire_ir (merged_name ++ codes "_master_credit_i") (str_below ret_width) (codes "0")
    ∷ []

-- The loop over the pairs of slots.
unfoldable pub merge_groups : Text → Text → Dict ℕ → Dict ℕ → Groups → Parts → Result Parts
unfolding cc_slave_group_inst nmu_cc_ret_inst nsu_cc_ret_inst cc_ret_wires bit_length assign_slices
merge_groups init_credit timer_width cc_master_conn nsu_conn [] parts = ok parts
merge_groups init_credit timer_width cc_master_conn nsu_conn ((srcdest, fifo_names) ∷ groups)
      parts =
    do
      merged_name ← merged_name_of srcdest
      credit ← int_of init_credit
      reads ← reads_of parts.submodules nsu_conn (codes "if_read") fifo_names
      empty_ns ← reads_of parts.submodules nsu_conn (codes "if_empty_n") fifo_names
      let width = bit_length credit
      let ret_width = whole_bytes (width * length fifo_names)
      submodules ← assign_slices merged_name width cc_master_conn 0 (reverse fifo_names) (
          parts.submodules
          ++ cc_slave_group_inst merged_name srcdest.0 init_credit (str_of width) timer_width
              (length fifo_names) reads empty_ns
            ∷ nmu_cc_ret_inst merged_name (str_of ret_width) srcdest.0
            ∷ nsu_cc_ret_inst merged_name (str_of ret_width) srcdest.1
            ∷ [])
      merge_groups init_credit timer_width cc_master_conn nsu_conn groups (record {
        submodules = submodules;
        wires = parts.wires ++ cc_ret_wires merged_name ret_width;
      })

unfoldable pub add_cc_slave_group : Module → Text → Text → Result (Groups × Parts)
unfolding get_srcdest_grp get_conn_dict merge_groups
add_cc_slave_group grouped_mod_ir init_credit timer_width = do
  fifo_by_srcdest ← get_srcdest_grp grouped_mod_ir.submodules
  parts ←
      merge_groups init_credit timer_width
        (get_conn_dict 0 grouped_mod_ir.submodules (codes "_cc_master") [])
        (get_conn_dict 0 grouped_mod_ir.submodules (codes "nsu_") []) fifo_by_srcdest
        (record { submodules = grouped_mod_ir.submodules; wires = grouped_mod_ir.wires })
  ok (fifo_by_srcdest, parts)
