-- ===== src/Ir/Slave.antt =====
-- ir_credit_based.py: add_cc_slave and pipeline_credit_ret.
use rapidstream_noc.Common.{
  ℕ, ◌-◌, ◌*◌, List, [], ◌∷◌, ◌++◌, Option, none, some, Result, ok, ◌>>=◌, if◌then◌else◌, Dict,
  item, merge, length,
}
use rapidstream_noc.Common.Text.{Text, codes, str_of, int_of, contains}
use rapidstream_noc.Common.Text.Edit.{strip_quotes, replace_away}
use rapidstream_noc.Ir.{
  Wire, Inst, Module, find_repr, set_expr, create_id_expr, create_lit_expr, create_wire_ir,
  create_module_inst_ir, str_below,
}
use rapidstream_noc.Ir.Regions.{head_region, get_credit_return_regions}
use rapidstream_noc.Ir.Parse.{parse_fifo_rs_routes}
use rapidstream_noc.Ir.Update.{
  bit_length, Round, untouched, Parts, growing_loop, with_connections, with_parameters,
}

-- The instance of `credit_control_slave` for a FIFO whose reads and flag are given.
unfoldable pub cc_slave_inst : Text → Text → Text → Text → Text → Text → Text → Inst
unfolding create_module_inst_ir
cc_slave_inst fifo_name region init_credit width timer_width read empty_n =
    create_module_inst_ir
      (record {
        module_name = codes "credit_control_slave";
        inst_name = fifo_name ++ codes "_cc_slave";
        floorplan_region = some region;
        pragmas = none;
      })
      ((codes "INIT_CREDIT", init_credit)
        ∷ (codes "CREDIT_CNT_WIDTH", width)
        ∷ (codes "TIMER_WIDTH", timer_width)
        ∷ [])
      ((codes "clk", codes "ap_clk" ∷ [])
        ∷ (codes "rst_n", codes "ap_rst_n" ∷ [])
        ∷ (codes "read_i", read ∷ [])
        ∷ (codes "empty_n_i", empty_n ∷ [])
        ∷ (codes "credit_valid_o", (fifo_name ++ codes "_slave_credit_valid_o") ∷ [])
        ∷ (codes "credit_o", (fifo_name ++ codes "_slave_credit_o") ∷ [])
        ∷ [])
      []

-- What add_cc_slave makes of a NSU FIFO, for `int(init_credit)`.
unfoldable pub slaved : Text → Text → Inst → ℕ → Round
unfolding cc_slave_inst bit_length
slaved init_credit timer_width fifo credit =
    let fifo_name = replace_away fifo.name (codes "nsu_") in
    let nsu_if_empty_n = find_repr fifo.connections (codes "if_empty_n") in
    let nsu_if_read = find_repr fifo.connections (codes "if_read") in
    let region = strip_quotes (find_repr fifo.parameters head_region) in
    let width = bit_length credit in
    record {
      fifo =
          with_parameters fifo
            (set_expr fifo.parameters (codes "DEPTH") (create_lit_expr init_credit));
      added =
          cc_slave_inst fifo_name region init_credit (str_of width) timer_width nsu_if_read
            nsu_if_empty_n
          ∷ [];
      new_wires =
          create_wire_ir (fifo_name ++ codes "_slave_credit_valid_o") (codes "0") (codes "0")
          ∷ create_wire_ir (fifo_name ++ codes "_slave_credit_o") (str_below width) (codes "0")
          ∷ [];
    }

-- The loop's body in add_cc_slave.
unfoldable pub cc_slave_round : Text → Text → Inst → Result Round
unfolding slaved
cc_slave_round init_credit timer_width fifo =
    if contains fifo.name (codes "nsu_")
    then (int_of init_credit >>= λ credit. ok (slaved init_credit timer_width fifo credit))
    else ok (untouched fifo)

unfoldable pub add_cc_slave : ℕ → Module → Text → Text → Option (Result Parts)
unfolding growing_loop cc_slave_round
add_cc_slave fuel grouped_mod_ir init_credit timer_width =
    growing_loop (cc_slave_round init_credit timer_width) fuel [] grouped_mod_ir.submodules
      grouped_mod_ir.wires

-- The pipeline that returns the credits of a FIFO.
unfoldable pub credit_pipeline_inst : Text → Text → List Text → Dict Text → Inst
unfolding create_module_inst_ir
credit_pipeline_inst fifo_name credit_cnt_width rs_route regions =
    create_module_inst_ir
      (record {
        module_name = codes "__rs_hs_pipeline";
        inst_name = fifo_name ++ codes "_credit_pipeline";
        floorplan_region = none;
        pragmas = none;
      })
      (merge
        ((codes "BODY_LEVEL", str_of (length rs_route * 2 - 2))
          ∷ (codes "DATA_WIDTH", credit_cnt_width)
          ∷ (codes "DEPTH", codes "1")
          ∷ (codes "EXTRA_PIPELINE_BEFORE_TAIL", codes "0")
          ∷ (codes "PIPELINE_READY_IN_HEAD", codes "1")
          ∷ (codes "PIPELINE_VALID_AND_DATA_IN_HEAD", codes "1")
          ∷ [])
        regions)
      ((codes "clk", codes "ap_clk" ∷ [])
        ∷ (codes "if_din", (fifo_name ++ codes "_slave_credit_o") ∷ [])
        ∷ (codes "if_dout", (fifo_name ++ codes "_master_credit_i") ∷ [])
        ∷ (codes "if_empty_n", (fifo_name ++ codes "_master_credit_valid_i") ∷ [])
        ∷ (codes "if_write", (fifo_name ++ codes "_slave_credit_valid_o") ∷ [])
        ∷ [])
      ((codes "reset", codes "1'b0")
        ∷ (codes "if_full_n", [])
        ∷ (codes "if_read", codes "1'b1")
        ∷ [])

-- What pipeline_credit_ret makes of a master, for its route, the regions and its counter width.
unfoldable pub pipelined : Inst → List Text → Dict Text → ℕ → Round
unfolding credit_pipeline_inst
pipelined mod_ rs_route regions width =
    let fifo_name = replace_away mod_.name (codes "_cc_master") in
    let credit_cnt_width = find_repr mod_.parameters (codes "CREDIT_CNT_WIDTH") in
    record {
      fifo = with_connections mod_ (
          set_expr
            (set_expr mod_.connections (codes "credit_i")
              (create_id_expr ((fifo_name ++ codes "_master_credit_i") ∷ [])))
            (codes "credit_valid_i")
            (create_id_expr ((fifo_name ++ codes "_master_credit_valid_i") ∷ [])));
      added = credit_pipeline_inst fifo_name credit_cnt_width rs_route regions ∷ [];
      new_wires =
          create_wire_ir (fifo_name ++ codes "_master_credit_valid_i") (codes "0") (codes "0")
          ∷ create_wire_ir (fifo_name ++ codes "_master_credit_i") (str_below width) (codes "0")
          ∷ [];
    }

-- The loop's body in pipeline_credit_ret; what it adds waits in `new_modules`.
unfoldable pub pipeline_round : Dict (List Text) → Inst → Result Round
unfolding pipelined
pipeline_round rs_routes mod_ =
    if contains mod_.name (codes "_cc_master")
    then (do
      rs_route ← item (replace_away mod_.name (codes "_cc_master")) rs_routes
      regions ← get_credit_return_regions rs_route
      width ← int_of (find_repr mod_.parameters (codes "CREDIT_CNT_WIDTH"))
      ok (pipelined mod_ rs_route regions width))
    else ok (untouched mod_)

unfoldable pub pipeline_loop :
    Dict (List Text) → List Inst → List Inst → List Inst → List Wire → Result Parts
unfolding pipeline_round
pipeline_loop rs_routes done [] new_modules wires =
    ok (record { submodules = done ++ new_modules; wires = wires })
pipeline_loop rs_routes done (mod_ ∷ todo) new_modules wires =
    pipeline_round rs_routes mod_ >>= λ r.
    pipeline_loop rs_routes (done ++ r.fifo ∷ []) todo (new_modules ++ r.added)
      (wires ++ r.new_wires)

unfoldable pub pipeline_credit_ret : Module → Result Parts
unfolding pipeline_loop
pipeline_credit_ret grouped_mod_ir = parse_fifo_rs_routes grouped_mod_ir >>= λ rs_routes.
    pipeline_loop rs_routes [] grouped_mod_ir.submodules [] grouped_mod_ir.wires
