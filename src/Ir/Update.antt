-- ===== src/Ir/Update.antt =====
-- ir_credit_based.py: add_cc_master, and the loop that it shares with add_cc_slave. The loop extends
-- the list of submodules that it iterates over, so it goes on to what it appends; it runs on fuel.
use rapidstream_noc.Common.{
  ℕ, zero, suc, ◌/◌, List, [], ◌∷◌, ◌++◌, Option, none, some, Result, ok, err, ◌>>=◌, if◌then◌else◌,
  ◌==◌,
}
use rapidstream_noc.Common.Text.{Text, codes, str_of, int_of, contains}
use rapidstream_noc.Common.Text.Edit.{strip_quotes, replace_away}
use rapidstream_noc.Ir.{
  Entry, Wire, Inst, Module, find_repr, set_expr, create_id_expr, create_wire_ir,
  create_module_inst_ir,
}
use rapidstream_noc.Ir.Regions.{head_region}

-- The number of binary digits of `n`, on fuel of at least `n`.
unfoldable pub bits : ℕ → ℕ → ℕ
bits zero n = 0
bits (suc f) n = let rest = bits f (n / 2) in if n == 0 then 0 else suc rest

-- `n.bit_length()`.
unfoldable pub bit_length : ℕ → ℕ
unfolding bits
bit_length n = bits n n

-- What the body of the loop makes of one submodule.
pub record Round : Type 0 where
  pub fifo : Inst
  pub added : List Inst
  pub new_wires : List Wire

abbrev pub untouched : Inst → Round
untouched fifo = record { fifo = fifo; added = []; new_wires = [] }

-- The submodules and the wires of the grouped module.
pub record Parts : Type 0 where
  pub submodules : List Inst
  pub wires : List Wire

-- The loop, with the submodules behind it in `done` and those ahead of it in `todo`; `none` is a loop
-- that has not ended.
unfoldable pub growing_loop :
    (Inst → Result Round) → ℕ → List Inst → List Inst → List Wire → Option (Result Parts)
growing_loop body zero done todo wires = none
growing_loop body (suc f) done [] wires = some (ok (record { submodules = done; wires = wires }))
growing_loop body (suc f) done (fifo ∷ todo) wires = elim (body fifo) [
  | err raised ↦ some (err raised)
  | ok r ↦ growing_loop body f (done ++ r.fifo ∷ []) (todo ++ r.added) (wires ++ r.new_wires)
]

abbrev pub with_connections : Inst → List Entry → Inst
with_connections fifo connections = record {
  name = fifo.name;
  module_ = fifo.module_;
  connections = connections;
  parameters = fifo.parameters;
  floorplan_region = fifo.floorplan_region;
  pragmas = fifo.pragmas;
}

abbrev pub with_parameters : Inst → List Entry → Inst
with_parameters fifo parameters = record {
  name = fifo.name;
  module_ = fifo.module_;
  connections = fifo.connections;
  parameters = parameters;
  floorplan_region = fifo.floorplan_region;
  pragmas = fifo.pragmas;
}

-- The instance of `credit_control_master` for a FIFO.
unfoldable pub cc_master_inst : Text → Text → Text → Text → Inst
unfolding create_module_inst_ir
cc_master_inst fifo_name region init_credit width =
    create_module_inst_ir
      (record {
        module_name = codes "credit_control_master";
        inst_name = fifo_name ++ codes "_cc_master";
        floorplan_region = some region;
        pragmas = none;
      })
      ((codes "INIT_CREDIT", init_credit) ∷ (codes "CREDIT_CNT_WIDTH", width) ∷ [])
      ((codes "clk", codes "ap_clk" ∷ [])
        ∷ (codes "rst_n", codes "ap_rst_n" ∷ [])
        ∷ (codes "credit_valid_i", (fifo_name ++ codes "_slave_credit_valid_o") ∷ [])
        ∷ (codes "credit_i", (fifo_name ++ codes "_slave_credit_o") ∷ [])
        ∷ (codes "empty_n_i", (codes "nmu_" ++ (fifo_name ++ codes "_empty_n")) ∷ [])
        ∷ (codes "tready_i", (codes "m_axis_" ++ (fifo_name ++ codes "_tready")) ∷ [])
        ∷ (codes "read_o", (codes "nmu_" ++ (fifo_name ++ codes "_read")) ∷ [])
        ∷ (codes "tvalid_o", (codes "m_axis_" ++ (fifo_name ++ codes "_tvalid")) ∷ [])
        ∷ [])
      []

-- What add_cc_master makes of a NMU FIFO, for `int(init_credit)`.
unfoldable pub mastered : Text → Inst → ℕ → Round
unfolding cc_master_inst bit_length
mastered init_credit fifo credit =
    let fifo_name = replace_away fifo.name (codes "nmu_") in
    let region = strip_quotes (find_repr fifo.parameters head_region) in
    let empty_n = codes "nmu_" ++ (fifo_name ++ codes "_empty_n") in
    let read = codes "nmu_" ++ (fifo_name ++ codes "_read") in
    record {
      fifo = with_connections fifo (
          set_expr (set_expr fifo.connections (codes "if_empty_n") (create_id_expr (empty_n ∷ [])))
            (codes "if_read") (create_id_expr (read ∷ [])));
      added = cc_master_inst fifo_name region init_credit (str_of (bit_length credit)) ∷ [];
      new_wires =
          create_wire_ir empty_n (codes "0") (codes "0")
          ∷ create_wire_ir read (codes "0") (codes "0")
          ∷ [];
    }

-- The loop's body in add_cc_master.
unfoldable pub cc_master_round : Text → Inst → Result Round
unfolding mastered
cc_master_round init_credit fifo =
    if contains fifo.name (codes "nmu_")
    then (int_of init_credit >>= λ credit. ok (mastered init_credit fifo credit))
    else ok (untouched fifo)

unfoldable pub add_cc_master : ℕ → Module → Text → Option (Result Parts)
unfolding growing_loop cc_master_round
add_cc_master fuel grouped_mod_ir init_credit =
    growing_loop (cc_master_round init_credit) fuel [] grouped_mod_ir.submodules
      grouped_mod_ir.wires
