-- ===== src/Ir/Verilog.antt =====
-- ir_verilog.py: the modules of the controllers as elements of the IR. Their Verilog text, which
-- Credit describes, stands in no field here; its texts of parameters are the parameters' own.
use rapidstream_noc.Common.{ℕ, ◌*◌, List, [], ◌∷◌, map, Result, ok, ◌>>=◌, Dict, item}
use rapidstream_noc.Common.Text.{Text, codes, int_of}
use rapidstream_noc.Ir.{Module, Port, Entry, create_port_ir, create_parameter_ir, str_below}

abbrev pub bit_port : Text → Text → Port
bit_port name direction = create_port_ir name direction (codes "0") (codes "0")

abbrev pub parameters_of : Dict Text → List Entry
parameters_of params = map (λ (param, val). create_parameter_ir param val) params

-- `int(params[key])`.
abbrev pub int_param : Text → Dict Text → Result ℕ
int_param key params = item key params >>= λ s. int_of s

abbrev pub verilog_module : Text → Dict Text → List Port → Module
verilog_module name params ports = record {
  name = name;
  parameters = parameters_of params;
  ports = ports;
  wires = [];
  submodules = [];
}

unfoldable pub create_cc_master : Dict Text → Result Module
create_cc_master params = do
  width ← int_param (codes "CREDIT_CNT_WIDTH") params
  init_credit ← item (codes "INIT_CREDIT") params
  ok (
      verilog_module (codes "credit_control_mastser") params (
        bit_port (codes "clk") (codes "input wire")
        ∷ bit_port (codes "rst_n") (codes "input wire")
        ∷ bit_port (codes "credit_valid_i") (codes "input wire")
        ∷ create_port_ir (codes "credit_i") (codes "input wire") (str_below width) (codes "0")
        ∷ bit_port (codes "empty_n_i") (codes "input wire")
        ∷ bit_port (codes "tready_i") (codes "input wire")
        ∷ bit_port (codes "read_o") (codes "output wire")
        ∷ bit_port (codes "tvalid_o") (codes "output wire")
        ∷ []))

unfoldable pub create_cc_slave : Dict Text → Result Module
create_cc_slave params = do
  width ← int_param (codes "CREDIT_CNT_WIDTH") params
  init_credit ← item (codes "INIT_CREDIT") params
  timer_width ← item (codes "TIMER_WIDTH") params
  ok (
      verilog_module (codes "credit_control_slave") params (
        bit_port (codes "clk") (codes "input wire")
        ∷ bit_port (codes "rst_n") (codes "input wire")
        ∷ bit_port (codes "read_i") (codes "input wire")
        ∷ bit_port (codes "empty_n_i") (codes "input wire")
        ∷ bit_port (codes "credit_valid_o") (codes "output wire")
        ∷ create_port_ir (codes "credit_o") (codes "output wire") (str_below width) (codes "0")
        ∷ []))

unfoldable pub create_cc_slave_group : Dict Text → Result Module
create_cc_slave_group params = do
  size ← int_param (codes "GROUP_SIZE") params
  width ← int_param (codes "CREDIT_CNT_WIDTH") params
  init_credit ← item (codes "INIT_CREDIT") params
  timer_width ← item (codes "TIMER_WIDTH") params
  ok (
      verilog_module (codes "credit_control_slave") params (
        bit_port (codes "clk") (codes "input wire")
        ∷ bit_port (codes "rst_n") (codes "input wire")
        ∷ create_port_ir (codes "read_i") (codes "input wire") (str_below size) (codes "0")
        ∷ create_port_ir (codes "empty_n_i") (codes "input wire") (str_below size) (codes "0")
        ∷ bit_port (codes "ready_i") (codes "input wire")
        ∷ bit_port (codes "credit_valid_o") (codes "output wire")
        ∷ create_port_ir (codes "credit_o") (codes "output wire") (str_below (width * size))
            (codes "0")
        ∷ []))
