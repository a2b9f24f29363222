-- ===== src/Ir/Control.antt =====
-- ir_credit_based.py: add_credit_control.
pub mod Tests
use rapidstream_noc.Common.{ℕ, [], ◌∷◌, ◌++◌, Option, none, some, Result, ok, err, ◌>>=◌, Dict}
use rapidstream_noc.Common.Text.{Text, codes}
use rapidstream_noc.Ir.{Ir, parse_top_mod, create_port_ir, create_port_wire_connection}
use rapidstream_noc.Ir.Update.{add_cc_master}
use rapidstream_noc.Ir.Slave.{add_cc_slave, pipeline_credit_ret}
use rapidstream_noc.Ir.Merged.{add_cc_slave_group}
use rapidstream_noc.Ir.Verilog.{create_cc_master, create_cc_slave, create_cc_slave_group}
use rapidstream_noc.Ir.OverNoc.{
  NocStream, with_parts, with_ports, connect, change_ir, append_mod, grouped, credit_ret_over_noc,
}

pub data CreditReturnEnum : Type 0 where
  none_ pipeline noc : CreditReturnEnum

-- A call on fuel, for what the rest of the code does with its value.
abbrev pub then_ {ℓ κ} :
    {V : Type ℓ} {W : Type κ} → Option (Result V) → (V → Result W) → Option (Result W)
then_ call rest = elim call [ none ↦ none | some r ↦ some (r >>= rest) ]

-- The reset port, which comes before the controllers.
unfoldable pub add_reset : Text → Ir → Ir
unfolding change_ir
add_reset grouped_mod_name ir =
    change_ir ir.top_name
      (connect grouped_mod_name
        (create_port_wire_connection (codes "ap_rst_n") (codes "ap_rst_n" ∷ []) ∷ []))
      (change_ir grouped_mod_name
        (with_ports
          (create_port_ir (codes "ap_rst_n") (codes "input wire") (codes "0") (codes "0") ∷ []))
        ir)

-- The widths and the credit of the module definitions.
abbrev pub default_params : Dict Text
default_params = (codes "INIT_CREDIT", codes "15") ∷ (codes "CREDIT_CNT_WIDTH", codes "4") ∷ []

abbrev pub timed_params : Dict Text
timed_params = default_params ++ (codes "TIMER_WIDTH", codes "5") ∷ []

-- What follows the masters when the credits return over wires.
unfoldable pub slaves_on_wires :
    ℕ → Ir → Text → Text → Text → CreditReturnEnum → Option (Result (Ir × Dict NocStream))
unfolding grouped change_ir add_cc_slave create_cc_slave pipeline_credit_ret
slaves_on_wires fuel ir grouped_mod_name init_credit timer_width credit_return =
    elim (grouped ir grouped_mod_name) [
      | err raised ↦ some (err raised)
      | ok grouped_mod_ir ↦
          then_ (add_cc_slave fuel grouped_mod_ir init_credit timer_width) (λ parts. do
            slave ← create_cc_slave timed_params
            let with_slaves = append_mod slave (change_ir grouped_mod_name (with_parts parts) ir)
            elim credit_return [
              | pipeline ↦ (do
                with_slaves_mod ← grouped with_slaves grouped_mod_name
                piped ← pipeline_credit_ret with_slaves_mod
                ok (change_ir grouped_mod_name (with_parts piped) with_slaves, []))
              | _ ↦ ok (with_slaves, [])
            ])
    ]

-- What follows them when the credits return over the NoC.
unfoldable pub slaves_over_noc : Ir → Text → Text → Text → Result (Ir × Dict NocStream)
unfolding grouped change_ir add_cc_slave_group create_cc_slave_group credit_ret_over_noc
slaves_over_noc ir grouped_mod_name init_credit timer_width = do
  grouped_mod_ir ← grouped ir grouped_mod_name
  (srcdest_fifos, parts) ← add_cc_slave_group grouped_mod_ir init_credit timer_width
  group ← create_cc_slave_group (timed_params ++ (codes "GROUP_SIZE", codes "4") ∷ [])
  credit_ret_over_noc (append_mod group (change_ir grouped_mod_name (with_parts parts) ir))
      grouped_mod_name init_credit srcdest_fifos

-- The masters and their module definition.
unfoldable pub with_masters : ℕ → Ir → Text → Text → Option (Result Ir)
unfolding grouped change_ir add_reset add_cc_master create_cc_master parse_top_mod
with_masters fuel ir grouped_mod_name init_credit = elim (parse_top_mod ir) [
  | err raised ↦ some (err raised)
  | ok top_ir ↦ elim (grouped (add_reset grouped_mod_name ir) grouped_mod_name) [
    | err raised ↦ some (err raised)
    | ok grouped_mod_ir ↦ then_ (add_cc_master fuel grouped_mod_ir init_credit) (λ parts. do
      master ← create_cc_master default_params
      ok (
          append_mod master
            (change_ir grouped_mod_name (with_parts parts) (add_reset grouped_mod_name ir))))
  ]
]

unfoldable pub add_credit_control :
    ℕ → Ir → Text → Text → Text → CreditReturnEnum → Option (Result (Ir × Dict NocStream))
unfolding with_masters slaves_on_wires slaves_over_noc
add_credit_control fuel ir grouped_mod_name init_credit timer_width credit_return =
    elim (with_masters fuel ir grouped_mod_name init_credit) [
      | none ↦ none
      | some (err raised) ↦ some (err raised)
      | some (ok mastered_ir) ↦ elim credit_return [
        | noc ↦ some (slaves_over_noc mastered_ir grouped_mod_name init_credit timer_width)
        | wired ↦ slaves_on_wires fuel mastered_ir grouped_mod_name init_credit timer_width wired
      ]
    ]
