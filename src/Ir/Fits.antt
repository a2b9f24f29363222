-- ===== src/Ir/Fits.antt =====
-- The parameters of the controllers that add_cc_master and add_cc_slave add.
use rapidstream_noc.Common.{ℕ, ◌<◌, ◌^◌, ◌≡◌, refl, true, [], ◌∷◌, ok, Returns}
use rapidstream_noc.Common.Text.{Text, codes, text_eq, contains, int_of}
use rapidstream_noc.Common.Text.Decimal.{int_of-str_of}
use rapidstream_noc.Ir.{Inst, find_expr, find_repr, create_module_inst_ir}
use rapidstream_noc.Ir.Update.{Round, bit_length, cc_master_inst, mastered, cc_master_round}
use rapidstream_noc.Ir.Slave.{cc_slave_inst, slaved, cc_slave_round}
use rapidstream_noc.Ir.Connected.{bit_length_enough}

-- A round adds one instance, of a module, whose parameters give the initial credit and this width.
pub record AddsController (r : Round) (module_ init_credit : Text) (width : ℕ) : Type 0 where
  pub inst : Inst
  pub added : r.added ≡ inst ∷ []
  pub is_module : inst.module_ ≡ module_
  pub initial : find_repr inst.parameters (codes "INIT_CREDIT") ≡ init_credit
  pub counts : int_of (find_repr inst.parameters (codes "CREDIT_CNT_WIDTH")) ≡ ok width

-- For an initial credit that is a number, add_cc_master adds to a NMU FIFO one master and add_cc_slave
-- to a NSU FIFO one slave, both with this initial credit and with counters of one width, and the
-- initial credit fits this width.
pub controllers-fit :
    (init_credit timer_width : Text) (nmu nsu : Inst) (credit : ℕ)
    → contains nmu.name (codes "nmu_") ≡ true
    → contains nsu.name (codes "nsu_") ≡ true
    → int_of init_credit ≡ ok credit
    → (width : ℕ) × (credit < 2 ^ width)
      × Returns
          (λ r. AddsController r (codes "credit_control_master") init_credit width)
          (cc_master_round init_credit nmu)
      × Returns
          (λ r. AddsController r (codes "credit_control_slave") init_credit width)
          (cc_slave_round init_credit timer_width nsu)
unfolding cc_master_round cc_slave_round mastered slaved cc_master_inst cc_slave_inst
    create_module_inst_ir find_repr find_expr text_eq
controllers-fit init_credit timer_width nmu nsu credit is_nmu is_nsu read = (
  bit_length credit,
  bit_length_enough credit,
  (
    mastered init_credit nmu credit,
    rw (is_nmu, read) refl,
    record {
      inst = _;
      added = refl;
      is_module = refl;
      initial = refl;
      counts = int_of-str_of (bit_length credit);
    },
  ),
  (
    slaved init_credit timer_width nsu credit,
    rw (is_nsu, read) refl,
    record {
      inst = _;
      added = refl;
      is_module = refl;
      initial = refl;
      counts = int_of-str_of (bit_length credit);
    },
  ),
)
