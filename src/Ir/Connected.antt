-- ===== src/Ir/Connected.antt =====
-- What the rewriting of connections and the added controllers amount to: set_expr and find_expr, the
-- width of the credit counters, and the wires between a slave and its master.
use native.Mathlib.Nat.{pow-suc}
use rapidstream_noc.Common.{
  ℕ, zero, suc, ◌*◌, ◌/◌, ◌^◌, ◌≤◌, ◌<◌, ◌≡◌, ◌∙◌, refl, Bool, true, false, Bool-cases, inl, inr,
  List, [], ◌∷◌, ◌++◌, if◌then◌else◌, ◌&&◌, ◌||◌, ◌==◌, arith, Dict,
}
use rapidstream_noc.Common.Text.{Text, text_eq, codes}
use rapidstream_noc.Common.Text.Edit.{replace_away}
use rapidstream_noc.Common.Text.Equality.{text_eq_iff}
use rapidstream_noc.Ir.{
  Entry, Expr, Inst, find_repr, find_expr, set_expr, create_id_expr, create_module_inst_ir,
}
use rapidstream_noc.Ir.Update.{bits, bit_length}
use rapidstream_noc.Ir.Slave.{cc_slave_inst, credit_pipeline_inst, pipelined}
use rapidstream_noc.Credit.{Params}
use rapidstream_noc.Credit.System.{System, Reach}
use rapidstream_noc.Credit.Conserved.{credits, Reach-IsConserved}

-- An entry of the name is there.
abbrev pub has_name : Text → List Entry → Bool
has_name key [] = false
has_name key (c ∷ source) = text_eq c.name key || has_name key source

-- After set_expr, find_expr answers the new expression for the key when an entry has its name, and
-- for every other key what it answered before.
pub find_expr-set_expr :
    (source : List Entry) (key k : Text) (val : Expr)
    → find_expr (set_expr source key val) k
      ≡ (if text_eq key k && has_name key source then val else find_expr source k)
unfolding find_expr set_expr
find_expr-set_expr [] key k val = ground arith
find_expr-set_expr (c ∷ source) key k val =
    let rest = find_expr-set_expr source key k val in
    let named = text_eq_iff c.name key in
    let at_k = text_eq_iff c.name k in
    let same = text_eq_iff key k in
    elim (Bool-cases (text_eq c.name key)) [
      | inl e ↦ rw e (ground (arith, rest, named, at_k, same, e))
      | inr e ↦ rw e (ground (arith, rest, named, at_k, same, e))
    ]

has_name-set_expr :
    (k : Text) (source : List Entry) (key : Text) (val : Expr)
    → has_name k (set_expr source key val) ≡ has_name k source
unfolding set_expr
has_name-set_expr k [] key val = refl
has_name-set_expr k (c ∷ source) key val =
    let rest = has_name-set_expr k source key val in
    elim (Bool-cases (text_eq c.name key)) [ inl e ↦ rw (e, rest) refl | inr e ↦ rw (e, rest) refl ]

-- The name of a master's FIFO, a wire of that FIFO, and the FIFO's slave.
abbrev pub fifo_of : Inst → Text
fifo_of mod_ = replace_away mod_.name (codes "_cc_master")

abbrev pub wire_of : Inst → Text → Expr
wire_of mod_ suffix = create_id_expr ((fifo_of mod_ ++ suffix) ∷ [])

abbrev pub slave_of : Inst → Text → Text → Text → Text → Text → Text → Inst
slave_of mod_ = cc_slave_inst (fifo_of mod_)

chosen : (b : Bool) (x y : Expr) → b ≡ true → (if b then x else y) ≡ x
chosen b x y e = rw e refl

bits_enough : (f n : ℕ) → n ≤ f → n < 2 ^ bits f n
unfolding bits
bits_enough zero n h = omega arith
bits_enough (suc f) n h =
    let rest = bits_enough f (n / 2) (omega arith) in
    let double : 2 ^ suc (bits f (n / 2)) ≡ 2 ^ bits f (n / 2) * 2 = pow-suc 2 (bits f (n / 2)) in
    elim (Bool-cases (n == 0)) [
      | inl e ↦ (let none_left : n ≡ 0 = ground (arith, e) in rw e (omega arith))
      | inr e ↦ rw e (omega (arith, rest, double))
    ]

-- `CREDIT_CNT_WIDTH`, the width that add_cc_master and add_cc_slave give the counters, holds the
-- credit: `n < 2 ^ n.bit_length()`.
pub bit_length_enough : (n : ℕ) → n < 2 ^ bit_length n
unfolding bit_length
bit_length_enough n = bits_enough n n (omega arith)

-- The parameters of the controllers of one FIFO.
abbrev pub params_of : ℕ → ℕ → Params
params_of credit timer_width = record {
  init_credit = credit;
  credit_cnt_width = bit_length credit;
  timer_width = timer_width;
}

-- With the counter width that add_cc_master and add_cc_slave choose, whatever the initial credit,
-- the credits of a stream are all there in every state that the surroundings can bring about.
pub params_of-conserved :
    (credit timer_width : ℕ) (s : System)
    → Reach (params_of credit timer_width) s
    → credits s ≡ credit
params_of-conserved credit timer_width s reached =
    Reach-IsConserved (params_of credit timer_width) (bit_length_enough credit) s reached

-- What pipeline_credit_ret makes of a master that has the two credit ports: it adds one pipeline,
-- the pipeline reads what the slave of the same FIFO writes, and the master what the pipeline writes.
pub pipelined-connects :
    (mod_ : Inst) (rs_route : List Text) (regions : Dict Text) (width : ℕ)
    (region init_credit cnt_width timer_width read empty_n : Text)
    → has_name (codes "credit_i") mod_.connections ≡ true
    → has_name (codes "credit_valid_i") mod_.connections ≡ true
    → (pipe : Inst) × ((pipelined mod_ rs_route regions width).added ≡ pipe ∷ [])
      × (find_expr (pipelined mod_ rs_route regions width).fifo.connections (codes "credit_i")
          ≡ find_expr pipe.connections (codes "if_dout"))
      × (find_expr (pipelined mod_ rs_route regions width).fifo.connections (codes "credit_valid_i")
          ≡ find_expr pipe.connections (codes "if_empty_n"))
      × (find_expr pipe.connections (codes "if_din")
          ≡ find_expr
              (slave_of mod_ region init_credit cnt_width timer_width read empty_n).connections
              (codes "credit_o"))
      × (find_expr pipe.connections (codes "if_write")
          ≡ find_expr
              (slave_of mod_ region init_credit cnt_width timer_width read empty_n).connections
              (codes "credit_valid_o"))
unfolding pipelined credit_pipeline_inst cc_slave_inst create_module_inst_ir create_id_expr text_eq
    find_expr
pipelined-connects mod_ rs_route regions width region init_credit cnt_width timer_width read empty_n
      has_credit has_valid =
    let amount =
      find_expr-set_expr mod_.connections (codes "credit_i") (codes "credit_i")
        (wire_of mod_ (codes "_master_credit_i")) in
    let once =
      set_expr mod_.connections (codes "credit_i") (wire_of mod_ (codes "_master_credit_i")) in
    let valid = wire_of mod_ (codes "_master_credit_valid_i") in
    let kept = find_expr-set_expr once (codes "credit_valid_i") (codes "credit_i") valid in
    let flag = find_expr-set_expr once (codes "credit_valid_i") (codes "credit_valid_i") valid in
    let still =
      has_name-set_expr (codes "credit_valid_i") mod_.connections (codes "credit_i")
        (wire_of mod_ (codes "_master_credit_i")) in
    (
      credit_pipeline_inst (fifo_of mod_) (find_repr mod_.parameters (codes "CREDIT_CNT_WIDTH"))
          rs_route regions,
      refl,
      kept
          ∙ amount
          ∙ chosen (has_name (codes "credit_i") mod_.connections)
              (wire_of mod_ (codes "_master_credit_i"))
              (find_expr mod_.connections (codes "credit_i")) has_credit,
      flag
          ∙ chosen (has_name (codes "credit_valid_i") once) valid
              (find_expr once (codes "credit_valid_i")) (still ∙ has_valid),
      refl,
      refl,
    )
