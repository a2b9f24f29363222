-- ===== src/Credit.antt =====
-- ir_verilog.py: the credit controllers, as the Verilog of their modules defines them. A register
-- keeps its value modulo 2 to its width, `*_next` gives the registers after one rising clock edge
-- out of reset, and a bus is a natural number.
pub mod System
pub mod Conserved
pub mod Returned
pub mod Accounts
pub mod Lossless
pub mod Tests
use rapidstream_noc.Common.{
  ℕ, ◌+◌, ◌-◌, ◌/◌, ◌%◌, ◌^◌, Bool, true, false, not, ◌&&◌, ◌||◌, List, [], ◌∷◌, map, ltb, ◌==◌,
  if◌then◌else◌,
}

-- INIT_CREDIT, CREDIT_CNT_WIDTH and TIMER_WIDTH.
pub record Params : Type 0 where
  pub init_credit : ℕ
  pub credit_cnt_width : ℕ
  pub timer_width : ℕ

-- `credit_control_master`: its one register is `credit_cnt_r`.
pub record MasterIn : Type 0 where
  pub credit_valid_i : Bool
  pub credit_i : ℕ
  pub empty_n_i : Bool
  pub tready_i : Bool

abbrev pub master_reset : Params → ℕ
master_reset p = p.init_credit % 2 ^ p.credit_cnt_width

abbrev pub tvalid_o : ℕ → Bool → Bool
tvalid_o credit_cnt_r empty_n_i = empty_n_i && ltb 0 credit_cnt_r

abbrev pub read_o : ℕ → Bool → Bool
read_o credit_cnt_r tready_i = tready_i && ltb 0 credit_cnt_r

-- The first `if` of the block for `credit_cnt_w`.
abbrev pub spend : Params → ℕ → MasterIn → ℕ
spend p credit_cnt_r i =
    if i.empty_n_i && i.tready_i && ltb 0 credit_cnt_r
    then (credit_cnt_r + 2 ^ p.credit_cnt_width - 1) % 2 ^ p.credit_cnt_width
    else credit_cnt_r

unfoldable pub master_next : Params → ℕ → MasterIn → ℕ
master_next p credit_cnt_r i =
    if i.credit_valid_i
    then (spend p credit_cnt_r i + i.credit_i) % 2 ^ p.credit_cnt_width
    else spend p credit_cnt_r i

-- The registers of `credit_control_slave`.
pub record Slave : Type 0 where
  pub timer : ℕ
  pub credit_cnt_r : ℕ
  pub credit_valid_o_r : Bool
  pub credit_o_r : ℕ

abbrev pub slave_reset : Slave
slave_reset = record { timer = 0; credit_cnt_r = 0; credit_valid_o_r = false; credit_o_r = 0 }

-- `&timer`: all its bits are set.
abbrev pub timer_full : Params → ℕ → Bool
timer_full p timer = timer + 1 == 2 ^ p.timer_width

abbrev pub send_credit : Params → Slave → Bool
send_credit p s = timer_full p s.timer || s.credit_cnt_r == p.init_credit / 2

-- `taken` is `read_i & empty_n_i`.
unfoldable pub slave_next : Params → Slave → Bool → Slave
slave_next p s taken = record {
  timer =
      if send_credit p s
      then 0
      else if ltb 0 s.credit_cnt_r
      then (s.timer + 1) % 2 ^ p.timer_width
      else s.timer;
  credit_cnt_r =
      if taken
      then (if send_credit p s
          then 1 % 2 ^ p.credit_cnt_width
          else (s.credit_cnt_r + 1) % 2 ^ p.credit_cnt_width)
      else if send_credit p s
      then 0
      else s.credit_cnt_r;
  credit_valid_o_r = send_credit p s;
  credit_o_r = s.credit_cnt_r;
}

-- The registers of `credit_control_slave_group` for one FIFO of the group.
pub record Lane : Type 0 where
  pub credit_cnt_r : ℕ
  pub credit_o_r : ℕ

pub record Group : Type 0 where
  pub timer : ℕ
  pub lanes : List Lane
  pub credit_valid_o_r : Bool

abbrev pub any_lane : (ℕ → Bool) → List Lane → Bool
any_lane test [] = false
any_lane test (l ∷ ls) = test l.credit_cnt_r || any_lane test ls

abbrev pub group_send_credit : Params → Group → Bool
group_send_credit p g = timer_full p g.timer || any_lane (λ n. n == p.init_credit / 2) g.lanes

-- The counter and the output of one FIFO.
abbrev pub lane_next : Params → Bool → Lane → Bool → Lane
lane_next p send l taken = record {
  credit_cnt_r =
      if taken
      then (if send
          then 1 % 2 ^ p.credit_cnt_width
          else (l.credit_cnt_r + 1) % 2 ^ p.credit_cnt_width)
      else if send
      then 0
      else l.credit_cnt_r;
  credit_o_r = if send then l.credit_cnt_r else l.credit_o_r;
}

-- The generated blocks, for as many lanes as there are bits of `read_i & empty_n_i`.
abbrev pub lanes_next : Params → Bool → List Lane → List Bool → List Lane
lanes_next p send [] taken = []
lanes_next p send (l ∷ ls) [] = lane_next p send l false ∷ lanes_next p send ls []
lanes_next p send (l ∷ ls) (t ∷ taken) = lane_next p send l t ∷ lanes_next p send ls taken

unfoldable pub group_next : Params → Group → List Bool → Bool → Group
group_next p g taken ready_i =
    let send = group_send_credit p g in
    record {
      timer =
          if send
          then 0
          else if timer_full p g.timer
          then g.timer
          else if any_lane (λ n. ltb 0 n) g.lanes
          then (g.timer + 1) % 2 ^ p.timer_width
          else g.timer;
      lanes = lanes_next p send g.lanes taken;
      credit_valid_o_r =
          if g.credit_valid_o_r && ready_i
          then false
          else if send
          then true
          else g.credit_valid_o_r;
    }
