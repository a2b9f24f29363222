-- ===== src/Credit/System.antt =====
-- A stream under credit-based control: the master at the NMU FIFO, the NoC, the NSU FIFO, the slave
-- that watches its reads, and the way of the credits back to the master (ir_credit_based.py wires
-- them: add_cc_master, add_cc_slave, pipeline_credit_ret).
use rapidstream_noc.Common.{
  ℕ, zero, suc, ◌+◌, ◌-◌, Bool, true, false, ◌&&◌, List, [], ◌∷◌, ◌++◌, ltb, if◌then◌else◌,
}
use rapidstream_noc.Credit.{
  Params, master_reset, master_next, tvalid_o, Slave, slave_reset, slave_next,
}

-- The credits of the master, the flits in the NoC and in the NSU FIFO, the slave, and the amounts
-- on the way back.
pub record System : Type 0 where
  pub master : ℕ
  pub flying : ℕ
  pub fifo : ℕ
  pub slave : Slave
  pub returning : List ℕ

-- What the surroundings do in one cycle: the NMU FIFO has a flit, the NoC accepts one, it delivers
-- one, the reader of the NSU FIFO asks for one, and the oldest amount on the way back arrives.
pub record Cycle : Type 0 where
  pub empty_n : Bool
  pub tready : Bool
  pub delivers : Bool
  pub reads : Bool
  pub arrives : Bool

abbrev pub one_if : Bool → ℕ
one_if b = if b then 1 else 0

abbrev pub sent : System → Cycle → Bool
sent s c = tvalid_o s.master c.empty_n && c.tready

abbrev pub delivered : System → Cycle → Bool
delivered s c = c.delivers && ltb 0 s.flying

-- `read_i & empty_n_i` of the slave.
abbrev pub taken : System → Cycle → Bool
taken s c = c.reads && ltb 0 s.fifo

-- What leaves the slave joins the amounts on the way. A direct connection is the one where an
-- amount always arrives at once; a pipeline or the NoC lets it wait.
abbrev pub on_the_way : Slave → List ℕ → List ℕ
on_the_way slave returning =
    if slave.credit_valid_o_r then returning ++ slave.credit_o_r ∷ [] else returning

abbrev pub arrival : Bool → List ℕ → Bool × ℕ
arrival arrives [] = (false, 0)
arrival arrives (n ∷ ns) = if arrives then (true, n) else (false, 0)

abbrev pub left_over : Bool → List ℕ → List ℕ
left_over arrives [] = []
left_over arrives (n ∷ ns) = if arrives then ns else n ∷ ns

-- All registers at one clock edge.
unfoldable pub next : Params → System → Cycle → System
next p s c =
    let back = on_the_way s.slave s.returning in
    record {
      master = master_next p s.master (record {
        credit_valid_i = (arrival c.arrives back).0;
        credit_i = (arrival c.arrives back).1;
        empty_n_i = c.empty_n;
        tready_i = c.tready;
      });
      flying = s.flying + one_if (sent s c) - one_if (delivered s c);
      fifo = s.fifo + one_if (delivered s c) - one_if (taken s c);
      slave = slave_next p s.slave (taken s c);
      returning = left_over c.arrives back;
    }

abbrev pub reset : Params → System
reset p = record {
  master = master_reset p;
  flying = 0;
  fifo = 0;
  slave = slave_reset;
  returning = [];
}

-- The states that the surroundings can bring about, cycle by cycle.
pub data Reach (p : Params) : System → Type 0 where
  start : Reach p (reset p)
  tick : {s : System} (c : Cycle) → Reach p s → Reach p (next p s c)

-- A schedule gives the surroundings of every cycle to come.
unfoldable pub run : Params → (ℕ → Cycle) → ℕ → System → System
run p schedule zero s = s
run p schedule (suc n) s = run p (λ k. schedule (suc k)) n (next p s (schedule 0))
