-- ===== src/Credit/Conserved.antt =====
-- No credit of a stream is lost or made: the counters never wrap, and the NSU FIFO never overflows.
use rapidstream_noc.Common.{
  ℕ, ◌+◌, ◌-◌, ◌%◌, ◌^◌, ◌≤◌, ◌<◌, ◌≡◌, ◌∙◌, refl, Bool, true, false, Bool-cases, inl, inr, List,
  [], ◌∷◌, ◌++◌, ltb, ◌&&◌, if◌then◌else◌, arith, sum,
}
use native.Mathlib.Nat.{mod-eq_of_lt, add-mod_right}
use rapidstream_noc.Credit.{Params, MasterIn, spend, master_next, Slave, slave_next}
use rapidstream_noc.Credit.System.{
  System, Cycle, one_if, delivered, taken, on_the_way, arrival, left_over, next, Reach, start, tick,
}

-- The credits that leave the slave at this cycle.
abbrev pub outgoing : Slave → ℕ
outgoing s = if s.credit_valid_o_r then s.credit_o_r else 0

-- A credit is at the master, stands for a flit in the NoC or in the NSU FIFO, or is on its way back.
abbrev pub credits : System → ℕ
credits s = s.master + s.flying + s.fifo + s.slave.credit_cnt_r + outgoing s.slave + sum s.returning

minus_one : (W n : ℕ) → 0 < n → n < W → (n + W - 1) % W ≡ n - 1
minus_one W n pos h =
    let e : n + W - 1 ≡ (n - 1) + W = omega arith in
    rw e (add-mod_right (n - 1) W ∙ mod-eq_of_lt (omega arith))

spend-one_if :
    (p : Params) (m : ℕ) (i : MasterIn)
    → m < 2 ^ p.credit_cnt_width
    → spend p m i + one_if (i.empty_n_i && ltb 0 m && i.tready_i) ≡ m
spend-one_if p m i h = ground (arith, minus_one (2 ^ p.credit_cnt_width) m)

slave-conserves :
    (p : Params) (s : Slave) (taken : Bool)
    → s.credit_cnt_r + one_if taken < 2 ^ p.credit_cnt_width
    → outgoing (slave_next p s taken) + (slave_next p s taken).credit_cnt_r
      ≡ s.credit_cnt_r + one_if taken
unfolding slave_next
slave-conserves p s taken h =
    let one : 0 < one_if taken → 1 % 2 ^ p.credit_cnt_width ≡ 1 = λ q. mod-eq_of_lt (omega arith) in
    let more : 0 < one_if taken
        → (s.credit_cnt_r + 1) % 2 ^ p.credit_cnt_width ≡ s.credit_cnt_r + 1 =
      λ q. mod-eq_of_lt (ground arith) in
    ground (arith, one, more)

arrival-left_over :
    (arrives : Bool) (back : List ℕ)
    → (arrival arrives back).1 + sum (left_over arrives back) ≡ sum back
arrival-left_over arrives [] = refl
arrival-left_over true (n ∷ ns) = refl
arrival-left_over false (n ∷ ns) = omega arith

sum-append : (ns : List ℕ) (n : ℕ) → sum (ns ++ n ∷ []) ≡ sum ns + n
sum-append [] n = omega arith
sum-append (m ∷ ns) n = omega (arith, sum-append ns n)

sum-on_the_way : (s : Slave) (ns : List ℕ) → sum (on_the_way s ns) ≡ outgoing s + sum ns
sum-on_the_way s ns = elim (Bool-cases s.credit_valid_o_r) [
  | inl e ↦
      let appended : sum (on_the_way s ns) ≡ sum ns + s.credit_o_r =
        rw e (sum-append ns s.credit_o_r) in
      ground (arith, e, appended)
  | inr e ↦ rw e (omega arith)
]

-- The amount that arrives is nothing when no amount does.
arrival-none :
    (arrives : Bool) (back : List ℕ)
    → (arrival arrives back).0 ≡ false
    → (arrival arrives back).1 ≡ 0
arrival-none arrives [] e = refl
arrival-none true (n ∷ ns) e = cc
arrival-none false (n ∷ ns) e = refl

master-conserves :
    (p : Params) (m : ℕ) (i : MasterIn)
    → m + i.credit_i < 2 ^ p.credit_cnt_width
    → (i.credit_valid_i ≡ false → i.credit_i ≡ 0)
    → master_next p m i + one_if (i.empty_n_i && ltb 0 m && i.tready_i) ≡ m + i.credit_i
unfolding master_next
master-conserves p m i h none =
    let spent : spend p m i + one_if (i.empty_n_i && ltb 0 m && i.tready_i) ≡ m =
      spend-one_if p m i (omega arith) in
    let wraps : (spend p m i + i.credit_i) % 2 ^ p.credit_cnt_width ≡ spend p m i + i.credit_i =
      mod-eq_of_lt (omega arith) in
    elim (Bool-cases i.credit_valid_i) [
      | inl e ↦ rw e (rw wraps (omega arith))
      | inr e ↦ rw e (omega (arith, none e))
    ]

-- The state of a stream whose credits are all there.
abbrev pub IsConserved : Params → System → Type 0
IsConserved p s = credits s ≡ p.init_credit

next-IsConserved :
    (p : Params) (s : System) (c : Cycle)
    → p.init_credit < 2 ^ p.credit_cnt_width
    → IsConserved p s
    → IsConserved p (next p s c)
unfolding next
next-IsConserved p s c fits all_there =
    let back = on_the_way s.slave s.returning in
    let on_way : sum back ≡ outgoing s.slave + sum s.returning =
      sum-on_the_way s.slave s.returning in
    let split : (arrival c.arrives back).1 + sum (left_over c.arrives back) ≡ sum back =
      arrival-left_over c.arrives back in
    let spent =
      master-conserves p s.master
        (record {
          credit_valid_i = (arrival c.arrives back).0;
          credit_i = (arrival c.arrives back).1;
          empty_n_i = c.empty_n;
          tready_i = c.tready;
        })
        (omega arith) (arrival-none c.arrives back) in
    let took : one_if (taken s c) ≤ s.fifo = ground arith in
    let left : one_if (delivered s c) ≤ s.flying = ground arith in
    let watched = slave-conserves p s.slave (taken s c) (omega arith) in omega arith

-- In every state that the surroundings can bring about, the credits of the master, the flits in the
-- NoC and in the NSU FIFO, the credits that the slave counts and sends, and those on the way back
-- are `INIT_CREDIT` together, where `INIT_CREDIT` fits the counters.
pub Reach-IsConserved :
    (p : Params)
    → p.init_credit < 2 ^ p.credit_cnt_width
    → (s : System) → Reach p s
    → credits s ≡ p.init_credit
Reach-IsConserved p fits s start =
    let loaded : p.init_credit % 2 ^ p.credit_cnt_width ≡ p.init_credit = mod-eq_of_lt fits in
    omega arith
Reach-IsConserved p fits s (tick {s = before} c reached) =
    next-IsConserved p before c fits (Reach-IsConserved p fits before reached)

-- In every state that the surroundings can bring about, a flit that the NoC delivers finds fewer
-- than `INIT_CREDIT` flits in the NSU FIFO, and the sum of the master's counter and the amount that
-- reaches it fits the counter, where `INIT_CREDIT` does.
pub Reach-no_overflow :
    (p : Params)
    → p.init_credit < 2 ^ p.credit_cnt_width
    → (s : System) → Reach p s
    → (c : Cycle)
    → (delivered s c ≡ true → s.fifo < p.init_credit)
      × (s.master + (arrival c.arrives (on_the_way s.slave s.returning)).1 < 2 ^ p.credit_cnt_width)
Reach-no_overflow p fits s reached c =
    let all_there = Reach-IsConserved p fits s reached in
    let back = on_the_way s.slave s.returning in
    let on_way : sum back ≡ outgoing s.slave + sum s.returning =
      sum-on_the_way s.slave s.returning in
    let split : (arrival c.arrives back).1 + sum (left_over c.arrives back) ≡ sum back =
      arrival-left_over c.arrives back in
    (λ d. ground arith, omega arith)
