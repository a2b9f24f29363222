-- ===== src/Credit/Returned.antt =====
-- The credits that the slave counts leave it before its timer runs out.
use rapidstream_noc.Common.{
  ℕ, zero, suc, ◌+◌, ◌-◌, ◌%◌, ◌^◌, ◌≤◌, ◌<◌, ◌≡◌, refl, ◌≢◌, Bool, true, false, Bool-cases, inl,
  inr, arith,
}
use native.Mathlib.Nat.{mod-eq_of_lt, one-le-pow}
use rapidstream_noc.Credit.{Params, Slave, slave_next, send_credit}
use rapidstream_noc.Credit.System.{System, Cycle, next, taken, one_if, Reach, start, tick, run}
use rapidstream_noc.Credit.Conserved.{outgoing, Reach-IsConserved}

module _ (p : Params) where
  slave_next-timer :
      (s : Slave) (taken : Bool)
      → s.timer < 2 ^ p.timer_width
      → (slave_next p s taken).timer < 2 ^ p.timer_width
  unfolding slave_next
  slave_next-timer s taken h =
      let no_wrap : s.timer + 1 < 2 ^ p.timer_width
          → (s.timer + 1) % 2 ^ p.timer_width ≡ s.timer + 1 =
        λ q. mod-eq_of_lt q in
      ground (arith, no_wrap)

  -- The timer's register holds its value.
  Reach-timer : (s : System) → Reach p s → s.slave.timer < 2 ^ p.timer_width
  unfolding next
  Reach-timer s start = one-le-pow p.timer_width 2 (omega arith)
  Reach-timer s (tick {s = before} c reached) =
      slave_next-timer before.slave (taken before c) (Reach-timer before reached)

  -- A cycle in which the slave sends.
  slave_next-sends :
      (s : Slave) (taken : Bool)
      → send_credit p s ≡ true
      → outgoing (slave_next p s taken) ≡ s.credit_cnt_r
  unfolding slave_next
  slave_next-sends s taken h = rw h refl

  -- A cycle in which it waits.
  slave_next-waits :
      (s : Slave) (taken : Bool)
      → s.timer < 2 ^ p.timer_width
      → s.credit_cnt_r + one_if taken < 2 ^ p.credit_cnt_width
      → 0 < s.credit_cnt_r
      → send_credit p s ≡ false
      → (0 < (slave_next p s taken).credit_cnt_r)
        × ((slave_next p s taken).timer ≡ s.timer + 1)
        × (s.timer + 1 < 2 ^ p.timer_width)
  unfolding slave_next
  slave_next-waits s taken in_time fits some_credit waits =
      let not_full : s.timer + 1 ≢ 2 ^ p.timer_width = ground (arith, waits) in
      let no_wrap : (s.timer + 1) % 2 ^ p.timer_width ≡ s.timer + 1 = mod-eq_of_lt (omega arith) in
      let one : 0 < one_if taken
          → (s.credit_cnt_r + 1) % 2 ^ p.credit_cnt_width ≡ s.credit_cnt_r + 1 =
        λ q. mod-eq_of_lt (ground arith) in
      (ground (arith, waits, one), ground (arith, waits, no_wrap), omega arith)

  room :
      (s : System) (c : Cycle)
      → p.init_credit < 2 ^ p.credit_cnt_width
      → Reach p s
      → s.slave.credit_cnt_r + one_if (taken s c) < 2 ^ p.credit_cnt_width
  room s c fits reached =
      let all_there = Reach-IsConserved p fits s reached in
      let took : one_if (taken s c) ≤ s.fifo = ground arith in omega arith

  leaves_in :
      (schedule : ℕ → Cycle) (left : ℕ) (s : System)
      → p.init_credit < 2 ^ p.credit_cnt_width
      → Reach p s
      → s.slave.timer + left ≡ 2 ^ p.timer_width
      → 0 < s.slave.credit_cnt_r
      → (k : ℕ) × (k ≤ left) × (0 < outgoing (run p schedule k s).slave)
  unfolding run next
  leaves_in schedule zero s fits reached left some_credit =
      let in_time = Reach-timer s reached in (zero, omega arith, omega arith)
  leaves_in schedule (suc left) s fits reached e some_credit =
      elim (Bool-cases (send_credit p s.slave)) [
        | inl sends ↦
            let out : outgoing (slave_next p s.slave (taken s (schedule 0)))
                ≡ s.slave.credit_cnt_r =
              slave_next-sends s.slave (taken s (schedule 0)) sends in
            (1, omega arith, omega arith)
        | inr waits ↦
            let (more, later, in_time) =
              slave_next-waits s.slave (taken s (schedule 0)) (Reach-timer s reached)
                (room s (schedule 0) fits reached) some_credit waits in
            let (k, soon, out) =
              leaves_in (λ i. schedule (suc i)) left (next p s (schedule 0)) fits
                (tick (schedule 0) reached) (omega arith) more in
            (suc k, omega arith, out)
      ]

  -- From every state that the surroundings can bring about and in which the slave has counted
  -- credits, and whatever the surroundings do in the cycles to come, the slave sends a positive
  -- amount within `2 ^ TIMER_WIDTH` cycles, where `INIT_CREDIT` fits the counters.
  pub credits_leave :
      (schedule : ℕ → Cycle) (s : System)
      → p.init_credit < 2 ^ p.credit_cnt_width
      → Reach p s
      → 0 < s.slave.credit_cnt_r
      → (k : ℕ) × (k ≤ 2 ^ p.timer_width) × (0 < outgoing (run p schedule k s).slave)
  credits_leave schedule s fits reached some_credit =
      let in_time = Reach-timer s reached in
      let (k, soon, out) =
        leaves_in schedule (2 ^ p.timer_width - s.slave.timer) s fits reached (omega arith)
          some_credit in
      (k, omega arith, out)
