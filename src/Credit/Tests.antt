-- ===== src/Credit/Tests.antt =====
-- Runs of the controllers: four credits, counters of three bits, a timer of two.
use rapidstream_noc.Common.{ℕ, ◌+◌, ◌^◌, ◌≤◌, ◌<◌, ◌≡◌, refl, true, false, [], ◌∷◌, arith}
use rapidstream_noc.Credit.{Params, Group, group_next, slave_next}
use rapidstream_noc.Credit.System.{
  System, Cycle, next, reset, Reach, start, tick, run, delivered, on_the_way, arrival,
}
use rapidstream_noc.Credit.Conserved.{credits, Reach-IsConserved, Reach-no_overflow, outgoing}
use rapidstream_noc.Credit.Returned.{credits_leave}
use rapidstream_noc.Credit.Accounts.{owed, handed_over, lost, reads, group-accounts}
use rapidstream_noc.Credit.Lossless.{begin, cycle, Accepted-lossless, group_reset}

abbrev four : Params
four = record { init_credit = 4; credit_cnt_width = 3; timer_width = 2 }

abbrev busy : Cycle
busy = record { empty_n = true; tready = true; delivers = true; reads = true; arrives = true }

-- Three busy cycles after reset: the first flit has been read.
abbrev three_on : System
three_on = next four (next four (next four (reset four) busy) busy) busy

three_on-Reach : Reach four three_on
three_on-Reach = tick busy (tick busy (tick busy start))

three_on_read : three_on.slave.credit_cnt_r ≡ 1
unfolding next slave_next
three_on_read = refl

Reach-IsConserved_example : credits three_on ≡ 4
Reach-IsConserved_example = Reach-IsConserved four (omega arith) three_on three_on-Reach

Reach-no_overflow_example :
    (delivered three_on busy ≡ true → three_on.fifo < 4)
    × (three_on.master + (arrival true (on_the_way three_on.slave three_on.returning)).1 < 2 ^ 3)
Reach-no_overflow_example = Reach-no_overflow four (omega arith) three_on three_on-Reach busy

credits_leave_example :
    (k : ℕ) × (k ≤ 2 ^ 2) × (0 < outgoing (run four (λ _. busy) k three_on).slave)
credits_leave_example =
    credits_leave four (λ _. busy) three_on (omega arith) three_on-Reach
      (omega (arith, three_on_read))

abbrev a_batch : Group
a_batch = record {
  timer = 0;
  lanes = record { credit_cnt_r = 2; credit_o_r = 2 } ∷ [];
  credit_valid_o_r = true;
}

-- Two credits that wait at the output are overwritten by the next two.
a_batch-lost : lost four a_batch false ≡ 2
a_batch-lost = refl

group-accounts_example : owed (group_next four a_batch (true ∷ []) false) + 0 + 2 ≡ 4 + 1
group-accounts_example = group-accounts four a_batch (true ∷ []) false (omega arith, tt)

abbrev pair : Group
pair = group_next four (group_reset 2) (true ∷ false ∷ []) true

Accepted-lossless_example :
    owed (group_next four pair (true ∷ true ∷ []) true) + handed_over pair true
    ≡ owed pair + reads pair.lanes (true ∷ true ∷ [])
Accepted-lossless_example =
    Accepted-lossless four (omega arith) (omega arith) (omega arith) 2 pair
      (cycle (true ∷ false ∷ []) begin) (true ∷ true ∷ [])
