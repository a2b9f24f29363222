-- ===== src/Credit/Accounts.antt =====
-- The credits of `credit_control_slave_group`: what it counts, holds, hands over and loses.
use rapidstream_noc.Common.{
  ℕ, ◌+◌, ◌%◌, ◌^◌, ◌<◌, ◌≡◌, refl, Bool, false, ◌&&◌, if◌then◌else◌, arith, List, [], ◌∷◌, All,
}
use native.Mathlib.Nat.{mod-eq_of_lt}
use rapidstream_noc.Credit.{
  Params, Lane, Group, group_next, group_send_credit, lanes_next, lane_next,
}

-- The credits that the counters hold, and those in the output registers.
abbrev pub counted : List Lane → ℕ
counted [] = 0
counted (l ∷ ls) = l.credit_cnt_r + counted ls

abbrev pub held : List Lane → ℕ
held [] = 0
held (l ∷ ls) = l.credit_o_r + held ls

-- The credits of a cycle's reads, one for each lane that is read.
abbrev pub reads : List Lane → List Bool → ℕ
reads [] taken = 0
reads (l ∷ ls) [] = 0
reads (l ∷ ls) (t ∷ taken) = (if t then 1 else 0) + reads ls taken

-- What is still owed to the masters: the counters, and the output when it is valid.
abbrev pub owed : Group → ℕ
owed g = counted g.lanes + (if g.credit_valid_o_r then held g.lanes else 0)

-- What the group hands over in a cycle.
abbrev pub handed_over : Group → Bool → ℕ
handed_over g ready_i = if g.credit_valid_o_r && ready_i then held g.lanes else 0

-- What it loses: a new batch clears `credit_valid_o_r` together with the one before it, or
-- overwrites the one that waits.
abbrev pub lost : Params → Group → Bool → ℕ
lost p g ready_i =
    if group_send_credit p g && g.credit_valid_o_r
    then (if ready_i then counted g.lanes else held g.lanes)
    else 0

no_reads : (ls : List Lane) → reads ls [] ≡ 0
no_reads [] = refl
no_reads (l ∷ ls) = refl

module _ (p : Params) where
  -- No counter is at its last value.
  abbrev pub HasRoom : List Lane → Type 0
  HasRoom = All (λ l. l.credit_cnt_r + 1 < 2 ^ p.credit_cnt_width)

  lane_next-counted :
      (send : Bool) (l : Lane) (t : Bool)
      → l.credit_cnt_r + 1 < 2 ^ p.credit_cnt_width
      → (lane_next p send l t).credit_cnt_r
        ≡ (if send then 0 else l.credit_cnt_r) + (if t then 1 else 0)
  lane_next-counted send l t room =
      let one : 1 % 2 ^ p.credit_cnt_width ≡ 1 = mod-eq_of_lt (omega arith) in
      let more : (l.credit_cnt_r + 1) % 2 ^ p.credit_cnt_width ≡ l.credit_cnt_r + 1 =
        mod-eq_of_lt (omega arith) in
      ground (arith, one, more)

  lanes_next-counted :
      (send : Bool) (ls : List Lane) (taken : List Bool)
      → HasRoom ls
      → counted (lanes_next p send ls taken) ≡ (if send then 0 else counted ls) + reads ls taken
  lanes_next-counted send [] taken room = ground arith
  lanes_next-counted send (l ∷ ls) [] (here, room) =
      let this = lane_next-counted send l false here in
      let rest = lanes_next-counted send ls [] room in
      let none : (ls : List Lane) → reads ls [] ≡ 0 = no_reads in
      let n = none ls in ground (arith, this, rest, n)
  lanes_next-counted send (l ∷ ls) (t ∷ taken) (here, room) =
      let this = lane_next-counted send l t here in
      let rest = lanes_next-counted send ls taken room in ground (arith, this, rest)

  lanes_next-held :
      (send : Bool) (ls : List Lane) (taken : List Bool)
      → held (lanes_next p send ls taken) ≡ (if send then counted ls else held ls)
  lanes_next-held send [] taken = ground arith
  lanes_next-held send (l ∷ ls) [] = ground (arith, lanes_next-held send ls [])
  lanes_next-held send (l ∷ ls) (t ∷ taken) = ground (arith, lanes_next-held send ls taken)

  -- In every cycle of `credit_control_slave_group`, whatever it holds and whether or not the output
  -- is accepted, what it owes after the cycle, what it hands over and what it loses are together
  -- what it owed before and the cycle's reads, where no counter is at its last value.
  pub group-accounts :
      (g : Group) (taken : List Bool) (ready_i : Bool)
      → HasRoom g.lanes
      → owed (group_next p g taken ready_i) + handed_over g ready_i + lost p g ready_i
        ≡ owed g + reads g.lanes taken
  unfolding group_next
  group-accounts g taken ready_i room =
      let after = lanes_next-counted (group_send_credit p g) g.lanes taken room in
      let out = lanes_next-held (group_send_credit p g) g.lanes taken in ground (arith, after, out)
