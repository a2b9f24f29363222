-- ===== src/Credit/Lossless.antt =====
-- A group of FIFOs whose credits are always accepted: its batches never meet.
use rapidstream_noc.Common.{
  ℕ, zero, suc, ◌+◌, ◌/◌, ◌%◌, ◌^◌, ◌≤◌, ◌<◌, ◌≡◌, ◌≢◌, refl, Bool, true, false, Bool-cases, inl,
  inr, ◌==◌, ◌&&◌, if◌then◌else◌, arith, List, [], ◌∷◌, All,
}
use native.Mathlib.Nat.{mod-eq_of_lt, pow-le-pow_right}
use rapidstream_noc.Credit.{
  Params, Lane, Group, group_next, group_send_credit, lanes_next, lane_next, any_lane,
}
use rapidstream_noc.Credit.Accounts.{owed, reads, handed_over, lost, HasRoom, group-accounts}

-- The registers of a group of `n` FIFOs after a reset.
abbrev pub reset_lanes : ℕ → List Lane
reset_lanes zero = []
reset_lanes (suc n) = record { credit_cnt_r = 0; credit_o_r = 0 } ∷ reset_lanes n

abbrev pub group_reset : ℕ → Group
group_reset n = record { timer = 0; lanes = reset_lanes n; credit_valid_o_r = false }

cleared : (valid : Bool) → (if valid && true then false else valid) ≢ true
cleared true e = cc
cleared false e = cc

module _ (p : Params) where
  abbrev pub AtMost : ℕ → List Lane → Type 0
  AtMost n = All (λ l. l.credit_cnt_r ≤ n)

  -- A batch that waits at the output is younger than the next one.
  abbrev pub IsSpaced : Group → Type 0
  IsSpaced g =
      AtMost (p.init_credit / 2) g.lanes
      × (g.credit_valid_o_r ≡ true → (g.timer ≡ 0) × AtMost 1 g.lanes)

  lanes_next-All :
      (P Q : Lane → Type 0) (send : Bool)
      → ((l : Lane) (t : Bool) → P l → Q (lane_next p send l t))
      → (ls : List Lane) (taken : List Bool) → All P ls
      → All Q (lanes_next p send ls taken)
  lanes_next-All P Q send each [] taken h = tt
  lanes_next-All P Q send each (l ∷ ls) [] (here, h) =
      (each l false here, lanes_next-All P Q send each ls [] h)
  lanes_next-All P Q send each (l ∷ ls) (t ∷ taken) (here, h) =
      (each l t here, lanes_next-All P Q send each ls taken h)

  sent-AtMost :
      (ls : List Lane) (taken : List Bool) (n : ℕ)
      → 1 ≤ n
      → n < 2 ^ p.credit_cnt_width
      → AtMost n ls
      → AtMost 1 (lanes_next p true ls taken)
  sent-AtMost ls taken n h fits =
      let one : 1 % 2 ^ p.credit_cnt_width ≡ 1 = mod-eq_of_lt (omega arith) in
      lanes_next-All _ _ true (λ l t few. ground (arith, one)) ls taken

  not_loaded :
      (ls : List Lane) (n : ℕ)
      → AtMost n ls
      → any_lane (λ c. c == n) ls ≡ false
      → All (λ l. l.credit_cnt_r + 1 ≤ n) ls
  not_loaded [] n few none = tt
  not_loaded (l ∷ ls) n (here, few) none =
      (ground (arith, none), not_loaded ls n few (ground (arith, none)))

  waits-AtMost :
      (ls : List Lane) (taken : List Bool) (n : ℕ)
      → AtMost n ls
      → n < 2 ^ p.credit_cnt_width
      → any_lane (λ c. c == n) ls ≡ false
      → AtMost n (lanes_next p false ls taken)
  waits-AtMost ls taken n bounded fits none =
      lanes_next-All _ _ false
        (λ l t few.
          let more : (l.credit_cnt_r + 1) % 2 ^ p.credit_cnt_width ≡ l.credit_cnt_r + 1 =
            mod-eq_of_lt (omega arith) in
          ground (arith, more))
        ls taken (not_loaded ls n bounded none)

  AtMost-mono : (ls : List Lane) (m n : ℕ) → m ≤ n → AtMost m ls → AtMost n ls
  AtMost-mono [] m n h few = tt
  AtMost-mono (l ∷ ls) m n h (here, few) = (omega arith, AtMost-mono ls m n h few)

  none_loaded : (ls : List Lane) (n : ℕ) → AtMost 1 ls → 1 < n → any_lane (λ c. c == n) ls ≡ false
  none_loaded [] n few h = refl
  none_loaded (l ∷ ls) n (here, few) h = let rest = none_loaded ls n few h in ground (arith, rest)

  AtMost-HasRoom :
      (ls : List Lane) (n : ℕ) → AtMost n ls → n + 1 < 2 ^ p.credit_cnt_width → HasRoom p ls
  AtMost-HasRoom [] n few h = tt
  AtMost-HasRoom (l ∷ ls) n (here, few) h = (omega arith, AtMost-HasRoom ls n few h)

  -- The states of a group of `n` FIFOs whose output is always accepted.
  pub data Accepted (n : ℕ) : Group → Type 0 where
    begin : Accepted n (group_reset n)
    cycle : {g : Group} (taken : List Bool) → Accepted n g → Accepted n (group_next p g taken true)

  -- What the parameters need for the spacing: a timer, and half of the buffer above one credit.
  module _ (fits : p.init_credit < 2 ^ p.credit_cnt_width) (above_one : 1 < p.init_credit / 2)
      (timed : 0 < p.timer_width) where
    IsSpaced-not_sent :
        (g : Group) → IsSpaced g → g.credit_valid_o_r ≡ true → group_send_credit p g ≡ false
    IsSpaced-not_sent g (bounded, spaced) valid =
        let (fresh, few) = spaced valid in
        let none = none_loaded g.lanes (p.init_credit / 2) few above_one in
        let long : 2 ^ 1 ≤ 2 ^ p.timer_width = pow-le-pow_right (omega arith) timed in
        let two : 2 ^ 1 ≡ 2 = refl in ground (arith, fresh, none, long, two)

    group_next-IsSpaced :
        (g : Group) (taken : List Bool) → IsSpaced g → IsSpaced (group_next p g taken true)
    unfolding group_next
    group_next-IsSpaced g taken (bounded, spaced) =
        let half : p.init_credit / 2 < 2 ^ p.credit_cnt_width = omega arith in
        elim (Bool-cases (group_send_credit p g)) [
          | inl sends ↦
              let few = sent-AtMost g.lanes taken (p.init_credit / 2) (omega arith) half bounded in
              rw sends (
                AtMost-mono (lanes_next p true g.lanes taken) 1 (p.init_credit / 2) (omega arith)
                    few,
                λ v. (refl, few),
              )
          | inr waits ↦ rw waits (
            waits-AtMost g.lanes taken (p.init_credit / 2) bounded half (ground (arith, waits)),
            λ v. elim (cleared g.credit_valid_o_r v) [ ],
          )
        ]

    reset-AtMost : (n m : ℕ) → AtMost m (reset_lanes n)
    reset-AtMost zero m = tt
    reset-AtMost (suc n) m = (omega arith, reset-AtMost n m)

    Accepted-IsSpaced : (n : ℕ) (g : Group) → Accepted n g → IsSpaced g
    Accepted-IsSpaced n g begin = (reset-AtMost n (p.init_credit / 2), λ v. cc)
    Accepted-IsSpaced n g (cycle {g = before} taken reached) =
        group_next-IsSpaced before taken (Accepted-IsSpaced n before reached)

    -- A group of any number of FIFOs whose output has always been accepted loses no credit in its
    -- next cycle: what it owes after it and what it hands over are what it owed before and the
    -- cycle's reads, where `INIT_CREDIT` fits the counters, its half is more than one and the timer
    -- has a bit.
    pub Accepted-lossless :
        (n : ℕ) (g : Group)
        → Accepted n g
        → (taken : List Bool)
        → owed (group_next p g taken true) + handed_over g true ≡ owed g + reads g.lanes taken
    Accepted-lossless n g reached taken =
        let (bounded, spaced) = Accepted-IsSpaced n g reached in
        let account =
          group-accounts p g taken true
            (AtMost-HasRoom g.lanes (p.init_credit / 2) bounded (omega arith)) in
        let nothing : lost p g true ≡ 0 = elim (Bool-cases g.credit_valid_o_r) [
          | inl v ↦ (let q = IsSpaced-not_sent g (bounded, spaced) v in rw q refl)
          | inr v ↦ ground (arith, v)
        ] in
        omega arith
