-- ===== src/Hbm/Apart.antt =====
-- Where the address ranges of the HBM ports lie.
use mathlib.Core.Path.{subst}
use rapidstream_noc.Common.{
  ℕ, zero, suc, ◌+◌, ◌≤◌, ◌<◌, ◌≡◌, ◌⊎◌, refl, sym, ◌∙◌, inl, List, [], ◌∷◌, map, range, ◌==◌,
  arith, All, All-map, get_item-All, Returns, Result, ok, ok_inj, >>=-eq-ok, get_item,
  if◌then◌else◌,
}
use native.Mathlib.Decide.{ℕ_discrete}
use rapidstream_noc.Common.Text.{Text}
use rapidstream_noc.Graph.Names.{get_item-map-range}
use rapidstream_noc.Select.{update_at}
use rapidstream_noc.Select.Count.{increment-column}
use rapidstream_noc.Hbm.{sharing_incr, addr_p, assign, hbm_bank_to_addr}

-- How many of the ports share a bank.
abbrev pub num_on_bank : List (Text × ℕ) → ℕ → ℕ
num_on_bank [] b = 0
num_on_bank ((p, c) ∷ ports) b = (if c == b then 1 else 0) + num_on_bank ports b

-- An address is that of a bank, after as many ports as the bank has before and not after all.
record Placed (bank_cnt : List ℕ) (ports : List (Text × ℕ)) (a : ℕ) : Type 0 where
  bank : ℕ
  before : ℕ
  place : ℕ
  counted : get_item bank_cnt bank ≡ ok before
  after_before : before ≤ place
  room : place < before + num_on_bank ports bank
  is_addr : a ≡ addr_p bank place

update_at-back :
    (xs : List ℕ) (i j : ℕ) (f : ℕ → Result ℕ) (ys : List ℕ) (n : ℕ)
    → update_at xs i f ≡ ok ys
    → get_item ys j ≡ ok n
    → (m : ℕ) × (get_item xs j ≡ ok m)
unfolding update_at
update_at-back [] i j f ys n e h = cc
update_at-back (x ∷ xs) zero zero f ys n e h = (x, refl)
update_at-back (x ∷ xs) (suc i) zero f ys n e h = (x, refl)
update_at-back (x ∷ xs) zero (suc j) f ys n e h =
    let (b, made, eq) = >>=-eq-ok (f x) _ e in
    (n, subst (λ l. get_item l (suc j) ≡ ok n) (sym (ok_inj eq)) h)
update_at-back (x ∷ xs) (suc i) (suc j) f ys n e h =
    let (bs, made, eq) = >>=-eq-ok (update_at xs i f) _ e in
    update_at-back xs i j f bs n made (subst (λ l. get_item l (suc j) ≡ ok n) (sym (ok_inj eq)) h)

-- The count of a bank before a port is counted.
count-back :
    (bank_cnt counted : List ℕ) (b c n : ℕ)
    → update_at bank_cnt b (λ k. ok (k + 1)) ≡ ok counted
    → get_item counted c ≡ ok n
    → (m : ℕ) × (get_item bank_cnt c ≡ ok m) × (n ≡ m + (if b == c then 1 else 0))
count-back bank_cnt counted b c n e h =
    let (m, found) = update_at-back bank_cnt b c _ counted n e h in
    (m, found, ok_inj (sym h ∙ increment-column bank_cnt counted b c m e found))

assign-Placed :
    (ports : List (Text × ℕ)) (bank_cnt : List ℕ) (addr : List (Text × ℕ))
    → assign ports bank_cnt ≡ ok addr
    → All (λ (q, a). Placed bank_cnt ports a) addr
unfolding assign
assign-Placed [] bank_cnt addr e = subst (All (λ (q, a). Placed bank_cnt [] a)) (ok_inj e) tt
assign-Placed ((q, b) ∷ ports) bank_cnt addr e =
    let (cnt, found, e1) = >>=-eq-ok (get_item bank_cnt b) _ e in
    let (counted, more, e2) = >>=-eq-ok (update_at bank_cnt b (λ n. ok (n + 1))) _ e1 in
    let (rest, later, e3) = >>=-eq-ok (assign ports counted) _ e2 in
    let head_placed : Placed bank_cnt ((q, b) ∷ ports) (addr_p b cnt) = record {
      bank = b;
      before = cnt;
      place = cnt;
      counted = found;
      after_before = omega arith;
      room = ground arith;
      is_addr = refl;
    } in
    subst (All (λ (q', a). Placed bank_cnt ((q, b) ∷ ports) a)) (ok_inj e3) (
      head_placed,
      All-map (λ (q', a) h. step_back bank_cnt counted q b ports a more h) rest
          (assign-Placed ports counted rest later),
    )
  where
    step_back :
        (bank_cnt counted : List ℕ) (q : Text) (b : ℕ) (ports : List (Text × ℕ)) (a : ℕ)
        → update_at bank_cnt b (λ n. ok (n + 1)) ≡ ok counted
        → Placed counted ports a
        → Placed bank_cnt ((q, b) ∷ ports) a
    step_back bank_cnt counted q b ports a more h =
        let (m, found, grown) = count-back bank_cnt counted b h.bank h.before more h.counted in
        record {
          bank = h.bank;
          before = m;
          place = h.place;
          counted = found;
          after_before = omega (arith, grown, h.after_before);
          room = omega (arith, grown, h.room);
          is_addr = h.is_addr;
        }

-- The addresses are pairwise at least half a bank apart.
abbrev pub IsApart : List (Text × ℕ) → Type 0
IsApart [] = Unit
IsApart ((p, a) ∷ addr) =
    All (λ (q, c). (a + sharing_incr ≤ c) ⊎ (c + sharing_incr ≤ a)) addr × IsApart addr

-- No bank has more than two ports, those counted before included.
abbrev IsShared : List ℕ → List (Text × ℕ) → Type 0
IsShared bank_cnt ports = (b n : ℕ) → get_item bank_cnt b ≡ ok n → n + num_on_bank ports b ≤ 2

head-apart :
    (bank_cnt counted : List ℕ) (q : Text) (b cnt : ℕ) (ports : List (Text × ℕ)) (c : ℕ)
    → IsShared bank_cnt ((q, b) ∷ ports)
    → get_item bank_cnt b ≡ ok cnt
    → update_at bank_cnt b (λ n. ok (n + 1)) ≡ ok counted
    → Placed counted ports c
    → (addr_p b cnt + sharing_incr ≤ c) ⊎ (c + sharing_incr ≤ addr_p b cnt)
head-apart bank_cnt counted q b cnt ports c shared found more h =
    let (m, at_bank, grown) = count-back bank_cnt counted b h.bank h.before more h.counted in
    let here_ = shared b cnt found in
    let there = shared h.bank m at_bank in
    elim (ℕ_discrete b h.bank) [
      | yes same ↦
          let same_count : m ≡ cnt =
            ok_inj (sym at_bank ∙ subst (λ k. get_item bank_cnt k ≡ ok cnt) same found) in
          inl (ground (arith, h.is_addr, h.after_before, grown, same, same_count))
      | no other ↦ ground (arith, h.is_addr, h.room, grown, here_, there, other)
    ]

assign-IsApart :
    (ports : List (Text × ℕ)) (bank_cnt : List ℕ) (addr : List (Text × ℕ))
    → assign ports bank_cnt ≡ ok addr
    → IsShared bank_cnt ports
    → IsApart addr
unfolding assign
assign-IsApart [] bank_cnt addr e shared = subst IsApart (ok_inj e) tt
assign-IsApart ((q, b) ∷ ports) bank_cnt addr e shared =
    let (cnt, found, e1) = >>=-eq-ok (get_item bank_cnt b) _ e in
    let (counted, more, e2) = >>=-eq-ok (update_at bank_cnt b (λ n. ok (n + 1))) _ e1 in
    let (rest, later, e3) = >>=-eq-ok (assign ports counted) _ e2 in
    subst IsApart (ok_inj e3) (
      All-map (λ (q', c) h. head-apart bank_cnt counted q b cnt ports c shared found more h) rest
          (assign-Placed ports counted rest later),
      assign-IsApart ports counted rest later (λ c n at_c.
          let (m, before, grown) = count-back bank_cnt counted b c n more at_c in
          omega (arith, shared c m before, grown)),
    )

increments :
    (xs : List ℕ) (i n : ℕ)
    → get_item xs i ≡ ok n
    → (ys : List ℕ) × (update_at xs i (λ k. ok (k + 1)) ≡ ok ys)
unfolding update_at
increments [] i n e = cc
increments (x ∷ xs) zero n e = ((x + 1) ∷ xs, refl)
increments (x ∷ xs) (suc i) n e = let (ys, made) = increments xs i n e in (x ∷ ys, rw made refl)

assign-Returns :
    (ports : List (Text × ℕ)) (bank_cnt : List ℕ)
    → All (λ (q, b). b < 32) ports
    → ((b : ℕ) → b < 32 → (n : ℕ) × (get_item bank_cnt b ≡ ok n))
    → (addr : List (Text × ℕ)) × (assign ports bank_cnt ≡ ok addr)
unfolding assign
assign-Returns [] bank_cnt _ has = ([], refl)
assign-Returns ((q, b) ∷ ports) bank_cnt (small, smalls) has =
    let (cnt, found) = has b small in
    let (counted, more) = increments bank_cnt b cnt found in
    let (rest, later) = assign-Returns ports counted smalls (λ c in_range.
      let (n, at_c) = has c in_range in
      (n + (if b == c then 1 else 0), increment-column bank_cnt counted b c n more at_c)) in
    ((q, addr_p b cnt) ∷ rest, rw (found, more, later) refl)

-- For ports on the banks below 32, with at most two ports on a bank, `hbm_bank_to_addr` returns
-- addresses that are pairwise at least half a bank apart.
pub hbm_bank_to_addr-IsApart :
    (bank : List (Text × ℕ))
    → All (λ (p, b). b < 32) bank
    → ((b : ℕ) → num_on_bank bank b ≤ 2)
    → Returns IsApart (hbm_bank_to_addr bank)
unfolding hbm_bank_to_addr
hbm_bank_to_addr-IsApart bank in_range shared =
    let none_yet = λ (b : ℕ) (h : b < 32). get_item-map-range {A = ℕ} (λ i. 0) 32 b h in
    let (addr, made) =
      assign-Returns bank (map (λ i. 0) (range 32)) in_range (λ b h. (0, none_yet b h)) in
    (
      addr,
      made,
      assign-IsApart bank (map (λ i. 0) (range 32)) addr made (λ b n at_b. omega (
        arith,
        get_item-All (λ (k : ℕ). k ≡ 0) (map (λ i. 0) (range 32)) b n (all_zero (range 32)) at_b,
        shared b,
      )),
    )
  where
    all_zero : (xs : List ℕ) → All {A = ℕ} (λ k. k ≡ 0) (map (λ i. 0) xs)
    all_zero [] = tt
    all_zero (x ∷ xs) = (refl, all_zero xs)
