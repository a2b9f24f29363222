-- ===== src/Hbm/Tests.antt =====
-- Three ports on two banks.
use rapidstream_noc.Common.{ℕ, ◌≤◌, ◌≡◌, refl, List, [], ◌∷◌, arith, ok, err, index_error, Returns}
use rapidstream_noc.Common.Text.{Text, codes}
use rapidstream_noc.Select.{update_at}
use rapidstream_noc.Hbm.{assign, hbm_bank_to_addr}
use rapidstream_noc.Hbm.Apart.{IsApart, num_on_bank, hbm_bank_to_addr-IsApart}

abbrev ports : List (Text × ℕ)
ports = (codes "p", 0) ∷ (codes "q", 1) ∷ (codes "r", 0) ∷ []

-- 0x4000000000, 0x4040000000 and 0x4020000000.
addresses :
    hbm_bank_to_addr ports
    ≡ ok ((codes "p", 274877906944) ∷ (codes "q", 275951648768) ∷ (codes "r", 275414777856) ∷ [])
unfolding hbm_bank_to_addr assign update_at
addresses = refl

-- The third port of a bank has the address of the next bank's first.
third_port :
    hbm_bank_to_addr ((codes "p", 0) ∷ (codes "q", 0) ∷ (codes "r", 0) ∷ (codes "s", 1) ∷ [])
    ≡ ok (
        (codes "p", 274877906944)
        ∷ (codes "q", 275414777856)
        ∷ (codes "r", 275951648768)
        ∷ (codes "s", 275951648768)
        ∷ [])
unfolding hbm_bank_to_addr assign update_at
third_port = refl

no_such_bank : hbm_bank_to_addr ((codes "p", 32) ∷ []) ≡ err index_error
unfolding hbm_bank_to_addr assign
no_such_bank = refl

shared : (b : ℕ) → num_on_bank ports b ≤ 2
shared b = ground arith

hbm_bank_to_addr-IsApart_example : Returns IsApart (hbm_bank_to_addr ports)
hbm_bank_to_addr-IsApart_example =
    hbm_bank_to_addr-IsApart ports (omega arith, (omega arith, (omega arith, tt))) shared
