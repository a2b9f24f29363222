-- ===== src/Hbm.antt =====
-- hbm_bank_to_addr.py: the start addresses of the HBM ports.
-- An address is a number; its text `44'h` with hexadecimal digits is not modelled.
pub mod Apart
pub mod Tests
use rapidstream_noc.Common.{ℕ, ◌+◌, ◌*◌, List, [], ◌∷◌, map, range, Result, ok, ◌>>=◌, get_item}
use rapidstream_noc.Common.Text.{Text}
use rapidstream_noc.Select.{update_at}

-- 0x4000000000, 0x40000000 and 0x20000000.
abbrev pub start_addr : ℕ
start_addr = 274877906944

abbrev pub bank_incr : ℕ
bank_incr = 1073741824

abbrev pub sharing_incr : ℕ
sharing_incr = 536870912

abbrev pub addr_p : ℕ → ℕ → ℕ
addr_p b cnt = start_addr + b * bank_incr + cnt * sharing_incr

-- The loop over the ports, where `bank_cnt` counts the ports of each bank so far.
unfoldable pub assign : List (Text × ℕ) → List ℕ → Result (List (Text × ℕ))
assign [] bank_cnt = ok []
assign ((p, b) ∷ ports) bank_cnt = get_item bank_cnt b >>= λ cnt.
    update_at bank_cnt b (λ n. ok (n + 1)) >>= λ counted.
    assign ports counted >>= λ rest. ok ((p, addr_p b cnt) ∷ rest)

unfoldable pub hbm_bank_to_addr : List (Text × ℕ) → Result (List (Text × ℕ))
hbm_bank_to_addr bank = assign bank (map (λ i. 0) (range 32))
