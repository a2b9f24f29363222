-- ===== src/Mem/Tests.antt =====
-- Two files, the first of 33 bytes.
use rapidstream_noc.Common.{
  ℕ, ◌<◌, ◌≡◌, ◌≢◌, refl, List, [], ◌∷◌, ◌++◌, map, if◌then◌else◌, length, range, All, Returns,
  Result, ok, arith, Dict,
}
use rapidstream_noc.Common.Text.{Text, codes, text_eq}
use rapidstream_noc.Mem.{chunks, mem_block, bin_to_hbm_mem}
use rapidstream_noc.Mem.Reader.{outside, read_mem}
use rapidstream_noc.Mem.RoundTrip.{read_mem-bin_to_hbm_mem}

abbrev data_of : Text → List ℕ
data_of f = if text_eq f (codes "0.bin") then range 33 else 171 ∷ []

abbrev open_binary : Text → Result (List ℕ)
open_binary f = ok (if text_eq f (codes "d/0.bin") then range 33 else 171 ∷ [])

abbrev bin_dict : Dict Text
bin_dict = (codes "0.bin", codes "4000000000") ∷ (codes "1.bin", codes "4040000000") ∷ []

chunk_sizes : map length (chunks 33 (range 33)) ≡ 32 ∷ 1 ∷ []
unfolding chunks
chunk_sizes = refl

block_run : mem_block (codes "40") (0 ∷ 171 ∷ []) ≡ codes "@40\n00 AB\n\n"
unfolding mem_block
block_run = refl

opened : All (λ (f, address). open_binary (codes "d/" ++ f) ≡ ok (data_of f)) bin_dict
unfolding text_eq
opened = (refl, (refl, tt))

contents :
    All
      (λ (f, address). All (λ x. x < 256) (data_of f) × All (λ c. (c ≢ 10) × (c ≢ b'@')) address)
      bin_dict
unfolding text_eq
contents = ((omega arith, omega arith), ((omega arith, omega arith), tt))

read_mem-bin_to_hbm_mem_example :
    Returns
      (λ t. read_mem outside t ≡ map (λ (f, address). (address, data_of f)) bin_dict)
      (bin_to_hbm_mem open_binary (codes "d/") bin_dict)
read_mem-bin_to_hbm_mem_example =
    read_mem-bin_to_hbm_mem data_of open_binary (codes "d/") bin_dict opened contents
