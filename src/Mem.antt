-- ===== src/Mem.antt =====
-- bin_to_hbm_mem.py: bin_to_hbm_mem. `open_binary` answers the bytes of a file, and the result is the
-- text of the output file; the loop over the reads of 32 bytes runs on fuel, one for each byte.
pub mod Reader
pub mod RoundTrip
pub mod Tests
use rapidstream_noc.Common.{
  ℕ, zero, suc, ◌+◌, ◌-◌, ◌/◌, ◌%◌, List, [], ◌∷◌, ◌++◌, map, ltb, if◌then◌else◌, length, take,
  Result, ok, ◌>>=◌, Dict,
}
use rapidstream_noc.Common.Text.{Text, codes}
use rapidstream_noc.Common.Text.Edit.{drop}
use rapidstream_noc.Tcl.{join}

abbrev pub hex_digit : ℕ → ℕ
hex_digit d = if ltb d 10 then b'0' + d else b'A' + (d - 10)

-- `format(x, "02X")`, for a byte.
unfoldable pub hex2 : ℕ → Text
hex2 x = hex_digit (x / 16) ∷ hex_digit (x % 16) ∷ []

-- The chunks of 32 bytes that the reads of a file give.
unfoldable pub chunks : ℕ → List ℕ → List (List ℕ)
chunks zero bytes = []
chunks (suc f) [] = []
chunks (suc f) (b ∷ bytes) = take 32 (b ∷ bytes) ∷ chunks f (drop 32 (b ∷ bytes))

abbrev pub hex_line : List ℕ → Text
hex_line chunk = join (codes " ") (map hex2 chunk) ++ codes "\n"

abbrev pub hex_lines : List (List ℕ) → Text
hex_lines [] = []
hex_lines (chunk ∷ rest) = hex_line chunk ++ hex_lines rest

-- What is written for one file.
unfoldable pub mem_block : Text → List ℕ → Text
unfolding chunks hex2
mem_block address bytes =
    codes "@"
    ++ (address ++ (codes "\n" ++ (hex_lines (chunks (length bytes) bytes) ++ codes "\n")))

unfoldable pub bin_to_hbm_mem : (Text → Result (List ℕ)) → Text → Dict Text → Result Text
unfolding mem_block
bin_to_hbm_mem open_binary bin_dir [] = ok []
bin_to_hbm_mem open_binary bin_dir ((binary_file, address) ∷ bin_dict) = do
  bytes ← open_binary (bin_dir ++ binary_file)
  rest ← bin_to_hbm_mem open_binary bin_dir bin_dict
  ok (mem_block address bytes ++ rest)
