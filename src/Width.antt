-- ===== src/Width.antt =====
-- ir_helper.py: the widths and bandwidths that the AXIS NoC supports.
-- Bandwidths are floats in the source, always whole multiples of 0.25 MB/s there; here they are
-- natural numbers of such quarters, so FREQUENCY = 250.0 is 1000 of them.
pub mod Bounds
pub mod Tests
use rapidstream_noc.Common.{
  ℕ, ◌+◌, ◌*◌, ◌/◌, Bool, ◌||◌, List, [], ◌∷◌, ltb, ◌==◌, if◌then◌else◌, Result, ok, ◌>>=◌,
}
use rapidstream_noc.Common.Text.{Text, str_of, int_of}

abbrev pub frequency : ℕ
frequency = 1000

-- VALID_TDATA_NUM_BYTES, which is sorted already.
abbrev pub valid_tdata_num_bytes : List ℕ
valid_tdata_num_bytes = 16 ∷ 32 ∷ 64 ∷ []

abbrev pub is_valid : List ℕ → ℕ → Bool
is_valid [] n = Bool.false
is_valid (b ∷ bs) n = n == b || is_valid bs n

-- The loop `for b in sorted(VALID_TDATA_NUM_BYTES)`.
pub first_above : List ℕ → ℕ → Bool → Text
first_above [] width_b byte = str_of width_b
first_above (b ∷ bs) width_b byte =
    if ltb width_b b
    then (if byte then str_of b else str_of (b * 8))
    else first_above bs width_b byte

unfoldable pub round_up_to_noc_tdata : Text → Bool → Result Text
unfolding first_above
round_up_to_noc_tdata width byte = do
  w ← int_of width
  let width_b = (w + 7) / 8
  ok (
      if is_valid valid_tdata_num_bytes width_b
      then (if byte then str_of width_b else width)
      else first_above valid_tdata_num_bytes width_b byte)

unfoldable pub round_up_to_noc_bw : ℕ → Result ℕ
round_up_to_noc_bw raw_bw = do
  rounded ← round_up_to_noc_tdata (str_of (raw_bw / frequency * 8)) Bool.true
  b ← int_of rounded
  ok (b * frequency)
