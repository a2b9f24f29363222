-- ===== src/Width/Bounds.antt =====
-- Rounding up to the sizes that the NoC supports.
use rapidstream_noc.Common.{
  ℕ, ◌+◌, ◌*◌, ◌/◌, ◌≤◌, ◌<◌, ◌≡◌, ◌⊎◌, inl, inr, Bool, true, false, arith, ok, ltb, if◌then◌else◌,
}
use rapidstream_noc.Common.Text.{str_of}
use rapidstream_noc.Common.Text.Decimal.{int_of-str_of}
use rapidstream_noc.Width.{round_up_to_noc_tdata, round_up_to_noc_bw}

-- A size in bytes that the AXIS NoC supports.
abbrev pub IsSupported : ℕ → Type 0
IsSupported b = (b ≡ 16) ⊎ (b ≡ 32) ⊎ (b ≡ 64)

-- The smallest supported size that holds `w` bits, for `w ≤ 512`.
abbrev pub tdata_bytes : ℕ → ℕ
tdata_bytes w = if ltb 256 w then 64 else if ltb 128 w then 32 else 16

tdata-bytes :
    (w : ℕ) → w ≤ 512 → round_up_to_noc_tdata (str_of w) true ≡ ok (str_of (tdata_bytes w))
unfolding round_up_to_noc_tdata
tdata-bytes w h = rw (int_of-str_of w) (ground arith)

-- For a width of at most 512 bits `round_up_to_noc_tdata` in bytes returns a supported size that
-- holds the width, and every supported size that holds the width is at least as large.
pub round_up_to_noc_tdata-least :
    (w : ℕ)
    → w ≤ 512
    → (b : ℕ) × (round_up_to_noc_tdata (str_of w) true ≡ ok (str_of b))
      × IsSupported b
      × (w ≤ b * 8)
      × ((b' : ℕ) → IsSupported b' → w ≤ b' * 8 → b ≤ b')
round_up_to_noc_tdata-least w h =
    (tdata_bytes w, tdata-bytes w h, ground arith, ground arith, λ b' valid fits. ground arith)

-- For a width of at most 512 bits `round_up_to_noc_tdata` in bits returns a width that is at least
-- as large and whose size in bytes is supported.
pub round_up_to_noc_tdata_bits :
    (w : ℕ)
    → w ≤ 512
    → (v : ℕ) × (round_up_to_noc_tdata (str_of w) false ≡ ok (str_of v))
      × (w ≤ v)
      × IsSupported ((v + 7) / 8)
unfolding round_up_to_noc_tdata
round_up_to_noc_tdata_bits w h = elim (tdata_size w) [
  | inl exact ↦ (w, rw (int_of-str_of w) (ground arith), omega arith, ground arith)
  | inr other ↦ (tdata_bytes w * 8, rw (int_of-str_of w) (ground arith), ground arith, ground arith)
]
  where
    tdata_size : (w : ℕ) → IsSupported ((w + 7) / 8) ⊎ ¬ IsSupported ((w + 7) / 8)
    tdata_size w = ground arith

-- For a width above 512 bits both modes return the number of bytes, so the call in bits returns
-- a number below the width that it was given.
pub round_up_to_noc_tdata_large :
    (w : ℕ) (byte : Bool)
    → 512 < w
    → (v : ℕ) × (round_up_to_noc_tdata (str_of w) byte ≡ ok (str_of v)) × (w ≤ v * 8) × (v < w)
unfolding round_up_to_noc_tdata
round_up_to_noc_tdata_large w byte h =
    ((w + 7) / 8, rw (int_of-str_of w) (ground arith), omega arith, omega arith)

-- A stream of `w` bits at the NoC's frequency, `w` at most 519, is charged the bandwidth of the
-- smallest supported size that holds the whole bytes of its width.
pub round_up_to_noc_bw_lem :
    (w : ℕ) → w ≤ 519 → round_up_to_noc_bw (w * 125) ≡ ok (tdata_bytes (w / 8 * 8) * 1000)
unfolding round_up_to_noc_bw
round_up_to_noc_bw_lem w h =
    rw (size, tdata-bytes (w / 8 * 8) (omega arith), int_of-str_of (tdata_bytes (w / 8 * 8)))
  where
    size : w * 125 / 1000 * 8 ≡ w / 8 * 8
    size = omega arith

-- A width just above a supported size, by less than a byte, is charged less bandwidth than it has.
pub round_up_to_noc_bw-lt :
    (b r : ℕ)
    → IsSupported b
    → 0 < r
    → r < 8
    → (bw : ℕ) × (round_up_to_noc_bw ((b * 8 + r) * 125) ≡ ok bw) × (bw < (b * 8 + r) * 125)
round_up_to_noc_bw-lt b r s p q = (
  tdata_bytes ((b * 8 + r) / 8 * 8) * 1000,
  round_up_to_noc_bw_lem (b * 8 + r) (ground arith),
  ground arith,
)

-- The size for whole bytes is no less than they are.
pub whole_bytes-le : (bytes : ℕ) → bytes ≤ 64 → bytes ≤ tdata_bytes (bytes * 8)
whole_bytes-le bytes h = ground arith
