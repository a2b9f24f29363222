-- ===== src/Width/Tests.antt =====
-- Runs of the width functions, and the theorems at concrete inputs.
use rapidstream_noc.Common.{ℕ, ◌+◌, ◌*◌, ◌/◌, ◌≤◌, ◌<◌, ◌≡◌, refl, inl, true, false, arith, ok}
use rapidstream_noc.Common.Text.{codes, str_of, int_of}
use rapidstream_noc.Width.{round_up_to_noc_tdata, round_up_to_noc_bw}
use rapidstream_noc.Width.Bounds.{
  IsSupported, tdata_bytes, round_up_to_noc_tdata-least, round_up_to_noc_tdata_bits,
  round_up_to_noc_tdata_large, round_up_to_noc_bw_lem, round_up_to_noc_bw-lt,
}

tdata_200 : round_up_to_noc_tdata (codes "200") false ≡ ok (codes "256")
unfolding round_up_to_noc_tdata int_of str_of
tdata_200 = refl

-- 65 bytes, in both modes.
tdata_520 : round_up_to_noc_tdata (codes "520") false ≡ ok (codes "65")
unfolding round_up_to_noc_tdata int_of str_of
tdata_520 = refl

bw_512 : round_up_to_noc_bw (512 * 125) ≡ ok 64000
unfolding round_up_to_noc_bw round_up_to_noc_tdata int_of str_of
bw_512 = refl

round_up_to_noc_tdata-least_run :
    (b : ℕ) × (round_up_to_noc_tdata (str_of 200) true ≡ ok (str_of b))
    × IsSupported b
    × (200 ≤ b * 8)
    × ((b' : ℕ) → IsSupported b' → 200 ≤ b' * 8 → b ≤ b')
round_up_to_noc_tdata-least_run = round_up_to_noc_tdata-least 200 (omega arith)

round_up_to_noc_tdata_bits_run :
    (v : ℕ) × (round_up_to_noc_tdata (str_of 200) false ≡ ok (str_of v))
    × (200 ≤ v)
    × IsSupported ((v + 7) / 8)
round_up_to_noc_tdata_bits_run = round_up_to_noc_tdata_bits 200 (omega arith)

round_up_to_noc_tdata_large_example :
    (v : ℕ) × (round_up_to_noc_tdata (str_of 520) false ≡ ok (str_of v)) × (520 ≤ v * 8) × (v < 520)
round_up_to_noc_tdata_large_example = round_up_to_noc_tdata_large 520 false (omega arith)

round_up_to_noc_bw_lem_run : round_up_to_noc_bw (200 * 125) ≡ ok (tdata_bytes (200 / 8 * 8) * 1000)
round_up_to_noc_bw_lem_run = round_up_to_noc_bw_lem 200 (omega arith)

round_up_to_noc_bw-lt_example :
    (bw : ℕ) × (round_up_to_noc_bw ((16 * 8 + 1) * 125) ≡ ok bw) × (bw < (16 * 8 + 1) * 125)
round_up_to_noc_bw-lt_example = round_up_to_noc_bw-lt 16 1 (inl refl) (omega arith) (omega arith)
