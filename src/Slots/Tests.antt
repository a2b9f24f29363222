-- ===== src/Slots/Tests.antt =====
-- Runs on slot names, those of the doctests among them, and the theorems at concrete inputs.
use mathlib.Core.List.{Memᴰ}
use rapidstream_noc.Common.{
  ℕ, ◌+◌, ◌≤◌, ◌≡◌, refl, ◌↔◌, inl, List, [], ◌∷◌, arith, ok, err, index_error, assertion_error,
}
use rapidstream_noc.Common.Text.{codes, int_of, split}
use rapidstream_noc.Slots.{
  extract_slot_coord, extract_slot_range, manhattan_dist, split_slot_region,
}
use rapidstream_noc.Slots.Distance.{manhattan_dist_metric}
use rapidstream_noc.Slots.RoundTrip.{
  slot_name, slot_range_name, extract_slot_coord-slot_name, split_slot_region-slot_range_name,
}
use rapidstream_noc.Slots.Rectangle.{extract_slot_range_rectangle, extract_slot_range_refused}

coord_01 : extract_slot_coord (codes "SLOT_X0Y1") ≡ ok (0, 1)
unfolding extract_slot_coord split int_of
coord_01 = refl

range_one : extract_slot_range (codes "SLOT_X0Y1_TO_SLOT_X0Y1") ≡ ok ((0, 1) ∷ [])
unfolding extract_slot_range extract_slot_coord split int_of
range_one = refl

range_three :
    extract_slot_range (codes "SLOT_X0Y1_TO_SLOT_X0Y3") ≡ ok ((0, 1) ∷ (0, 2) ∷ (0, 3) ∷ [])
unfolding extract_slot_range extract_slot_coord split int_of
range_three = refl

range_of_a_slot : extract_slot_range (codes "SLOT_X0Y1") ≡ err index_error
unfolding extract_slot_range extract_slot_coord split int_of
range_of_a_slot = refl

dist_s2 : manhattan_dist (codes "SLOT_X4Y8") (codes "SLOT_X2Y4") ≡ ok 6
unfolding manhattan_dist extract_slot_coord split int_of
dist_s2 = refl

extract_slot_range_rectangle_example :
    (rest : List (ℕ × ℕ)) × (extract_slot_range (slot_range_name 0 1 1 3) ≡ ok ((0, 1) ∷ rest))
    × ((p : ℕ × ℕ) → Memᴰ p ((0, 1) ∷ rest) ↔ ((0 ≤ p.0) × (p.0 ≤ 1) × (1 ≤ p.1) × (p.1 ≤ 3)))
extract_slot_range_rectangle_example =
    extract_slot_range_rectangle 0 1 1 3 (omega arith) (omega arith)

extract_slot_range_refused_run : extract_slot_range (slot_range_name 2 0 1 3) ≡ err assertion_error
extract_slot_range_refused_run = extract_slot_range_refused 2 0 1 3 (inl (omega arith))

extract_slot_coord-slot_name_example : extract_slot_coord (slot_name 12 7) ≡ ok (12, 7)
extract_slot_coord-slot_name_example = extract_slot_coord-slot_name 12 7

split_slot_region-slot_range_name_run :
    split_slot_region (slot_range_name 1 2 1 2) ≡ ok (slot_name 1 2)
split_slot_region-slot_range_name_run = split_slot_region-slot_range_name 1 2 1 2

manhattan_dist_metric_run :
    (ab ba bc ac : ℕ) × (manhattan_dist (slot_range_name 4 8 4 8) (slot_range_name 2 4 2 4) ≡ ok ab)
    × (manhattan_dist (slot_range_name 2 4 2 4) (slot_range_name 4 8 4 8) ≡ ok ba)
    × (manhattan_dist (slot_range_name 2 4 2 4) (slot_range_name 0 0 0 0) ≡ ok bc)
    × (manhattan_dist (slot_range_name 4 8 4 8) (slot_range_name 0 0 0 0) ≡ ok ac)
    × (ab ≡ ba)
    × ((ab ≡ 0) ↔ (◌≡◌ {A = ℕ × ℕ} (4, 8) (2, 4)))
    × (ac ≤ ab + bc)
manhattan_dist_metric_run = manhattan_dist_metric (4, 8) (2, 4) (0, 0)
