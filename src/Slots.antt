-- ===== src/Slots.antt =====
-- ir_helper.py and noc_pass.py: slot names, slot ranges and the distance between slots.
pub mod RoundTrip
pub mod Rectangle
pub mod Distance
pub mod Tests
use rapidstream_noc.Common.{
  ℕ, ◌+◌, ◌-◌, suc, List, [], ◌∷◌, ◌++◌, map, leb, if◌then◌else◌, range_from, Result, ok,
  assertion_error, guard, ◌>>=◌, ◌>>◌, get_item,
}
use rapidstream_noc.Common.Text.{Text, codes, text_eq, int_of, split}

unfoldable pub extract_slot_coord : Text → Result (ℕ × ℕ)
extract_slot_coord slot_name = do
  after_x ← get_item (split slot_name (codes "X")) 1
  x_text ← get_item (split after_x (codes "Y")) 0
  x ← int_of x_text
  y_text ← get_item (split slot_name (codes "Y")) 1
  y ← int_of y_text
  ok (x, y)

unfoldable pub split_slot_region : Text → Result Text
split_slot_region region = do
  first ← get_item (split region (codes "_TO_")) 0
  second ← get_item (split region (codes "_TO_")) 1
  guard (text_eq first second) assertion_error
  ok first

-- The two nested loops over the coordinates.
unfoldable pub coordinates : List ℕ → List ℕ → List (ℕ × ℕ)
coordinates [] ys = []
coordinates (x ∷ xs) ys = map (λ y. (x, y)) ys ++ coordinates xs ys

unfoldable pub extract_slot_range : Text → Result (List (ℕ × ℕ))
unfolding coordinates
extract_slot_range slot_range = do
  lower_left ← get_item (split slot_range (codes "_TO_")) 0
  (llx, lly) ← extract_slot_coord lower_left
  upper_right ← get_item (split slot_range (codes "_TO_")) 1
  (urx, ury) ← extract_slot_coord upper_right
  guard (leb llx urx) assertion_error
  guard (leb lly ury) assertion_error
  ok (coordinates (range_from llx (suc urx - llx)) (range_from lly (suc ury - lly)))

-- `abs(a - b)`.
abbrev pub abs_diff : ℕ → ℕ → ℕ
abs_diff a b = if leb b a then a - b else b - a

-- The value that `get_stream_manhattan_dist` gives for one stream.
unfoldable pub manhattan_dist : Text → Text → Result ℕ
manhattan_dist src dest = do
  src_slot ← get_item (split src (codes "_TO_")) 0
  (src_x, src_y) ← extract_slot_coord src_slot
  dest_slot ← get_item (split dest (codes "_TO_")) 0
  (dest_x, dest_y) ← extract_slot_coord dest_slot
  ok (abs_diff dest_x src_x + abs_diff dest_y src_y)
