-- ===== src/Slots/Distance.antt =====
-- The Manhattan distance between the slots of a stream.
use rapidstream_noc.Common.{ℕ, ◌+◌, ◌≤◌, ◌≡◌, ◌↔◌, arith, ok}
use rapidstream_noc.Slots.{abs_diff, manhattan_dist}
use rapidstream_noc.Slots.RoundTrip.{
  slot_range_name, split-slot_range_name, extract_slot_coord-slot_name,
}

abbrev pub distance : ℕ × ℕ → ℕ × ℕ → ℕ
distance p q = abs_diff q.0 p.0 + abs_diff q.1 p.1

-- The distance between one-slot ranges is the distance of their slots.
pub manhattan_dist-slot_range_name :
    (x y x' y' u v u' v' : ℕ)
    → manhattan_dist (slot_range_name x y x' y') (slot_range_name u v u' v')
      ≡ ok (distance (x, y) (u, v))
unfolding manhattan_dist
manhattan_dist-slot_range_name x y x' y' u v u' v' = rw (
  split-slot_range_name x y x' y',
  extract_slot_coord-slot_name x y,
  split-slot_range_name u v u' v',
  extract_slot_coord-slot_name u v,
)

abs_diff-triangle : (a b c : ℕ) → abs_diff c a ≤ abs_diff b a + abs_diff c b
abs_diff-triangle a b c = ground arith

distance-triangle : (p q r : ℕ × ℕ) → distance p r ≤ distance p q + distance q r
distance-triangle (a, b) (c, d) (e, f) =
    omega (arith, abs_diff-triangle a c e, abs_diff-triangle b d f)

distance_zero : (p q : ℕ × ℕ) → (distance p q ≡ 0) ↔ (p ≡ q)
distance_zero (a, b) (c, d) = ground arith

distance_comm : (p q : ℕ × ℕ) → distance p q ≡ distance q p
distance_comm (a, b) (c, d) = ground arith

-- On the first slots of two ranges `get_stream_manhattan_dist` is a metric: the same in both
-- directions, zero exactly for one slot, and subject to the triangle inequality.
pub manhattan_dist_metric :
    (a b c : ℕ × ℕ)
    → let name = λ (p : ℕ × ℕ). slot_range_name p.0 p.1 p.0 p.1 in
      (ab ba bc ac : ℕ) × (manhattan_dist (name a) (name b) ≡ ok ab)
      × (manhattan_dist (name b) (name a) ≡ ok ba)
      × (manhattan_dist (name b) (name c) ≡ ok bc)
      × (manhattan_dist (name a) (name c) ≡ ok ac)
      × (ab ≡ ba)
      × ((ab ≡ 0) ↔ (a ≡ b))
      × (ac ≤ ab + bc)
manhattan_dist_metric a b c = (
  distance a b,
  distance b a,
  distance b c,
  distance a c,
  manhattan_dist-slot_range_name a.0 a.1 a.0 a.1 b.0 b.1 b.0 b.1,
  manhattan_dist-slot_range_name b.0 b.1 b.0 b.1 a.0 a.1 a.0 a.1,
  manhattan_dist-slot_range_name b.0 b.1 b.0 b.1 c.0 c.1 c.0 c.1,
  manhattan_dist-slot_range_name a.0 a.1 a.0 a.1 c.0 c.1 c.0 c.1,
  distance_comm a b,
  distance_zero a b,
  distance-triangle a b c,
)
