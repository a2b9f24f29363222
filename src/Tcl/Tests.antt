-- ===== src/Tcl/Tests.antt =====
-- A device with one column of two slots, a floorplan of both, and two streams between them.
use mathlib.Core.List.{Memᴰ}
use rapidstream_noc.Common.{
  ℕ, ◌≡◌, refl, [], ◌∷◌, ok, err, unbound_local_error, All, Returns, Dict, item, lookup,
  if◌then◌else◌, ◌==◌,
}
use rapidstream_noc.Common.Text.{Text, codes, text_eq, starts_with}
use rapidstream_noc.Device.{Device, Ends}
use rapidstream_noc.Ilp.Tests.{noc}
use rapidstream_noc.Tcl.Floorplan.{unused_clk_pin_of}
use rapidstream_noc.Tcl.Pblocks.{unique_slots_of}
use rapidstream_noc.Tcl.Areas.{Plan, region, IsUnique, unique_slots_of-covers}

abbrev device : Device
device = record {
  part_num = codes "xcvh1582-vsva3697-2MP-e-S";
  board_part = [];
  slot_width = 1;
  slot_height = 2;
  cr_mapping = (codes "lower" ∷ codes "upper" ∷ []) ∷ [];
  noc_graph = noc;
  nmu_per_slot = [];
  nsu_per_slot = [];
}

abbrev plan : Plan
plan = ((0, 1), codes "m0" ∷ codes "m1" ∷ []) ∷ ((0, 0), codes "m2" ∷ []) ∷ []

abbrev cr : ℕ × ℕ → Text
cr (x, y) = if y == 0 then codes "lower" else codes "upper"

pin_unknown : unused_clk_pin_of (codes "PART_NUM") ≡ err unbound_local_error
unfolding unused_clk_pin_of starts_with
pin_unknown = refl

abbrev up : Ends Text
up = record { src = region (0, 0); dest = region (0, 1) }

abbrev streams_slots : Dict (Ends Text)
streams_slots = (codes "f0", up) ∷ (codes "f1", up) ∷ []

names_found :
    All (λ k. (e : Ends Text) × (item k streams_slots ≡ ok e)) (codes "f1" ∷ codes "f0" ∷ [])
unfolding lookup text_eq
names_found = ((up, refl), ((up, refl), tt))

f0_found : item (codes "f0") streams_slots ≡ ok up
unfolding lookup text_eq
f0_found = refl

unique_slots_of-covers_example :
    Returns
      (λ slots. IsUnique slots × Memᴰ (region (0, 0)) slots × Memᴰ (region (0, 1)) slots)
      (unique_slots_of streams_slots [] (codes "f1" ∷ codes "f0" ∷ []))
unique_slots_of-covers_example =
    unique_slots_of-covers streams_slots (codes "f1" ∷ codes "f0" ∷ []) (codes "f0") up names_found
      (Memᴰ.tail (Memᴰ.head refl)) f0_found
