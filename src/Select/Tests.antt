-- ===== src/Select/Tests.antt =====
-- Three streams on a device of one NMU and one NSU per slot.
use mathlib.Core.List.{Memᴰ}
use rapidstream_noc.Select.Drawn.{AreKeys, random_selector-serves}
use rapidstream_noc.Select.Random.{random_selector, chosen_of, Accepted, random_selector-Accepted}
use rapidstream_noc.Common.{
  lookup, err, value_error, zero, suc, Returns, ◌<◌, ℕ, Result, some, take, get_item, ◌>>=◌, ◌≡◌,
  ◌⊎◌, refl, List, [], ◌∷◌, map, All, arith, ok, map_each,
}
use rapidstream_noc.Common.Text.{Text, text_eq, codes, split, int_of}
use rapidstream_noc.Slots.{extract_slot_coord, extract_slot_range, coordinates}
use rapidstream_noc.Graph.{NocGraph}
use rapidstream_noc.Device.{Device, get_num_nmu_in_slot, get_num_nsu_in_slot}
use rapidstream_noc.Select.{
  NocUsage, StreamsSlots, get_streams_noc_area, is_exceeding_avail_noc_nodes, greedy_selector,
  select_greedily, count_streams, update_at, first_true,
}
use rapidstream_noc.Select.Count.{num_sources, num_dests, get_streams_noc_area-counts}
use rapidstream_noc.Select.Made.{Made, StartsIn, InGrid, get_streams_noc_area-counted}
use rapidstream_noc.Select.Served.{HasCounts, greedy_selector-serves}
use rapidstream_noc.Select.Greedy.{Fits, greedy_selector-Fits}

abbrev noc : NocGraph
noc = record {
  num_slr = 2;
  num_col = 1;
  rows_per_slr = 2 ∷ 2 ∷ [];
  nmu_nodes = [];
  nsu_nodes = [];
  nps_vnoc_nodes = [];
  nps_hnoc_nodes = [];
  nps_slr0_nodes = [];
  ncrb_nodes = [];
  nps_hbm_nodes = [];
  ncrb_hbm_nodes = [];
  hbm_mc_nodes = [];
  nmu_hbm_nodes = [];
  nps4_hbm_mc_nodes = [];
  nps6_hbm_mc_nodes = [];
  edges = [];
}

abbrev device : Device
device = record {
  part_num = [];
  board_part = [];
  slot_width = 2;
  slot_height = 2;
  cr_mapping = [];
  noc_graph = noc;
  nmu_per_slot = (1 ∷ 1 ∷ []) ∷ (1 ∷ 1 ∷ []) ∷ [];
  nsu_per_slot = (1 ∷ 1 ∷ []) ∷ (1 ∷ 1 ∷ []) ∷ [];
}

abbrev slot00 : Text
slot00 = codes "SLOT_X0Y0_TO_SLOT_X0Y0"

abbrev slot11 : Text
slot11 = codes "SLOT_X1Y1_TO_SLOT_X1Y1"

abbrev slot01 : Text
slot01 = codes "SLOT_X0Y1_TO_SLOT_X0Y1"

abbrev streams : StreamsSlots
streams =
    (codes "a", record { src = slot00; dest = slot11 })
    ∷ (codes "b", record { src = slot00; dest = slot01 })
    ∷ (codes "c", record { src = slot01; dest = slot00 })
    ∷ []

program : Unit {0}
unfolding greedy_selector select_greedily get_streams_noc_area is_exceeding_avail_noc_nodes
    count_streams update_at first_true get_num_nmu_in_slot get_num_nsu_in_slot extract_slot_range
    extract_slot_coord coordinates split int_of map_each text_eq
program = tt

-- `b` would be the second stream that starts in the slot (0, 0).
selected : greedy_selector streams device ≡ ok (codes "a" ∷ codes "c" ∷ [])
unfolding program
selected = refl

-- The usage of the streams, by slot.
abbrev usage_of_all : List (List NocUsage)
usage_of_all =
    (record { nmu = 2; nsu = 1 } ∷ record { nmu = 1; nsu = 1 } ∷ [])
    ∷ (record { nmu = 0; nsu = 0 } ∷ record { nmu = 0; nsu = 1 } ∷ [])
    ∷ []

area : get_streams_noc_area streams device ≡ ok usage_of_all
unfolding program
area = refl

get_streams_noc_area-counts_run :
    (get_item usage_of_all 0 >>= λ column. get_item column 0)
    ≡ ok (record { nmu = num_sources streams 0 0; nsu = num_dests streams 0 0 })
get_streams_noc_area-counts_run =
    get_streams_noc_area-counts streams device usage_of_all 0 0 area (omega arith) (omega arith)

greedy_selector-Fits_run :
    (sel : StreamsSlots) × (codes "a" ∷ codes "c" ∷ [] ≡ map (λ (s, slots). s) sel)
    × All (λ p. Memᴰ p streams) sel
    × ((sel ≡ []) ⊎ Fits sel device 0 0)
greedy_selector-Fits_run =
    greedy_selector-Fits streams device (codes "a" ∷ codes "c" ∷ []) 0 0 selected (omega arith)
      (omega arith)

nmu_made : (x y : ℕ) → x < 2 → y < 2 → Made (get_num_nmu_in_slot device x y)
unfolding program
nmu_made zero zero _ _ = (1, refl, tt)
nmu_made zero (suc zero) _ _ = (1, refl, tt)
nmu_made (suc zero) zero _ _ = (1, refl, tt)
nmu_made (suc zero) (suc zero) _ _ = (1, refl, tt)
nmu_made (suc (suc x)) y hx _ = absurd (omega (arith, hx))
nmu_made x (suc (suc y)) _ hy = absurd (omega (arith, hy))

nsu_made : (x y : ℕ) → x < 2 → y < 2 → Made (get_num_nsu_in_slot device x y)
unfolding program
nsu_made zero zero _ _ = (1, refl, tt)
nsu_made zero (suc zero) _ _ = (1, refl, tt)
nsu_made (suc zero) zero _ _ = (1, refl, tt)
nsu_made (suc zero) (suc zero) _ _ = (1, refl, tt)
nsu_made (suc (suc x)) y hx _ = absurd (omega (arith, hx))
nsu_made x (suc (suc y)) _ hy = absurd (omega (arith, hy))

device-HasCounts : HasCounts device
device-HasCounts = record { nmus = nmu_made; nsus = nsu_made }

starts00 : StartsIn 2 2 slot00
unfolding program
starts00 = (_, refl, (omega arith, omega arith))

starts01 : StartsIn 2 2 slot01
unfolding program
starts01 = (_, refl, (omega arith, omega arith))

starts11 : StartsIn 2 2 slot11
unfolding program
starts11 = (_, refl, (omega arith, omega arith))

streams-InGrid : All (InGrid device) streams
streams-InGrid = ((starts00, starts11), ((starts00, starts01), ((starts01, starts00), tt)))

get_streams_noc_area-counted_example :
    Returns
      (λ usage.
        (get_item usage 0 >>= λ column. get_item column 0)
        ≡ ok (record { nmu = num_sources streams 0 0; nsu = num_dests streams 0 0 }))
      (get_streams_noc_area streams device)
get_streams_noc_area-counted_example =
    get_streams_noc_area-counted streams device 0 0 streams-InGrid (omega arith) (omega arith)

greedy_selector-serves_example :
    Returns
      (λ chosen.
        (sel : StreamsSlots) × (chosen ≡ map (λ (s, slots). s) sel)
        × All (λ p. Memᴰ p streams) sel
        × ((sel ≡ []) ⊎ Fits sel device 0 0))
      (greedy_selector streams device)
greedy_selector-serves_example =
    greedy_selector-serves streams device 0 0 device-HasCounts streams-InGrid (omega arith)
      (omega arith)

-- A generator that draws the largest number, and samples the first names.
abbrev first_names : ℕ → ℕ → List Text
first_names i k = take k (map (λ (s, slots). s) streams)

random_selector-Accepted_run :
    (r : Result (List Text)) × (random_selector (λ i n. n) first_names streams device 4 ≡ some r)
    × Accepted (λ i n. n) first_names streams device r
random_selector-Accepted_run =
    random_selector-Accepted (λ i n. n) first_names streams device 4 (λ i n h. omega arith)
      (omega arith)

-- The first names are those of streams.
sampled_keys : (i k : ℕ) → AreKeys streams (first_names i k)
unfolding program lookup
sampled_keys i zero = tt
sampled_keys i (suc zero) = ((_, refl, tt), tt)
sampled_keys i (suc (suc zero)) = ((_, refl, tt), ((_, refl, tt), tt))
sampled_keys i (suc (suc (suc zero))) = ((_, refl, tt), ((_, refl, tt), ((_, refl, tt), tt)))
sampled_keys i (suc (suc (suc (suc k)))) = ((_, refl, tt), ((_, refl, tt), ((_, refl, tt), tt)))

random_selector-serves_example :
    (random_selector (λ i n. n) first_names streams device 4 ≡ some (err value_error))
    ⊎ ((names : List Text) × (sel : StreamsSlots) × (random_selector
            (λ i n. n)
            first_names
            streams
            device
            4
          ≡ some (ok names))
        × (chosen_of streams names ≡ ok sel)
        × Fits sel device 0 0)
random_selector-serves_example =
    random_selector-serves (λ i n. n) first_names streams device 4 0 0 (λ i n h. omega arith)
      sampled_keys device-HasCounts streams-InGrid (omega arith) (omega arith) (omega arith)
