-- ===== src/Select.antt =====
-- noc_pass.py: the counts of streams per slot and the greedy choice of streams
-- (get_streams_noc_area, is_exceeding_avail_noc_nodes, greedy_selector).
pub mod Count
pub mod Greedy
pub mod Made
pub mod Served
pub mod Drawn
pub mod Random
pub mod Tests
use rapidstream_noc.Common.{
  Dict, item, set_item, ◌*◌, ℕ, zero, suc, ◌+◌, Bool, true, false, List, [], ◌∷◌, map, range, ltb,
  if◌then◌else◌, Result, ok, err, index_error, ◌>>=◌, get_item, map_each,
}
use rapidstream_noc.Common.Text.{Text, text_eq}
use rapidstream_noc.Device.{Device, Ends, cell_at, get_num_nmu_in_slot, get_num_nsu_in_slot}
use rapidstream_noc.Slots.{extract_slot_range, manhattan_dist}

pub record NocUsage : Type 0 where
  pub nmu : ℕ
  pub nsu : ℕ

-- A dictionary of streams, by name, with their slot ranges.
abbrev pub StreamsSlots : Type 0
StreamsSlots = List (Text × Ends Text)

module _ {ℓ} {A : Type ℓ} where
  -- An assignment to `table[i]`, where its new value may raise.
  unfoldable pub update_at : List A → ℕ → (A → Result A) → Result (List A)
  update_at [] i f = err index_error
  update_at (a ∷ as') zero f = f a >>= λ b. ok (b ∷ as')
  update_at (a ∷ as') (suc i) f = update_at as' i f >>= λ bs. ok (a ∷ bs)

  -- A loop that returns True at the first element that passes the test.
  unfoldable pub first_true : List A → (A → Result Bool) → Result Bool
  first_true [] test = ok false
  first_true (a ∷ as') test =
      let rest = first_true as' test in test a >>= λ b. if b then ok true else rest

-- `usage[x][y] += 1`.
abbrev pub increment : List (List ℕ) → ℕ → ℕ → Result (List (List ℕ))
increment usage x y = update_at usage x (λ column. update_at column y (λ n. ok (n + 1)))

-- `for x, y in slots: usage[x][y] += 1; break`.
abbrev pub use_first : List (List ℕ) → List (ℕ × ℕ) → Result (List (List ℕ))
use_first usage [] = ok usage
use_first usage ((x, y) ∷ slots) = increment usage x y

abbrev pub use_range : List (List ℕ) → Text → Result (List (List ℕ))
use_range usage slot_range = extract_slot_range slot_range >>= λ slots. use_first usage slots

-- The loop over the streams.
unfoldable pub count_streams :
    StreamsSlots → List (List ℕ) → List (List ℕ) → Result (List (List ℕ) × List (List ℕ))
count_streams [] nmu_usage nsu_usage = ok (nmu_usage, nsu_usage)
count_streams ((s, slots) ∷ streams) nmu_usage nsu_usage = use_range nmu_usage slots.src >>= λ nmu.
    use_range nsu_usage slots.dest >>= λ nsu. count_streams streams nmu nsu

abbrev pub zeros : ℕ → ℕ → List (List ℕ)
zeros slot_width slot_height = map (λ x. map (λ y. 0) (range slot_height)) (range slot_width)

abbrev pub usage_at : List (List ℕ) → List (List ℕ) → ℕ → ℕ → Result NocUsage
usage_at nmu_usage nsu_usage x y = do
  nmu ← cell_at nmu_usage x y
  nsu ← cell_at nsu_usage x y
  ok (record { nmu = nmu; nsu = nsu })

unfoldable pub get_streams_noc_area : StreamsSlots → Device → Result (List (List NocUsage))
get_streams_noc_area streams d = do
  (nmu_usage, nsu_usage) ←
      count_streams streams (zeros d.slot_width d.slot_height) (zeros d.slot_width d.slot_height)
  map_each (range d.slot_width)
      λ x. map_each (range d.slot_height) λ y. usage_at nmu_usage nsu_usage x y

-- The body of the loops of `is_exceeding_avail_noc_nodes`: whether it returns True.
abbrev pub exceeds_at : List (List NocUsage) → Device → ℕ → ℕ → Result Bool
exceeds_at slots_usage d x y = do
  usage ← (get_item slots_usage x >>= λ column. get_item column y)
  num_nmu ← get_num_nmu_in_slot d x y
  if ltb num_nmu usage.nmu
      then ok true
      else (get_num_nsu_in_slot d x y >>= λ num_nsu. ok (ltb num_nsu usage.nsu))

unfoldable pub is_exceeding_avail_noc_nodes : List (List NocUsage) → Device → Result Bool
is_exceeding_avail_noc_nodes slots_usage d =
    first_true (range d.slot_width)
      λ x. first_true (range d.slot_height) λ y. exceeds_at slots_usage d x y

-- `streams | {s: slots}`.
abbrev pub dict_set : StreamsSlots → Text → Ends Text → StreamsSlots
dict_set [] s slots = (s, slots) ∷ []
dict_set ((t, old) ∷ streams) s slots =
    if text_eq s t then (t, slots) ∷ streams else (t, old) ∷ dict_set streams s slots

-- The loop of `greedy_selector`.
unfoldable pub select_greedily : StreamsSlots → StreamsSlots → Device → Result StreamsSlots
select_greedily [] selected_streams d = ok selected_streams
select_greedily ((s, slots) ∷ streams) selected_streams d =
    let accepted = select_greedily streams (dict_set selected_streams s slots) d in
    let refused = select_greedily streams selected_streams d in
    do
      slots_usage ← get_streams_noc_area (dict_set selected_streams s slots) d
      exceeding ← is_exceeding_avail_noc_nodes slots_usage d
      if exceeding then refused else accepted

unfoldable pub greedy_selector : StreamsSlots → Device → Result (List Text)
greedy_selector streams_slots d =
    select_greedily streams_slots [] d >>= λ selected. ok (map (λ (s, slots). s) selected)

unfoldable pub manhattan_rounds : StreamsSlots → Dict ℕ → Result (Dict ℕ)
unfolding manhattan_dist set_item
manhattan_rounds [] streams_boundaries = ok streams_boundaries
manhattan_rounds ((s, slots) ∷ streams) streams_boundaries =
    manhattan_dist slots.src slots.dest >>= λ dist.
    manhattan_rounds streams (set_item s dist streams_boundaries)

unfoldable pub get_stream_manhattan_dist : StreamsSlots → Result (Dict ℕ)
unfolding manhattan_rounds
get_stream_manhattan_dist streams_slots = manhattan_rounds streams_slots []

-- The loop of get_stream_manhattan_bw, for bandwidths in any unit.
unfoldable pub manhattan_bw_rounds : Dict ℕ → Dict ℕ → Dict ℕ → Result (Dict ℕ)
unfolding set_item
manhattan_bw_rounds streams_manhattan [] streams_manhattan_bw = ok streams_manhattan_bw
manhattan_bw_rounds streams_manhattan ((s, bw) ∷ streams_bw) streams_manhattan_bw =
    item s streams_manhattan >>= λ dist.
    manhattan_bw_rounds streams_manhattan streams_bw (set_item s (bw * dist) streams_manhattan_bw)

unfoldable pub get_stream_manhattan_bw : StreamsSlots → Dict ℕ → Result (Dict ℕ)
unfolding get_stream_manhattan_dist manhattan_bw_rounds
get_stream_manhattan_bw streams_slots streams_bw =
    get_stream_manhattan_dist streams_slots >>= λ streams_manhattan.
    manhattan_bw_rounds streams_manhattan streams_bw []
