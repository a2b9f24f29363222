-- ===== src/Select/Served.antt =====
-- `greedy_selector` returns, with a selection that fits the device.
use rapidstream_noc.Common.{
  ℕ, ◌<◌, ◌≡◌, ◌⊎◌, refl, true, List, [], ◌∷◌, map, range, ltb, ok, ◌>>=◌, get_item, All, Returns,
  Bool-cases, inl, inr,
}
use mathlib.Core.List.{Memᴰ}
use rapidstream_noc.Common.Text.{Text, text_eq}
use rapidstream_noc.Device.{Device, Ends, get_num_nmu_in_slot, get_num_nsu_in_slot}
use rapidstream_noc.Select.{
  NocUsage, StreamsSlots, get_streams_noc_area, exceeds_at, is_exceeding_avail_noc_nodes, dict_set,
  select_greedily, greedy_selector,
}
use rapidstream_noc.Select.Count.{get_streams_noc_area-counts}
use rapidstream_noc.Select.Greedy.{Fits, greedy_selector-Fits}
use rapidstream_noc.Select.Made.{
  Made, InGrid, first_true-Made, All-range, if-Made, get_streams_noc_area-Made,
}

-- The device counts the nodes of each slot of its grid.
pub record HasCounts (d : Device) : Type 0 where
  pub nmus : (x y : ℕ) → x < d.slot_width → y < d.slot_height → Made (get_num_nmu_in_slot d x y)
  pub nsus : (x y : ℕ) → x < d.slot_width → y < d.slot_height → Made (get_num_nsu_in_slot d x y)

exceeds_at-Made :
    (d : Device) (usage : List (List NocUsage)) (x y : ℕ)
    → Made (get_item usage x >>= λ column. get_item column y)
    → Made (get_num_nmu_in_slot d x y)
    → Made (get_num_nsu_in_slot d x y)
    → Made (exceeds_at usage d x y)
exceeds_at-Made d usage x y (u, used, _) (m, em, _) (n, en, _) =
    rw (used, em, en)
      (if-Made (ltb m u.nmu) (ok true) (ok (ltb n u.nsu)) (true, refl, tt) (ltb n u.nsu, refl, tt))

pub is_exceeding-Made :
    (d : Device) (streams : StreamsSlots) (usage : List (List NocUsage))
    → HasCounts d
    → get_streams_noc_area streams d ≡ ok usage
    → Made (is_exceeding_avail_noc_nodes usage d)
unfolding is_exceeding_avail_noc_nodes
is_exceeding-Made d streams usage counts area = first_true-Made (range d.slot_width) _ (
    All-range _ d.slot_width λ x hx. first_true-Made (range d.slot_height) _ (
      All-range _ d.slot_height λ y hy.
        exceeds_at-Made d usage x y
          (_, get_streams_noc_area-counts streams d usage x y area hx hy, tt)
          (counts.nmus x y hx hy) (counts.nsus x y hx hy)))

dict_set-InGrid :
    (d : Device) (selected : StreamsSlots) (s : Text) (slots : Ends Text)
    → InGrid d (s, slots)
    → All (InGrid d) selected
    → All (InGrid d) (dict_set selected s slots)
dict_set-InGrid d [] s slots h _ = (h, tt)
dict_set-InGrid d ((t, old) ∷ selected) s slots h (k, ks) = elim (Bool-cases (text_eq s t)) [
  | inl same ↦ rw same (h, ks)
  | inr other ↦ rw other (k, dict_set-InGrid d selected s slots h ks)
]

select_greedily-Made :
    (d : Device) (streams selected : StreamsSlots)
    → HasCounts d
    → All (InGrid d) streams
    → All (InGrid d) selected
    → Made (select_greedily streams selected d)
unfolding select_greedily
select_greedily-Made d [] selected counts _ _ = (selected, refl, tt)
select_greedily-Made d ((s, slots) ∷ streams) selected counts (h, hs) ks =
    let added = dict_set-InGrid d selected s slots h ks in
    let (usage, area, _) = get_streams_noc_area-Made d (dict_set selected s slots) added in
    let (exceeding, tested, _) =
      is_exceeding-Made d (dict_set selected s slots) usage counts area in
    rw (area, tested)
      (if-Made exceeding (select_greedily streams selected d)
        (select_greedily streams (dict_set selected s slots) d)
        (select_greedily-Made d streams selected counts hs ks)
        (select_greedily-Made d streams (dict_set selected s slots) counts hs added))

greedy_selector-Made :
    (d : Device) (streams : StreamsSlots)
    → HasCounts d
    → All (InGrid d) streams
    → Made (greedy_selector streams d)
unfolding greedy_selector
greedy_selector-Made d streams counts hs =
    let (selected, looped, _) = select_greedily-Made d streams [] counts hs tt in
    (map (λ (s, slots). s) selected, rw looped refl, tt)

-- When the device counts the NMU and NSU nodes of each slot of its grid, and both slot ranges of
-- each stream are read and start in the grid, `greedy_selector` returns, and its names are those of a
-- selection out of the given streams that is empty or fits any slot of the grid: no more of its
-- streams start, or end, at the slot than the device has NMU, or NSU, nodes there.
pub greedy_selector-serves :
    (streams : StreamsSlots) (d : Device) (x y : ℕ)
    → HasCounts d
    → All (InGrid d) streams
    → x < d.slot_width
    → y < d.slot_height
    → Returns
        (λ chosen.
          (selected : StreamsSlots) × (chosen ≡ map (λ (s, slots). s) selected)
          × All (λ p. Memᴰ p streams) selected
          × ((selected ≡ []) ⊎ Fits selected d x y))
        (greedy_selector streams d)
greedy_selector-serves streams d x y counts hs hx hy =
    let (chosen, e, _) = greedy_selector-Made d streams counts hs in
    (chosen, e, greedy_selector-Fits streams d chosen x y e hx hy)
