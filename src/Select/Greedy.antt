-- ===== src/Select/Greedy.antt =====
-- What `greedy_selector` selects fits the device.
use mathlib.Core.Path.{subst}
use mathlib.Core.List.Memᴰ
use mathlib.Core.List.{Memᴰ}
use rapidstream_noc.Common.{
  ℕ, ◌<◌, ◌≤◌, ◌≡◌, ◌⊎◌, refl, sym, ap, ◌∙◌, inl, inr, Bool, true, false, List, [], ◌∷◌, map, range,
  ltb, Result, ok, ok_inj, ◌>>=◌, >>=-eq-ok, get_item, arith, Bool-cases, if◌then◌else◌,
  Memᴰ-range_from, All,
}
use rapidstream_noc.Common.Text.{Text, text_eq}
use rapidstream_noc.Common.Text.Equality.{text_eq_iff}
use rapidstream_noc.Ilp.Networkx.{All-Memᴰ}
use rapidstream_noc.Device.{Device, Ends, get_num_nmu_in_slot, get_num_nsu_in_slot}
use rapidstream_noc.Select.{
  NocUsage, StreamsSlots, first_true, get_streams_noc_area, is_exceeding_avail_noc_nodes, dict_set,
  select_greedily, greedy_selector,
}
use rapidstream_noc.Select.Count.{num_sources, num_dests, get_streams_noc_area-counts}

went_on :
    (b : Bool) (r : Result Bool)
    → (if b then ok true else r) ≡ ok false
    → (b ≡ false) × (r ≡ ok false)
went_on true r e = cc
went_on false r e = (refl, e)

first_true-false {ℓ} :
    {A : Type ℓ} (xs : List A) (test : A → Result Bool) (x : A)
    → first_true xs test ≡ ok false
    → Memᴰ x xs
    → test x ≡ ok false
unfolding first_true
first_true-false [] test x e m = absurd (Memᴰ.not-nil m)
first_true-false (a ∷ as') test x e m =
    let (b, tested, rest) = >>=-eq-ok (test a) _ e in
    let (no_, later_false) = went_on b (first_true as' test) rest in
    elim (Memᴰ.cases_cons m) [
      | inl same ↦ ap test same ∙ tested ∙ ap (λ t. ok t) no_
      | inr later ↦ first_true-false as' test x later_false later
    ]

-- The streams whose first slots are a slot fit the NMU and NSU nodes that the device counts there.
pub record Fits (streams : StreamsSlots) (d : Device) (x y : ℕ) : Type 0 where
  pub num_nmu : ℕ
  pub num_nsu : ℕ
  pub nmus : get_num_nmu_in_slot d x y ≡ ok num_nmu
  pub nsus : get_num_nsu_in_slot d x y ≡ ok num_nsu
  pub sources : num_sources streams x y ≤ num_nmu
  pub dests : num_dests streams x y ≤ num_nsu

-- If `is_exceeding_avail_noc_nodes` is False on the usage that `get_streams_noc_area` returns, the
-- streams fit every slot of the grid.
pub not_exceeding-Fits :
    (streams : StreamsSlots) (d : Device) (usage : List (List NocUsage)) (x y : ℕ)
    → get_streams_noc_area streams d ≡ ok usage
    → is_exceeding_avail_noc_nodes usage d ≡ ok false
    → x < d.slot_width
    → y < d.slot_height
    → Fits streams d x y
unfolding is_exceeding_avail_noc_nodes
not_exceeding-Fits streams d usage x y e fine hx hy =
    let at_x =
      first_true-false (range d.slot_width) _ x fine
        ((Memᴰ-range_from x 0 d.slot_width).1 (omega arith, omega arith)) in
    let at_y =
      first_true-false (range d.slot_height) _ y at_x
        ((Memᴰ-range_from y 0 d.slot_height).1 (omega arith, omega arith)) in
    let (u, counted, more) = >>=-eq-ok (get_item usage x >>= λ column. get_item column y) _ at_y in
    let (num_nmu, nmus, rest) = >>=-eq-ok (get_num_nmu_in_slot d x y) _ more in
    let (room, last) =
      went_on (ltb num_nmu u.nmu) (get_num_nsu_in_slot d x y >>= λ n. ok (ltb n u.nsu)) rest in
    let (num_nsu, nsus, over) = >>=-eq-ok (get_num_nsu_in_slot d x y) _ last in
    let same = ok_inj (sym counted ∙ get_streams_noc_area-counts streams d usage x y e hx hy) in
    record {
      num_nmu = num_nmu;
      num_nsu = num_nsu;
      nmus = nmus;
      nsus = nsus;
      sources = subst (λ k. k.nmu ≤ num_nmu) same (ltb-le num_nmu u.nmu room);
      dests = subst (λ k. k.nsu ≤ num_nsu) same (ltb-le num_nsu u.nsu (ok_inj over));
    }
  where
    ltb-le : (a b : ℕ) → ltb a b ≡ false → b ≤ a
    ltb-le a b h = ground (arith, h)

-- A selection that the greedy loop keeps: empty, or checked against the device.
abbrev IsKept : Device → StreamsSlots → Type 0
IsKept d selected =
    (selected ≡ [])
    ⊎ ((usage : List (List NocUsage)) × (get_streams_noc_area selected d ≡ ok usage)
        × (is_exceeding_avail_noc_nodes usage d ≡ ok false))

-- How the loop goes on after a stream.
abbrev next_selection :
    Bool → Text → Ends Text → StreamsSlots → StreamsSlots → Device → Result StreamsSlots
next_selection exceeding s slots streams selected d =
    if exceeding
    then select_greedily streams selected d
    else select_greedily streams (dict_set selected s slots) d

select_greedily-IsKept :
    (streams selected result : StreamsSlots) (d : Device)
    → select_greedily streams selected d ≡ ok result
    → IsKept d selected
    → IsKept d result
unfolding select_greedily
select_greedily-IsKept [] selected result d e kept = subst (IsKept d) (ok_inj e) kept
select_greedily-IsKept ((s, slots) ∷ streams) selected result d e kept =
    let (usage, area, rest) = >>=-eq-ok (get_streams_noc_area (dict_set selected s slots) d) _ e in
    let (exceeding, tested, chosen) = >>=-eq-ok (is_exceeding_avail_noc_nodes usage d) _ rest in
    elim (Bool-cases exceeding) [
      | inl over ↦
          select_greedily-IsKept streams selected result d
            (subst (λ t. next_selection t s slots streams selected d ≡ ok result) over chosen) kept
      | inr fine ↦
          select_greedily-IsKept streams (dict_set selected s slots) result d
            (subst (λ t. next_selection t s slots streams selected d ≡ ok result) fine chosen)
            (inr (usage, area, tested ∙ ap (λ t. ok t) fine))
    ]

dict_set-All :
    (all selected : StreamsSlots) (s : Text) (slots : Ends Text)
    → Memᴰ (s, slots) all
    → All (λ p. Memᴰ p all) selected
    → All (λ p. Memᴰ p all) (dict_set selected s slots)
dict_set-All all [] s slots m _ = (m, tt)
dict_set-All all ((t, old) ∷ selected) s slots m (h, hs) = elim (Bool-cases (text_eq s t)) [
  | inl same ↦ rw same (subst (λ k. Memᴰ (k, slots) all) ((text_eq_iff s t).0 same) m, hs)
  | inr other ↦ rw other (h, dict_set-All all selected s slots m hs)
]

select_greedily-All :
    (all streams selected result : StreamsSlots) (d : Device)
    → select_greedily streams selected d ≡ ok result
    → All (λ p. Memᴰ p all) streams
    → All (λ p. Memᴰ p all) selected
    → All (λ p. Memᴰ p all) result
unfolding select_greedily
select_greedily-All all [] selected result d e _ h = subst (All (λ p. Memᴰ p all)) (ok_inj e) h
select_greedily-All all ((s, slots) ∷ streams) selected result d e (m, ms) h =
    let (usage, area, rest) = >>=-eq-ok (get_streams_noc_area (dict_set selected s slots) d) _ e in
    let (exceeding, tested, chosen) = >>=-eq-ok (is_exceeding_avail_noc_nodes usage d) _ rest in
    elim (Bool-cases exceeding) [
      | inl over ↦
          select_greedily-All all streams selected result d
            (subst (λ t. next_selection t s slots streams selected d ≡ ok result) over chosen) ms h
      | inr fine ↦
          select_greedily-All all streams (dict_set selected s slots) result d
            (subst (λ t. next_selection t s slots streams selected d ≡ ok result) fine chosen) ms
            (dict_set-All all selected s slots m h)
    ]

-- When `greedy_selector` returns, its names are those of a selection out of the given streams that
-- is empty or fits any slot of the grid: no more of its streams start, or end, at the slot than the
-- device has NMU, or NSU, nodes there.
pub greedy_selector-Fits :
    (streams : StreamsSlots) (d : Device) (chosen : List Text) (x y : ℕ)
    → greedy_selector streams d ≡ ok chosen
    → x < d.slot_width
    → y < d.slot_height
    → (selected : StreamsSlots) × (chosen ≡ map (λ (s, slots). s) selected)
      × All (λ p. Memᴰ p streams) selected
      × ((selected ≡ []) ⊎ Fits selected d x y)
unfolding greedy_selector
greedy_selector-Fits streams d chosen x y e hx hy =
    let (selected, looped, named) = >>=-eq-ok (select_greedily streams [] d) _ e in
    (
      selected,
      sym (ok_inj named),
      select_greedily-All streams streams [] selected d looped (All-Memᴰ streams) tt,
      elim (select_greedily-IsKept streams [] selected d looped (inl refl)) [
        | inl none_ ↦ inl none_
        | inr (usage, area, fine) ↦ inr (not_exceeding-Fits selected d usage x y area fine hx hy)
      ],
    )
