-- ===== src/Select/Made.antt =====
-- `get_streams_noc_area` returns: no index is out of the tables of the grid.
use rapidstream_noc.Common.{
  ℕ, zero, suc, ◌+◌, ◌<◌, ◌≡◌, refl, sym, Bool, true, false, List, [], ◌∷◌, range, range_from,
  Result, ok, ok_inj, ◌>>=◌, >>=-eq-ok, get_item, map_each, arith, All, Returns, if◌then◌else◌,
}
use mathlib.Core.Path.{subst}
use rapidstream_noc.Common.Text.{Text}
use rapidstream_noc.Device.{Device, Ends, cell_at}
use rapidstream_noc.Slots.{extract_slot_range}
use rapidstream_noc.Select.{
  StreamsSlots, update_at, first_true, use_first, use_range, count_streams, zeros,
  get_streams_noc_area,
}
use rapidstream_noc.Select.Count.{
  num_sources, num_dests, increment-cell, zeros-cell, get_streams_noc_area-counts,
}

abbrev pub Made {ℓ} : {A : Type ℓ} → Result A → Type ℓ
Made r = Returns (λ _. Unit {0}) r

-- A table has an entry for each slot of a grid.
abbrev IsTable : ℕ → ℕ → List (List ℕ) → Type 0
IsTable w h table = (x y : ℕ) → x < w → y < h → Made (cell_at table x y)

-- The first slot of a list lies in a grid.
abbrev FirstIn : ℕ → ℕ → List (ℕ × ℕ) → Type 0
FirstIn w h [] = Unit
FirstIn w h ((u, v) ∷ _) = (u < w) × (v < h)

-- A slot range is one that `extract_slot_range` reads, with its first slot in a grid.
abbrev pub StartsIn : ℕ → ℕ → Text → Type 0
StartsIn w h slot_range = Returns (FirstIn w h) (extract_slot_range slot_range)

-- Both ends of a stream start in the grid of the device.
abbrev pub InGrid : Device → Text × Ends Text → Type 0
InGrid d (_, slots) =
    StartsIn d.slot_width d.slot_height slots.src × StartsIn d.slot_width d.slot_height slots.dest

module _ {ℓ} {A : Type ℓ} where
  update_at-Made :
      (xs : List A) (i : ℕ) (f : A → Result A) (a : A)
      → get_item xs i ≡ ok a
      → Made (f a)
      → Made (update_at xs i f)
  unfolding update_at
  update_at-Made [] i f a e m = cc
  update_at-Made (x ∷ xs) zero f a e m =
      let (b, made, _) = subst (λ k. Made (f k)) (sym (ok_inj e)) m in (b ∷ xs, rw made refl, tt)
  update_at-Made (x ∷ xs) (suc i) f a e m =
      let (bs, made, _) = update_at-Made xs i f a e m in (x ∷ bs, rw made refl, tt)

  pub first_true-Made :
      (xs : List A) (test : A → Result Bool)
      → All (λ x. Made (test x)) xs
      → Made (first_true xs test)
  unfolding first_true
  first_true-Made [] test _ = (false, refl, tt)
  first_true-Made (x ∷ xs) test ((true, tested, _), hs) = (true, rw tested refl, tt)
  first_true-Made (x ∷ xs) test ((false, tested, _), hs) =
      let (b, later, _) = first_true-Made xs test hs in (b, rw tested later, tt)

  map_each-Made {κ} :
      {B : Type κ} (xs : List A) (body : A → Result B)
      → All (λ x. Made (body x)) xs
      → Made (map_each xs body)
  unfolding map_each
  map_each-Made [] body _ = ([], refl, tt)
  map_each-Made (x ∷ xs) body ((y, made, _), hs) =
      let (ys, rest, _) = map_each-Made xs body hs in (y ∷ ys, rw (made, rest) refl, tt)

All-range_from {ℓ} :
    (P : ℕ → Type ℓ) (lo n : ℕ) → ((k : ℕ) → k < lo + n → P k) → All P (range_from lo n)
All-range_from P lo zero h = tt
All-range_from P lo (suc n) h =
    (h lo (omega arith), All-range_from P (suc lo) n (λ k below. h k (omega arith)))

pub All-range {ℓ} : (P : ℕ → Type ℓ) (n : ℕ) → ((k : ℕ) → k < n → P k) → All P (range n)
All-range P n h = All-range_from P 0 n (λ k below. h k (omega (arith, below)))

pub if-Made {ℓ} :
    {A : Type ℓ} (b : Bool) (r s : Result A) → Made r → Made s → Made (if b then r else s)
if-Made true r s m _ = m
if-Made false r s _ m = m

use_range-IsTable :
    (w h : ℕ) (usage : List (List ℕ)) (slot_range : Text)
    → IsTable w h usage
    → StartsIn w h slot_range
    → Returns (IsTable w h) (use_range usage slot_range)
use_range-IsTable w h usage slot_range table (slots, read, first) = rw read (by_slots slots first)
  where
    by_slots :
        (slots : List (ℕ × ℕ)) → FirstIn w h slots → Returns (IsTable w h) (use_first usage slots)
    by_slots [] _ = (usage, refl, table)
    by_slots ((u, v) ∷ slots) (hu, hv) =
        let (n, here, _) = table u v hu hv in
        let (column, found, at_v) = >>=-eq-ok (get_item usage u) _ here in
        let (made, e, _) =
          update_at-Made usage u _ column found
            (update_at-Made column v (λ k. ok (k + 1)) n at_v (n + 1, refl, tt)) in
        (
          made,
          e,
          λ x y hx hy.
              let (m, there, _) = table x y hx hy in
              (_, increment-cell usage made u v x y m e there, tt),
        )

count_streams-Made :
    (d : Device) (streams : StreamsSlots) (nmu nsu : List (List ℕ))
    → All (InGrid d) streams
    → IsTable d.slot_width d.slot_height nmu
    → IsTable d.slot_width d.slot_height nsu
    → Returns
        (λ ts. IsTable d.slot_width d.slot_height ts.0 × IsTable d.slot_width d.slot_height ts.1)
        (count_streams streams nmu nsu)
unfolding count_streams
count_streams-Made d [] nmu nsu _ tm tn = ((nmu, nsu), refl, (tm, tn))
count_streams-Made d ((s, slots) ∷ streams) nmu nsu ((from, to), hs) tm tn =
    let (nmu1, e1, tm1) = use_range-IsTable d.slot_width d.slot_height nmu slots.src tm from in
    let (nsu1, e2, tn1) = use_range-IsTable d.slot_width d.slot_height nsu slots.dest tn to in
    rw (e1, e2) (count_streams-Made d streams nmu1 nsu1 hs tm1 tn1)

pub get_streams_noc_area-Made :
    (d : Device) (streams : StreamsSlots)
    → All (InGrid d) streams
    → Made (get_streams_noc_area streams d)
unfolding get_streams_noc_area
get_streams_noc_area-Made d streams hs =
    let zero_table : IsTable d.slot_width d.slot_height (zeros d.slot_width d.slot_height) =
      λ x y hx hy. (0, zeros-cell d.slot_width d.slot_height x y hx hy, tt) in
    let ((nmu, nsu), counted, (tm, tn)) =
      count_streams-Made d streams (zeros d.slot_width d.slot_height)
        (zeros d.slot_width d.slot_height) hs zero_table zero_table in
    rw counted (
      map_each-Made (range d.slot_width) _ (
        All-range _ d.slot_width λ x hx. map_each-Made (range d.slot_height) _ (
          All-range _ d.slot_height λ y hy.
            let (m, em, _) = tm x y hx hy in
            let (n, en, _) = tn x y hx hy in (record { nmu = m; nsu = n }, rw (em, en) refl, tt))))

-- When both slot ranges of each stream are read and start in the grid, `get_streams_noc_area` returns,
-- and its entry for a slot of the grid counts the streams that have the slot as the first of their
-- source range, and of their destination range.
pub get_streams_noc_area-counted :
    (streams : StreamsSlots) (d : Device) (x y : ℕ)
    → All (InGrid d) streams
    → x < d.slot_width
    → y < d.slot_height
    → Returns
        (λ usage.
          (get_item usage x >>= λ column. get_item column y)
          ≡ ok (record { nmu = num_sources streams x y; nsu = num_dests streams x y }))
        (get_streams_noc_area streams d)
get_streams_noc_area-counted streams d x y hs hx hy =
    let (usage, area, _) = get_streams_noc_area-Made d streams hs in
    (usage, area, get_streams_noc_area-counts streams d usage x y area hx hy)
