-- ===== src/Select/Drawn.antt =====
-- What `random_selector` selects fits the device, and only a draw from no streams raises.
use rapidstream_noc.Common.{
  ℕ, ◌<◌, ◌≤◌, ◌≡◌, ◌⊎◌, refl, sym, ap, ◌∙◌, inl, inr, false, Bool-cases, List, [], ◌∷◌, some,
  Result, ok, err, value_error, >>=-eq-ok, All, Returns, item, lookup, item-eq-ok, map_each, length,
  if◌then◌else◌,
}
use mathlib.Core.Path.{subst}
use rapidstream_noc.Common.Text.{Text, text_eq}
use rapidstream_noc.Device.{Device, Ends}
use rapidstream_noc.Select.{StreamsSlots, get_streams_noc_area}
use rapidstream_noc.Select.Greedy.{Fits, not_exceeding-Fits}
use rapidstream_noc.Select.Made.{Made, InGrid, get_streams_noc_area-Made}
use rapidstream_noc.Select.Served.{HasCounts, is_exceeding-Made}
use rapidstream_noc.Select.Random.{
  chosen_of, too_many, random_selector, Accepted, random_selector-Accepted,
}

-- The names are those of streams.
abbrev pub AreKeys : StreamsSlots → List Text → Type 0
AreKeys streams names = All (λ s. Made (item s streams)) names

lookup-InGrid :
    (d : Device) (streams : StreamsSlots) (s : Text) (slots : Ends Text)
    → All (InGrid d) streams
    → lookup s streams ≡ some slots
    → InGrid d (s, slots)
unfolding lookup
lookup-InGrid d [] s slots _ e = absurd (cc e)
lookup-InGrid d ((t, found) ∷ streams) s slots (h, hs) e = elim (Bool-cases (text_eq s t)) [
  | inl same ↦
      subst (λ k. InGrid d (s, k))
        (cc (subst (λ b. (if b then some found else lookup s streams) ≡ some slots) same e)) h
  | inr other ↦
      lookup-InGrid d streams s slots hs
        (subst (λ b. (if b then some found else lookup s streams) ≡ some slots) other e)
]

chosen_of-InGrid :
    (d : Device) (streams : StreamsSlots) (names : List Text)
    → All (InGrid d) streams
    → AreKeys streams names
    → Returns (All (InGrid d)) (chosen_of streams names)
unfolding map_each
chosen_of-InGrid d streams [] hs _ = ([], refl, tt)
chosen_of-InGrid d streams (s ∷ names) hs ((slots, e, _), ks) =
    let (chosen, made, hc) = chosen_of-InGrid d streams names hs ks in
    (
      (s, slots) ∷ chosen,
      rw (e, made) refl,
      (lookup-InGrid d streams s slots hs (item-eq-ok s streams e), hc),
    )

too_many-Made :
    (d : Device) (streams : StreamsSlots) (names : List Text)
    → HasCounts d
    → All (InGrid d) streams
    → AreKeys streams names
    → Made (too_many streams d names)
unfolding too_many
too_many-Made d streams names counts hs ks =
    let (chosen, made, hc) = chosen_of-InGrid d streams names hs ks in
    let (usage, area, _) = get_streams_noc_area-Made d chosen hc in
    rw (made, area) (is_exceeding-Made d chosen usage counts area)

not_too_many-Fits :
    (d : Device) (streams : StreamsSlots) (names : List Text) (x y : ℕ)
    → too_many streams d names ≡ ok false
    → x < d.slot_width
    → y < d.slot_height
    → (selected : StreamsSlots) × (chosen_of streams names ≡ ok selected) × Fits selected d x y
unfolding too_many
not_too_many-Fits d streams names x y e hx hy =
    let (selected, made, rest) = >>=-eq-ok (chosen_of streams names) _ e in
    let (usage, area, fine) = >>=-eq-ok (get_streams_noc_area selected d) _ rest in
    (selected, made, not_exceeding-Fits selected d usage x y area fine hx hy)

-- When a draw from 1 to `n` is at most `n`, the names sampled are those of streams, the device counts
-- the NMU and NSU nodes of each slot of its grid, and both slot ranges of each stream are read and
-- start in the grid, random_selector ends within one round for each stream and one more; it returns
-- the names of streams that fit any slot of the grid, or raises a ValueError.
pub random_selector-serves :
    (randint : ℕ → ℕ → ℕ) (sample : ℕ → ℕ → List Text) (streams : StreamsSlots) (d : Device)
    (fuel x y : ℕ)
    → ((i n : ℕ) → 0 < n → randint i n ≤ n)
    → ((i k : ℕ) → AreKeys streams (sample i k))
    → HasCounts d
    → All (InGrid d) streams
    → length streams < fuel
    → x < d.slot_width
    → y < d.slot_height
    → (random_selector randint sample streams d fuel ≡ some (err value_error))
      ⊎ ((names : List Text) × (selected : StreamsSlots) × (random_selector randint sample streams d
              fuel
            ≡ some (ok names))
          × (chosen_of streams names ≡ ok selected)
          × Fits selected d x y)
random_selector-serves randint sample streams d fuel x y drawn sampled counts hs enough hx hy =
    let (r, ended, accepted) =
      random_selector-Accepted randint sample streams d fuel drawn enough in
    by_result r ended accepted
  where
    by_result :
        (r : Result (List Text))
        → random_selector randint sample streams d fuel ≡ some r
        → Accepted randint sample streams d r
        → (random_selector randint sample streams d fuel ≡ some (err value_error))
          ⊎ ((names : List Text) × (selected : StreamsSlots) × (random_selector randint sample
                  streams d fuel
                ≡ some (ok names))
              × (chosen_of streams names ≡ ok selected)
              × Fits selected d x y)
    by_result (ok names) ended fine =
        let (selected, made, fits) = not_too_many-Fits d streams names x y fine hx hy in
        inr (names, selected, ended, made, fits)
    by_result (err raised) ended (inl e) = inl (ended ∙ ap (λ t. some (err t)) e)
    by_result (err raised) ended (inr (i, k, e)) =
        let (b, made, _) = too_many-Made d streams (sample i k) counts hs (sampled i k) in
        let clash : err raised ≡ ok b = sym e ∙ made in absurd (cc (clash))
