-- ===== src/Select/Random.antt =====
-- noc_pass.py: random_selector. Python's `random` is a parameter: `randint i n` is the number that the
-- call of round `i` draws from 1 to `n`, and `sample i k` the `k` names that it then samples. The
-- loop runs on fuel; `none` is a loop that has not ended.
use rapidstream_noc.Common.{
  ℕ, zero, suc, ◌-◌, ◌≤◌, ◌<◌, ◌≡◌, ◌⊎◌, refl, Bool, true, false, Bool-cases, inl, inr, List,
  Option, none, some, Result, ok, err, value_error, ◌>>=◌, if◌then◌else◌, ◌==◌, map_each, length,
  arith, item,
}
use rapidstream_noc.Common.Text.{Text}
use rapidstream_noc.Device.{Device}
use rapidstream_noc.Select.{StreamsSlots, get_streams_noc_area, is_exceeding_avail_noc_nodes}

-- `{s: streams_slots[s] for s in random_streams}`, for names that are all different.
abbrev pub chosen_of : StreamsSlots → List Text → Result StreamsSlots
chosen_of streams_slots names = map_each names λ s. item s streams_slots >>= λ slots. ok (s, slots)

-- Whether a round's streams exceed the nodes of a slot.
unfoldable pub too_many : StreamsSlots → Device → List Text → Result Bool
too_many streams_slots d names = do
  chosen ← chosen_of streams_slots names
  slots_usage ← get_streams_noc_area chosen d
  is_exceeding_avail_noc_nodes slots_usage d

module _ (randint : ℕ → ℕ → ℕ) (sample : ℕ → ℕ → List Text) (streams_slots : StreamsSlots)
    (d : Device) where
  unfoldable pub random_rounds : ℕ → ℕ → ℕ → Option (Result (List Text))
  unfolding too_many
  random_rounds zero i num_to_select = none
  random_rounds (suc f) i num_to_select =
      let k = randint i num_to_select in
      let smaller = random_rounds f (suc i) (k - 1) in
      if num_to_select == 0
      then some (err value_error)
      else elim (too_many streams_slots d (sample i k)) [
        | err raised ↦ some (err raised)
        | ok true ↦ smaller
        | ok false ↦ some (ok (sample i k))
      ]

  unfoldable pub random_selector : ℕ → Option (Result (List Text))
  unfolding random_rounds
  random_selector fuel = random_rounds fuel 0 (length streams_slots)

  -- A selection that does not exceed the nodes of a slot; an exception is that of a draw from no
  -- streams, or one that the check of a sample raises.
  abbrev pub Accepted : Result (List Text) → Type 0
  Accepted (ok names) = too_many streams_slots d names ≡ ok false
  Accepted (err raised) =
      (raised ≡ value_error)
      ⊎ ((i : ℕ) × (k : ℕ) × (too_many streams_slots d (sample i k) ≡ err raised))

  random_rounds-Accepted :
      (fuel i num_to_select : ℕ)
      → ((i n : ℕ) → 0 < n → randint i n ≤ n)
      → num_to_select < fuel
      → (r : Result (List Text)) × (random_rounds fuel i num_to_select ≡ some r) × Accepted r
  unfolding random_rounds
  random_rounds-Accepted zero i num_to_select drawn enough =
      let never : ⊥ = omega arith in elim never [ ]
  random_rounds-Accepted (suc f) i num_to_select drawn enough =
      elim (Bool-cases (num_to_select == 0)) [
        | inl e ↦ (err value_error, rw e refl, inl refl)
        | inr e ↦
            (let smaller =
                random_rounds-Accepted f (suc i) (randint i num_to_select - 1) drawn
                  (ground (arith, drawn i num_to_select, e)) in
              rw e (
                after (too_many streams_slots d (sample i (randint i num_to_select))) refl smaller))
      ]
    where
      after :
          (tried : Result Bool)
          → too_many streams_slots d (sample i (randint i num_to_select)) ≡ tried
          → ((r : Result (List Text)) × (random_rounds f (suc i) (randint i num_to_select - 1)
                ≡ some r)
              × Accepted r)
          → (r : Result (List Text)) × ((elim tried [
            | err raised ↦ some (err raised)
            | ok true ↦ random_rounds f (suc i) (randint i num_to_select - 1)
            | ok false ↦ some (ok (sample i (randint i num_to_select)))
          ])
              ≡ some r)
            × Accepted r
      after (err raised) e smaller = (err raised, refl, inr (i, randint i num_to_select, e))
      after (ok true) e smaller = smaller
      after (ok false) e smaller = (ok (sample i (randint i num_to_select)), refl, e)

  -- When a draw from 1 to `n` is at most `n`, random_selector ends within one round for each stream
  -- and one more; the streams that it returns exceed the NMU or the NSU nodes of no slot, and an
  -- exception is a ValueError or one that the check of a sample raises.
  pub random_selector-Accepted :
      (fuel : ℕ)
      → ((i n : ℕ) → 0 < n → randint i n ≤ n)
      → length streams_slots < fuel
      → (r : Result (List Text)) × (random_selector fuel ≡ some r) × Accepted r
  unfolding random_selector
  random_selector-Accepted fuel drawn enough =
      random_rounds-Accepted fuel 0 (length streams_slots) drawn enough
