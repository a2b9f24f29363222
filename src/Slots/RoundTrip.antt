-- ===== src/Slots/RoundTrip.antt =====
-- Slot names as the flow spells them, and what `extract_slot_coord` reads back from them.
use rapidstream_noc.Common.{
  err, assertion_error, if◌then◌else◌, ◌==◌, ◌&&◌, ℕ, ◌≡◌, refl, sym, ap, ◌∙◌, ◌≢◌, [], ◌∷◌, ◌++◌,
  All, All-append, All-map, arith, Result, ok,
}
use rapidstream_noc.Common.Text.{Text, codes, str_of, split, starts_with}
use rapidstream_noc.Common.Text.Equality.{text_eq_iff}
use rapidstream_noc.Common.Text.Decimal.{IsDigit, str_of-IsDigit, int_of-str_of}
use rapidstream_noc.Common.Text.Split.{Clear, Clear-of_head, split_at, split_whole}
use rapidstream_noc.Slots.{extract_slot_coord, split_slot_region}

-- `SLOT_X{x}Y{y}`.
abbrev pub slot_name : ℕ → ℕ → Text
slot_name x y = codes "SLOT_X" ++ (str_of x ++ (codes "Y" ++ str_of y))

-- `SLOT_X{x}Y{y}_TO_SLOT_X{u}Y{v}`.
abbrev pub slot_range_name : ℕ → ℕ → ℕ → ℕ → Text
slot_range_name x y u v = slot_name x y ++ (codes "_TO_" ++ slot_name u v)

pub str_of-ne : (c n : ℕ) → ¬ IsDigit c → All (λ d. d ≢ c) (str_of n)
str_of-ne c n h = All-map (λ d q e. h (rw e at q)) (str_of n) (str_of-IsDigit n)

module _ (x y : ℕ) where
  abbrev coords : Text
  coords = str_of x ++ (codes "Y" ++ str_of y)

  split_x : split (slot_name x y) (codes "X") ≡ codes "SLOT_" ∷ coords ∷ []
  split_x =
      split_at b'X' [] (codes "SLOT_") coords
        (Clear-of_head b'X' [] (codes "SLOT_") _ (omega arith))
      ∙ ap (λ parts. codes "SLOT_" ∷ parts) (split_whole (codes "X") coords no_x)
    where
      no_x : Clear (codes "X") coords []
      no_x = Clear-of_head b'X' [] coords [] (
          All-append (λ d. d ≢ b'X') (str_of x) (codes "Y" ++ str_of y)
            (str_of-ne b'X' x (omega arith)) (omega arith, str_of-ne b'X' y (omega arith)))

  split_tail : split (str_of y) (codes "Y") ≡ str_of y ∷ []
  split_tail =
      split_whole (codes "Y") (str_of y)
        (Clear-of_head b'Y' [] (str_of y) [] (str_of-ne b'Y' y (omega arith)))

  split_y : split coords (codes "Y") ≡ str_of x ∷ str_of y ∷ []
  split_y =
      split_at b'Y' [] (str_of x) (str_of y)
        (Clear-of_head b'Y' [] (str_of x) _ (str_of-ne b'Y' x (omega arith)))
      ∙ ap (λ parts. str_of x ∷ parts) split_tail

  split_name_y : split (slot_name x y) (codes "Y") ≡ (codes "SLOT_X" ++ str_of x) ∷ str_of y ∷ []
  split_name_y =
      split_at b'Y' [] (codes "SLOT_X" ++ str_of x) (str_of y) (
        Clear-of_head b'Y' [] (codes "SLOT_X" ++ str_of x) _ (
          All-append (λ d. d ≢ b'Y') (codes "SLOT_X") (str_of x) (omega arith)
            (str_of-ne b'Y' x (omega arith))))
      ∙ ap (λ parts. (codes "SLOT_X" ++ str_of x) ∷ parts) split_tail

  -- `extract_slot_coord` reads back the coordinates of every slot name.
  pub extract_slot_coord-slot_name : extract_slot_coord (slot_name x y) ≡ ok (x, y)
  unfolding extract_slot_coord
  extract_slot_coord-slot_name =
      rw (split_x, split_y, int_of-str_of x, split_name_y, int_of-str_of y)

  Clear-slot_name : (rest : Text) → Clear (codes "_TO_") (slot_name x y) rest
  unfolding starts_with
  Clear-slot_name rest = (refl, (refl, (refl, (refl, (refl, (refl, no_underscore))))))
    where
      no_underscore : Clear (codes "_TO_") coords rest
      no_underscore = Clear-of_head b'_' (codes "TO_") coords rest (
          All-append (λ d. d ≢ b'_') (str_of x) (codes "Y" ++ str_of y)
            (str_of-ne b'_' x (omega arith)) (omega arith, str_of-ne b'_' y (omega arith)))

-- A slot range splits into its two slot names.
pub split-slot_range_name :
    (x y u v : ℕ)
    → split (slot_range_name x y u v) (codes "_TO_") ≡ slot_name x y ∷ slot_name u v ∷ []
split-slot_range_name x y u v =
    split_at b'_' (codes "TO_") (slot_name x y) (slot_name u v) (Clear-slot_name x y _)
    ∙ ap (λ parts. slot_name x y ∷ parts)
        (split_whole (codes "_TO_") (slot_name u v) (Clear-slot_name u v []))

-- Two slot names are equal only if their coordinates are.
pub slot_name_inj : (x y u v : ℕ) → slot_name x y ≡ slot_name u v → (x ≡ u) × (y ≡ v)
slot_name_inj x y u v h =
    let same : ◌≡◌ {A = Result (ℕ × ℕ)} (ok (x, y)) (ok (u, v)) =
      sym (extract_slot_coord-slot_name x y)
      ∙ ap extract_slot_coord h
      ∙ extract_slot_coord-slot_name u v in
    ground arith

-- `split_slot_region` returns the slot of a one-slot region, and refuses every other region.
pub split_slot_region-slot_range_name :
    (x y u v : ℕ)
    → split_slot_region (slot_range_name x y u v)
      ≡ (if x == u && y == v then ok (slot_name x y) else err assertion_error)
unfolding split_slot_region
split_slot_region-slot_range_name x y u v =
    rw (split-slot_range_name x y u v)
      (ground (arith, text_eq_iff (slot_name x y) (slot_name u v), slot_name_inj x y u v))
