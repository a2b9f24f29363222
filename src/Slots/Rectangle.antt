-- ===== src/Slots/Rectangle.antt =====
-- `extract_slot_range` lists exactly the slots of the rectangle that it is given.
use mathlib.Core.List.Memᴰ
use mathlib.Core.List.{Memᴰ}
use mathlib.Core.Path.{ap₂}
use rapidstream_noc.Common.{
  Memᴰ-range_from, ℕ, sym, suc, ◌-◌, ◌≤◌, ◌<◌, ◌≡◌, ap, ◌↔◌, ◌⊎◌, inl, inr, List, [], ◌∷◌, map,
  arith, range_from, leb, le→leb, if◌then◌else◌, ok, err, assertion_error,
}
use rapidstream_noc.Slots.{coordinates, extract_slot_range}
use rapidstream_noc.Slots.RoundTrip.{
  slot_range_name, split-slot_range_name, extract_slot_coord-slot_name,
}

abbrev rectangle : ℕ → ℕ → ℕ → ℕ → List (ℕ × ℕ)
rectangle x y u v = coordinates (range_from x (suc u - x)) (range_from y (suc v - y))

-- What `extract_slot_range` returns on a slot range, errors included.
extract_slot_range-slot_range_name :
    (x y u v : ℕ)
    → extract_slot_range (slot_range_name x y u v) ≡ (
        if leb x u
        then (if leb y v then ok (rectangle x y u v) else err assertion_error)
        else err assertion_error)
unfolding extract_slot_range
extract_slot_range-slot_range_name x y u v =
    rw
      (
        split-slot_range_name x y u v,
        extract_slot_coord-slot_name x y,
        extract_slot_coord-slot_name u v,
      )
      (ground arith)

Memᴰ-coordinates :
    (p : ℕ × ℕ) (xs ys : List ℕ) → Memᴰ p (coordinates xs ys) ↔ (Memᴰ p.0 xs × Memᴰ p.1 ys)
unfolding coordinates
Memᴰ-coordinates p [] ys = (λ m. absurd (Memᴰ.not-nil m), λ h. absurd (Memᴰ.not-nil h.0))
Memᴰ-coordinates p (x ∷ xs) ys = (
  λ m. elim (Memᴰ.append_cases (map (λ y. (x, y)) ys) m) [
    | inl here ↦
        let (y, my, e) = Memᴰ.of_map (λ y. (x, y)) ys here in
        (Memᴰ.head (sym (ap (λ q. q.0) e)), Memᴰ.cast (sym (ap (λ q. q.1) e)) my)
    | inr later ↦ let h = (Memᴰ-coordinates p xs ys).0 later in (Memᴰ.tail h.0, h.1)
  ],
  λ (mx, my). elim (Memᴰ.cases_cons mx) [
    | inl e ↦
        Memᴰ.append_left (coordinates xs ys)
          (Memᴰ.cast (λ i. (e i, p.1)) (Memᴰ.map (λ y. (x, y)) my))
    | inr mx' ↦ Memᴰ.append_right (map (λ y. (x, y)) ys) ((Memᴰ-coordinates p xs ys).1 (mx', my))
  ],
)

rectangle-cons :
    (x y u v : ℕ) → x ≤ u → y ≤ v → (rest : List (ℕ × ℕ)) × (rectangle x y u v ≡ (x, y) ∷ rest)
unfolding coordinates
rectangle-cons x y u v p q =
    let a : suc u - x ≡ suc (u - x) = omega arith in
    let b : suc v - y ≡ suc (v - y) = omega arith in
    (_, ap₂ (λ m n. coordinates (range_from x m) (range_from y n)) a b)

Memᴰ-rectangle :
    (x y u v : ℕ)
    → x ≤ u
    → y ≤ v
    → (p : ℕ × ℕ) → Memᴰ p (rectangle x y u v) ↔ ((x ≤ p.0) × (p.0 ≤ u) × (y ≤ p.1) × (p.1 ≤ v))
Memᴰ-rectangle x y u v xu yv p =
    let both = Memᴰ-coordinates p (range_from x (suc u - x)) (range_from y (suc v - y)) in
    let in_x = Memᴰ-range_from p.0 x (suc u - x) in
    let in_y = Memᴰ-range_from p.1 y (suc v - y) in
    (
      λ m.
          let (mx, my) = both.0 m in
          let (a, b) = in_x.0 mx in let (c, d) = in_y.0 my in (a, omega arith, c, omega arith),
      λ (a, b, c, d). both.1 (in_x.1 (a, omega arith), in_y.1 (c, omega arith)),
    )

-- For a slot range from its lower left to its upper right slot, `extract_slot_range` returns the
-- slots of the rectangle, each of them and no other, and the lower left slot comes first.
pub extract_slot_range_rectangle :
    (x y u v : ℕ)
    → x ≤ u
    → y ≤ v
    → (rest : List (ℕ × ℕ)) × (extract_slot_range (slot_range_name x y u v) ≡ ok ((x, y) ∷ rest))
      × ((p : ℕ × ℕ) → Memᴰ p ((x, y) ∷ rest) ↔ ((x ≤ p.0) × (p.0 ≤ u) × (y ≤ p.1) × (p.1 ≤ v)))
extract_slot_range_rectangle x y u v xu yv =
    let (rest, e) = rectangle-cons x y u v xu yv in
    (
      rest,
      rw (extract_slot_range-slot_range_name x y u v, le→leb x u xu, le→leb y v yv, e),
      λ p. rw (← e) (Memᴰ-rectangle x y u v xu yv p),
    )

-- A slot range with a lower coordinate above the upper one is refused by an assertion.
pub extract_slot_range_refused :
    (x y u v : ℕ)
    → (u < x) ⊎ (v < y)
    → extract_slot_range (slot_range_name x y u v) ≡ err assertion_error
extract_slot_range_refused x y u v h =
    rw (extract_slot_range-slot_range_name x y u v) (ground arith)
