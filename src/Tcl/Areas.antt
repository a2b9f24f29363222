-- ===== src/Tcl/Areas.antt =====
-- The areas that export_constraint and export_noc_constraint create.
use mathlib.Core.List.Memᴰ
use mathlib.Core.List.{Memᴰ}
use mathlib.Core.Path.{subst}
use rapidstream_noc.Common.{
  ℕ, ◌≡◌, ◌≢◌, refl, sym, ap, ◌∙◌, inl, inr, Bool-cases, List, [], ◌∷◌, ◌++◌, map, All, All-append,
  ok, ok_inj, Dict, item, Returns,
}
use rapidstream_noc.Common.Text.{Text}
use rapidstream_noc.Common.Text.Equality.{text_elem, text_elem_iff}
use rapidstream_noc.Device.{Device, Ends}
use rapidstream_noc.Slots.RoundTrip.{slot_range_name}
use rapidstream_noc.Tcl.Pblocks.{add_unique, unique_slots_of}

-- The modules of slots, by the slots' coordinates.
abbrev pub Plan : Type 0
Plan = List ((ℕ × ℕ) × List Text)

-- The region that a slot alone makes up.
abbrev pub region : ℕ × ℕ → Text
region (x, y) = slot_range_name x y x y

abbrev pub floorplan_of : Plan → Dict (List Text)
floorplan_of plan = map (λ (slot, mods). (region slot, mods)) plan

-- No text stands twice.
abbrev pub IsUnique : List Text → Type 0
IsUnique [] = Unit
IsUnique (s ∷ ss) = All (λ t. s ≢ t) ss × IsUnique ss

append_IsUnique :
    (ss : List Text) (t : Text) → IsUnique ss → All (λ s. s ≢ t) ss → IsUnique (ss ++ t ∷ [])
append_IsUnique [] t _ _ = (tt, tt)
append_IsUnique (s ∷ ss) t (differ, unique) (other, others) =
    (All-append (λ u. s ≢ u) ss (t ∷ []) differ (other, tt), append_IsUnique ss t unique others)

not_listed : (t : Text) (ss : List Text) → (Memᴰ t ss → ⊥) → All (λ s. s ≢ t) ss
not_listed t [] _ = tt
not_listed t (s ∷ ss) absent =
    (λ e. absent (Memᴰ.head (sym e)), not_listed t ss (λ m. absent (Memᴰ.tail m)))

-- After `add_unique` the slot is listed, what was listed still is, and no slot stands twice if none did.
added :
    (ss : List Text) (t : Text)
    → IsUnique ss
    → IsUnique (add_unique ss t)
      × Memᴰ t (add_unique ss t)
      × ((s : Text) → Memᴰ s ss → Memᴰ s (add_unique ss t))
added ss t unique = elim (Bool-cases (text_elem t ss)) [
  | inl yes_ ↦ rw yes_ (unique, (text_elem_iff t ss).0 yes_, λ s m. m)
  | inr no_ ↦ rw no_ (
    append_IsUnique ss t unique
        (not_listed t ss (λ m. absurd (cc (no_, (text_elem_iff t ss).1 m)))),
    Memᴰ.append_right ss (Memᴰ.head refl),
    λ s m. Memᴰ.append_left (t ∷ []) m,
  )
]

abbrev Found : Dict (Ends Text) → Text → Type 0
Found streams_slots n = (ends : Ends Text) × (item n streams_slots ≡ ok ends)

collected :
    (streams_slots : Dict (Ends Text)) (names seen : List Text)
    → IsUnique seen
    → All (Found streams_slots) names
    → (slots : List Text) × (unique_slots_of streams_slots seen names ≡ ok slots)
      × IsUnique slots
      × ((s : Text) → Memᴰ s seen → Memᴰ s slots)
      × ((n : Text) (ends : Ends Text)
          → Memᴰ n names
          → item n streams_slots ≡ ok ends
          → Memᴰ ends.src slots × Memᴰ ends.dest slots)
unfolding unique_slots_of
collected streams_slots [] seen unique _ =
    (seen, refl, unique, λ s m. m, λ n ends m e. absurd (Memᴰ.not-nil m))
collected streams_slots (n ∷ names) seen unique ((ends, found), all_found) =
    let (unique_src, src_in, kept) = added seen ends.src unique in
    let (unique_both, dest_in, kept_both) = added (add_unique seen ends.src) ends.dest unique_src in
    let (slots, made, unique_all, keeps, listed) =
      collected streams_slots names _ unique_both all_found in
    (
      slots,
      rw (found, made) refl,
      unique_all,
      λ s m. keeps s (kept_both s (kept s m)),
      λ k ends' m e. elim (Memᴰ.cases_cons m) [
        | inl same ↦
            let ends_are : ends ≡ ends' =
              ok_inj (sym found ∙ ap (λ j. item j streams_slots) (sym same) ∙ e) in
            subst (λ en. Memᴰ en.src slots × Memᴰ en.dest slots) ends_are
              (keeps ends.src (kept_both ends.src src_in), keeps ends.dest dest_in)
        | inr later ↦ listed k ends' later e
      ],
    )

-- For streams whose slots are all given, the slots that export_noc_constraint creates areas for are
-- pairwise different, and the source and the destination of each of the streams are among them.
pub unique_slots_of-covers :
    (streams_slots : Dict (Ends Text)) (names : List Text) (n : Text) (ends : Ends Text)
    → All (λ k. (e : Ends Text) × (item k streams_slots ≡ ok e)) names
    → Memᴰ n names
    → item n streams_slots ≡ ok ends
    → Returns
        (λ slots. IsUnique slots × Memᴰ ends.src slots × Memᴰ ends.dest slots)
        (unique_slots_of streams_slots [] names)
unique_slots_of-covers streams_slots names n ends found m e =
    let (slots, made, unique, _, listed) = collected streams_slots names [] tt found in
    let (src_in, dest_in) = listed n ends m e in (slots, made, (unique, src_in, dest_in))
