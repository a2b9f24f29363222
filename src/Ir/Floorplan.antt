-- ===== src/Ir/Floorplan.antt =====
-- parse_floorplan turns the regions of the instances into the instances of the regions.
use rapidstream_noc.Common.{
  ◌≡◌, ◌∙◌, refl, ap, sym, List, [], ◌∷◌, ◌++◌, ok, Returns, Dict, lookup, lookup-set_item,
  if◌then◌else◌, Bool-cases, inl, inr,
}
use mathlib.Core.List.{append_assoc, append-nil}
use rapidstream_noc.Common.Text.{Text, text_eq}
use rapidstream_noc.Common.Text.Equality.{text_eq_iff}
use rapidstream_noc.Ir.{Ir}
use rapidstream_noc.Ir.Parse.{or_empty, append_at, by_slot, floorplan_insts, parse_floorplan}

-- The instances that a floorplan gives a slot.
abbrev pub members : Text → Dict (List Text) → List Text
members slot floorplan = or_empty (lookup slot floorplan)

-- The instances of a slot, in the order of the dictionary of instances.
abbrev pub names_in : Text → Dict Text → List Text
names_in slot [] = []
names_in slot ((name, s) ∷ insts) =
    let rest = names_in slot insts in if text_eq slot s then name ∷ rest else rest

members-append_at :
    (slot s : Text) (name : Text) (floorplan : Dict (List Text))
    → members slot (append_at s name floorplan)
      ≡ members slot floorplan ++ (if text_eq slot s then name ∷ [] else [])
unfolding append_at
members-append_at slot s name floorplan =
    let after =
      ap (λ found. or_empty found)
        (lookup-set_item slot s (members s floorplan ++ name ∷ []) floorplan) in
    elim (Bool-cases (text_eq slot s)) [
      | inl e ↦
          (let same : slot ≡ s = (text_eq_iff slot s).0 e in
            after ∙ rw e (ap (λ t. members t floorplan ++ name ∷ []) (sym same)))
      | inr e ↦ after ∙ rw e (sym (append-nil (members slot floorplan)))
    ]

members-by_slot :
    (slot : Text) (insts : Dict Text) (floorplan : Dict (List Text))
    → members slot (by_slot insts floorplan) ≡ members slot floorplan ++ names_in slot insts
unfolding by_slot
members-by_slot slot [] floorplan = sym (append-nil (members slot floorplan))
members-by_slot slot ((name, s) ∷ insts) floorplan =
    let rest = members-by_slot slot insts (append_at s name floorplan) in
    let here = members-append_at slot s name floorplan in
    elim (Bool-cases (text_eq slot s)) [
      | inl e ↦
          rw (rest, here, e)
            (append_assoc (members slot floorplan) (name ∷ []) (names_in slot insts))
      | inr e ↦ rw (rest, here, e) (append_assoc (members slot floorplan) [] (names_in slot insts))
    ]

-- When the regions of the instances can be read, parse_floorplan returns, and it lists under every
-- slot exactly the instances whose region that slot is, in the order in which they were read.
pub parse_floorplan-inverts :
    (ir : Ir) (grouped_mod_name : Text) (insts : Dict Text) (slot : Text)
    → floorplan_insts ir grouped_mod_name ≡ ok insts
    → Returns
        (λ floorplan. members slot floorplan ≡ names_in slot insts)
        (parse_floorplan ir grouped_mod_name)
unfolding parse_floorplan
parse_floorplan-inverts ir grouped_mod_name insts slot e =
    (by_slot insts [], rw e refl, members-by_slot slot insts [])
