-- ===== src/Ir/Pairs.antt =====
-- parse_inter_slot pairs the head and the tail of each pipeline.
use mathlib.Core.Path.{subst}
use rapidstream_noc.Common.{
  ◌++◌, ==_refl, All, ◌≡◌, ◌∙◌, refl, ap, sym, List, [], ◌∷◌, Option, none, some, ok, Result,
  Returns, Dict, lookup, set_item, lookup-set_item, Bool-cases, inl, inr, length, IsDict,
  set_item-IsDict, item, item-eq-ok, pred, >>=-eq-ok, ℤ, ok_inj,
}
use rapidstream_noc.Common.Text.{Text, text_eq, codes}
use rapidstream_noc.Common.Text.Equality.{text_eq_iff}
use rapidstream_noc.Common.Text.Edit.{ends_with, remove_suffix}
use rapidstream_noc.Device.{Ends}
use rapidstream_noc.Ir.{Module, Inst, find_expr}
use rapidstream_noc.Ir.Ends.{over-none, last_named, region_in, width_in, inter_slot_rounds-Reads}
use rapidstream_noc.Ir.Parse.{
  Pipelines, region_of, pair_slots, inter_slot_round, inter_slot_rounds, parse_inter_slot,
  eval_id_expr,
}

-- The ends of a pipeline that has a head and a tail.
abbrev pub both : Option Text → Option Text → Option (Ends Text)
both (some s) (some d) = some (record { src = s; dest = d })
both _ _ = none

-- The ends that the loop adds, over those that are there before.
abbrev pub paired : Option Text → Option Text → Option (Ends Text) → Option (Ends Text)
paired none d before = before
paired (some s) d before = both (some s) d

paired-both : (s d : Option Text) → paired s d none ≡ both s d
paired-both none none = refl
paired-both none (some d) = refl
paired-both (some s) d = refl

pair_slots-paired :
    (src dest : Dict Text) (slots : Dict (Ends Text)) {done : Dict (Ends Text)} (name : Text)
    → IsDict src
    → pair_slots src dest slots ≡ ok done
    → lookup name done ≡ paired (lookup name src) (lookup name dest) (lookup name slots)
unfolding pair_slots lookup
pair_slots-paired [] dest slots name whole e = ap (λ d. lookup name d) (sym (ok_inj e))
pair_slots-paired ((inst, s) ∷ src) dest slots {done} name (fresh, whole) e =
    let (d, found, rest) =
      >>=-eq-ok (item inst dest)
        (λ d. pair_slots src dest (set_item inst (record { src = s; dest = d }) slots)) e in
    let later =
      pair_slots-paired src dest (set_item inst (record { src = s; dest = d }) slots) name whole
        rest in
    let here = lookup-set_item name inst (record { src = s; dest = d }) slots in
    let at_inst = item-eq-ok inst dest found in
    elim (Bool-cases (text_eq name inst)) [
      | inl e ↦
          (let same : inst ≡ name = sym ((text_eq_iff name inst).0 e) in
            let absent : lookup name src ≡ none = subst (λ t. lookup t src ≡ none) same fresh in
            let tail_ : lookup name dest ≡ some d =
              subst (λ t. lookup t dest ≡ some d) same at_inst in
            later ∙ rw (absent, here, e, tail_) refl)
      | inr n ↦ later ∙ rw (here, n) refl
    ]

-- Every head has a tail.
abbrev pub AllPaired : Dict Text → Dict Text → Type 0
AllPaired src dest = All (λ (inst, s). Returns (λ _. Unit {0}) (item inst dest)) src

pair_slots-Returns :
    (src dest : Dict Text) (slots : Dict (Ends Text))
    → AllPaired src dest
    → Returns (λ _. Unit {0}) (pair_slots src dest slots)
unfolding pair_slots
pair_slots-Returns [] dest slots h = (slots, refl, tt)
pair_slots-Returns ((inst, s) ∷ src) dest slots ((d, e, _), h) =
    rw e (pair_slots-Returns src dest (set_item inst (record { src = s; dest = d }) slots) h)

module _ (evaluate : Text → Result ℤ) where
  inter_slot_round-IsDict :
      (sub_mod : Inst) (p q : Pipelines)
      → IsDict p.src
      → inter_slot_round evaluate sub_mod p ≡ ok q
      → IsDict q.src
  unfolding inter_slot_round
  inter_slot_round-IsDict sub_mod p q whole e =
      elim (Bool-cases (ends_with sub_mod.name (codes "_PP_HEAD"))) [
        | inl h ↦
            (let name = remove_suffix sub_mod.name (codes "_PP_HEAD") in
              let (width, read, done) =
                >>=-eq-ok
                  (eval_id_expr evaluate (find_expr sub_mod.parameters (codes "DATA_WIDTH")))
                  (λ width. ok (record {
                    src = set_item name (region_of sub_mod) p.src;
                    dest = p.dest;
                    widths = set_item name (pred width) p.widths;
                  }))
                  (rw h at e) in
              subst (λ r. IsDict r.src) (ok_inj done)
                (set_item-IsDict name (region_of sub_mod) p.src whole))
        | inr h ↦ elim (Bool-cases (ends_with sub_mod.name (codes "_PP_TAIL"))) [
          | inl t ↦
              (let done : ok (record {
                src = p.src;
                dest =
                    set_item (remove_suffix sub_mod.name (codes "_PP_TAIL")) (region_of sub_mod)
                      p.dest;
                widths = p.widths;
              })
                    ≡ ok q =
                  rw (h, t) at e in
                subst (λ r. IsDict r.src) (ok_inj done) whole)
          | inr t ↦
              (let done : ok p ≡ ok q = rw (h, t) at e in
                subst (λ r. IsDict r.src) (ok_inj done) whole)
        ]
      ]

  inter_slot_rounds-IsDict :
      (submodules : List Inst) (p q : Pipelines)
      → IsDict p.src
      → inter_slot_rounds evaluate submodules p ≡ ok q
      → IsDict q.src
  unfolding inter_slot_rounds
  inter_slot_rounds-IsDict [] p q whole e = subst (λ r. IsDict r.src) (ok_inj e) whole
  inter_slot_rounds-IsDict (sub_mod ∷ submodules) p q whole e =
      let (r, one, rest) =
        >>=-eq-ok (inter_slot_round evaluate sub_mod p)
          (λ q. inter_slot_rounds evaluate submodules q) e in
      inter_slot_rounds-IsDict submodules r q (inter_slot_round-IsDict sub_mod p r whole one) rest

  -- When the submodules can be read, there are as many heads as tails, and every head has a tail of
  -- its name, parse_inter_slot returns; under each name it lists as source the region of the last
  -- submodule with this name and `_PP_HEAD`, as destination the region of the last one with the name and
  -- `_PP_TAIL`, and nothing where no submodule is such a head; and as width the value of the head's
  -- DATA_WIDTH less one.
  pub parse_inter_slot-pairs :
      (ir : Module) (p : Pipelines) (name : Text)
      → inter_slot_rounds evaluate ir.submodules (record { src = []; dest = []; widths = [] })
        ≡ ok p
      → length p.src ≡ length p.dest
      → AllPaired p.src p.dest
      → Returns
          (λ (slots, widths).
            (lookup name slots
              ≡ both
                  (last_named region_in (name ++ codes "_PP_HEAD") ir.submodules)
                  (last_named region_in (name ++ codes "_PP_TAIL") ir.submodules))
            × (lookup name widths
                ≡ last_named (width_in evaluate) (name ++ codes "_PP_HEAD") ir.submodules))
          (parse_inter_slot evaluate ir)
  unfolding parse_inter_slot lookup
  parse_inter_slot-pairs ir p name read as_many tails =
      let whole =
        inter_slot_rounds-IsDict ir.submodules (record { src = []; dest = []; widths = [] }) p tt
          read in
      let reads =
        inter_slot_rounds-Reads evaluate ir.submodules (record { src = []; dest = []; widths = [] })
          p name read in
      let (slots, done, _) = pair_slots-Returns p.src p.dest [] tails in
      let paired_ = pair_slots-paired p.src p.dest [] name whole done in
      (
        (slots, p.widths),
        rw (read, ==_refl (length p.src) (length p.dest) as_many, done) refl,
        (
          paired_
              ∙ paired-both (lookup name p.src) (lookup name p.dest)
              ∙ ap (λ s. both s (lookup name p.dest)) (reads.src_read ∙ over-none _)
              ∙ ap (λ d. both (last_named region_in (name ++ codes "_PP_HEAD") ir.submodules) d)
                  (reads.dest_read ∙ over-none _),
          reads.widths_read ∙ over-none _,
        ),
      )
