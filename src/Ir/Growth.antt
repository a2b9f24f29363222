-- ===== src/Ir/Growth.antt =====
-- add_cc_master and add_cc_slave end, although they extend the list that they iterate over.
use mathlib.Core.Path.{ap₂, subst}
use mathlib.Core.List.{append_assoc, append-nil}
use rapidstream_noc.Common.{
  ℕ, zero, suc, ◌+◌, ◌*◌, ◌≤◌, ◌<◌, ◌≡◌, ◌∙◌, refl, sym, ap, Bool-cases, inl, inr, List, [], ◌∷◌,
  ◌++◌, map, Option, some, Result, ok, ◌>>=◌, >>=-eq-ok, ok_inj, All, All-append, map_each, length,
  length-append, arith, false, if◌then◌else◌,
}
use rapidstream_noc.Common.Text.{Text, contains, codes, int_of}
use rapidstream_noc.Common.Text.Edit.{replace_away}
use rapidstream_noc.Ir.{create_module_inst_ir, Inst, Module, Wire}
use rapidstream_noc.Ir.Slave.{slaved, cc_slave_inst, cc_slave_round, add_cc_slave}
use rapidstream_noc.Ir.Update.{
  cc_master_inst, Round, untouched, Parts, growing_loop, mastered, cc_master_round, add_cc_master,
}

abbrev pub all_added : List Round → List Inst
all_added [] = []
all_added (r ∷ rs) = r.added ++ all_added rs

abbrev pub all_wires : List Round → List Wire
all_wires [] = []
all_wires (r ∷ rs) = r.new_wires ++ all_wires rs

-- The submodules and wires after one round for each submodule.
abbrev pub after_rounds : Module → List Round → Parts
after_rounds grouped_mod_ir rs = record {
  submodules = map (λ r. r.fifo) rs ++ all_added rs;
  wires = grouped_mod_ir.wires ++ all_wires rs;
}

abbrev ended : List Inst → List Wire → Option (Result Parts)
ended submodules wires = some (ok (record { submodules = submodules; wires = wires }))

module _ (body : Inst → Result Round) where
  -- A submodule that the loop leaves as it is.
  abbrev pub Idle : Inst → Type 0
  Idle i = body i ≡ ok (untouched i)

  growing_loop-step :
      (f : ℕ) (done todo : List Inst) (wires : List Wire) (fifo : Inst) (r : Round)
      → body fifo ≡ ok r
      → growing_loop body (suc f) done (fifo ∷ todo) wires
        ≡ growing_loop body f (done ++ r.fifo ∷ []) (todo ++ r.added) (wires ++ r.new_wires)
  unfolding growing_loop
  growing_loop-step f done todo wires fifo r e = rw (growing_loop, e) refl

  Idle-loop :
      (fuel : ℕ) (done todo : List Inst) (wires : List Wire)
      → All Idle todo
      → length todo < fuel
      → growing_loop body fuel done todo wires ≡ ended (done ++ todo) wires
  unfolding growing_loop
  Idle-loop zero done todo wires idle enough = let never : ⊥ = omega arith in elim never [ ]
  Idle-loop (suc f) done [] wires idle enough = ap (λ l. ended l wires) (sym (append-nil done))
  Idle-loop (suc f) done (i ∷ todo) wires (here, idle) enough =
      let step = growing_loop-step f done todo wires i (untouched i) here in
      let rest = Idle-loop f (done ++ i ∷ []) todo wires idle (omega arith) in
      step
      ∙ ap₂ (λ t w. growing_loop body f (done ++ i ∷ []) t w) (append-nil todo) (append-nil wires)
      ∙ rest
      ∙ ap (λ l. ended l wires) (append_assoc done (i ∷ []) todo)

  module _ (P : Inst → Type 0)
      (fresh : (fifo : Inst) (r : Round)
        → P fifo
        → body fifo ≡ ok r
        → All Idle r.added × (length r.added ≤ 1)) where
    growing_loop-once :
        (fuel : ℕ) (done todo waiting : List Inst) (wires : List Wire) (rs : List Round)
        → All P todo
        → All Idle waiting
        → map_each todo body ≡ ok rs
        → length todo * 2 + length waiting < fuel
        → growing_loop body fuel done (todo ++ waiting) wires
          ≡ ended
              (done ++ (map (λ r. r.fifo) rs ++ (waiting ++ all_added rs)))
              (wires ++ all_wires rs)
    unfolding growing_loop map_each
    growing_loop-once fuel done [] waiting wires rs p idle each enough =
        let none_left =
          ap₂ (λ l w. ended (done ++ l) w) (sym (append-nil waiting)) (sym (append-nil wires)) in
        Idle-loop fuel done waiting wires idle (omega arith)
        ∙ subst
            (λ rs.
              ended (done ++ waiting) wires
              ≡ ended (done ++ (map (λ r. r.fifo) rs ++ (waiting ++ all_added rs)))
                  (wires ++ all_wires rs))
            (ok_inj each) none_left
    growing_loop-once zero done (fifo ∷ todo) waiting wires rs p idle each enough =
        let never : ⊥ = omega arith in elim never [ ]
    growing_loop-once (suc f) done (fifo ∷ todo) waiting wires rs (here, p) idle each enough =
        let (r, one, rest) =
          >>=-eq-ok (body fifo) (λ y. map_each todo body >>= λ ys. ok (y ∷ ys)) each in
        let (later, others, same) = >>=-eq-ok (map_each todo body) (λ ys. ok (r ∷ ys)) rest in
        let (new, few) = fresh fifo r here one in
        let n = length-append waiting r.added in
        let step = growing_loop-step f done (todo ++ waiting) wires fifo r one in
        let more =
          growing_loop-once f (done ++ r.fifo ∷ []) todo (waiting ++ r.added) (wires ++ r.new_wires)
            later p (All-append Idle waiting r.added idle new) others (omega arith) in
        let M = map (λ r. r.fifo) later in
        let A = all_added later in
        let reached : growing_loop body (suc f) done (fifo ∷ (todo ++ waiting)) wires
            ≡ ended (done ++ (map (λ r. r.fifo) (r ∷ later) ++ (waiting ++ all_added (r ∷ later))))
                (wires ++ all_wires (r ∷ later)) =
          step
          ∙ ap (λ t. growing_loop body f (done ++ r.fifo ∷ []) t (wires ++ r.new_wires))
              (append_assoc todo waiting r.added)
          ∙ more
          ∙ ap₂ ended
              (append_assoc done (r.fifo ∷ []) (M ++ ((waiting ++ r.added) ++ A))
                ∙ ap (λ t. done ++ r.fifo ∷ (M ++ t)) (append_assoc waiting r.added A))
              (append_assoc wires r.new_wires (all_wires later)) in
        subst
          (λ rs.
            growing_loop body (suc f) done (fifo ∷ (todo ++ waiting)) wires
            ≡ ended (done ++ (map (λ r. r.fifo) rs ++ (waiting ++ all_added rs)))
                (wires ++ all_wires rs))
          (ok_inj same) reached

-- A FIFO whose controller's name does not ask for a controller again.
abbrev pub IsPlain : Text → Text → Inst → Type 0
IsPlain key suffix fifo = contains (replace_away fifo.name key ++ suffix) key ≡ false

-- A round for the FIFOs whose name holds `key`, and what holds of it in both branches.
made_by :
    (key init_credit : Text) (made : Inst → ℕ → Round) (fifo : Inst) (r : Round)
    (Q : Round → Type 0)
    → ((credit : ℕ) → Q (made fifo credit))
    → Q (untouched fifo)
    → (if contains fifo.name key
        then (int_of init_credit >>= λ credit. ok (made fifo credit))
        else ok (untouched fifo))
      ≡ ok r
    → Q r
made_by key init_credit made fifo r Q chosen left e = elim (Bool-cases (contains fifo.name key)) [
  | inl h ↦
      (let (credit, read, done) =
          >>=-eq-ok (int_of init_credit) (λ credit. ok (made fifo credit)) (rw h at e) in
        subst Q (ok_inj done) (chosen credit))
  | inr h ↦ (let done : ok (untouched fifo) ≡ ok r = rw h at e in subst Q (ok_inj done) left)
]

cc_master_round-fresh :
    (init_credit : Text) (fifo : Inst) (r : Round)
    → IsPlain (codes "nmu_") (codes "_cc_master") fifo
    → cc_master_round init_credit fifo ≡ ok r
    → All (Idle (cc_master_round init_credit)) r.added × (length r.added ≤ 1)
unfolding cc_master_round mastered cc_master_inst create_module_inst_ir
cc_master_round-fresh init_credit fifo r plain e =
    made_by (codes "nmu_") init_credit (mastered init_credit) fifo r
      (λ r. All (Idle (cc_master_round init_credit)) r.added × (length r.added ≤ 1))
      (λ credit. ((rw plain refl, tt), omega arith)) (tt, omega arith) e

cc_slave_round-fresh :
    (init_credit timer_width : Text) (fifo : Inst) (r : Round)
    → IsPlain (codes "nsu_") (codes "_cc_slave") fifo
    → cc_slave_round init_credit timer_width fifo ≡ ok r
    → All (Idle (cc_slave_round init_credit timer_width)) r.added × (length r.added ≤ 1)
unfolding cc_slave_round slaved cc_slave_inst create_module_inst_ir
cc_slave_round-fresh init_credit timer_width fifo r plain e =
    made_by (codes "nsu_") init_credit (slaved init_credit timer_width) fifo r
      (λ r. All (Idle (cc_slave_round init_credit timer_width)) r.added × (length r.added ≤ 1))
      (λ credit. ((rw plain refl, tt), omega arith)) (tt, omega arith) e

-- When no name of a submodule holds `nmu_` still after `nmu_` is taken from it and `_cc_master` put
-- to it, add_cc_master ends within two rounds for each submodule and one more, and it returns what
-- one round over each of the submodules it was given returns.
pub add_cc_master-once :
    (fuel : ℕ) (grouped_mod_ir : Module) (init_credit : Text) (rs : List Round)
    → All (IsPlain (codes "nmu_") (codes "_cc_master")) grouped_mod_ir.submodules
    → map_each grouped_mod_ir.submodules (cc_master_round init_credit) ≡ ok rs
    → length grouped_mod_ir.submodules * 2 < fuel
    → add_cc_master fuel grouped_mod_ir init_credit ≡ some (ok (after_rounds grouped_mod_ir rs))
unfolding add_cc_master
add_cc_master-once fuel grouped_mod_ir init_credit rs plain each enough =
    ap (λ l. growing_loop (cc_master_round init_credit) fuel [] l grouped_mod_ir.wires)
      (sym (append-nil grouped_mod_ir.submodules))
    ∙ growing_loop-once (cc_master_round init_credit) (IsPlain (codes "nmu_") (codes "_cc_master"))
        (cc_master_round-fresh init_credit) fuel [] grouped_mod_ir.submodules []
        grouped_mod_ir.wires rs plain tt each (omega arith)

-- When no name of a submodule holds `nsu_` still after `nsu_` is taken from it and `_cc_slave` put to
-- it, add_cc_slave likewise ends, and returns what one round over each submodule returns.
pub add_cc_slave-once :
    (fuel : ℕ) (grouped_mod_ir : Module) (init_credit timer_width : Text) (rs : List Round)
    → All (IsPlain (codes "nsu_") (codes "_cc_slave")) grouped_mod_ir.submodules
    → map_each grouped_mod_ir.submodules (cc_slave_round init_credit timer_width) ≡ ok rs
    → length grouped_mod_ir.submodules * 2 < fuel
    → add_cc_slave fuel grouped_mod_ir init_credit timer_width
      ≡ some (ok (after_rounds grouped_mod_ir rs))
unfolding add_cc_slave
add_cc_slave-once fuel grouped_mod_ir init_credit timer_width rs plain each enough =
    ap (λ l. growing_loop (cc_slave_round init_credit timer_width) fuel [] l grouped_mod_ir.wires)
      (sym (append-nil grouped_mod_ir.submodules))
    ∙ growing_loop-once (cc_slave_round init_credit timer_width)
        (IsPlain (codes "nsu_") (codes "_cc_slave")) (cc_slave_round-fresh init_credit timer_width)
        fuel [] grouped_mod_ir.submodules [] grouped_mod_ir.wires rs plain tt each (omega arith)
