-- ===== src/Ir/Parse.antt =====
-- The functions that read the IR: parse_inter_slot, parse_floorplan, parse_fifo_params and
-- parse_fifo_rs_routes. `evaluate` is Python's `eval` on the text of an expression.
use rapidstream_noc.Common.{
  Bool, true, false, List, [], ◌∷◌, ◌++◌, Option, none, some, Result, ok, err, ◌>>=◌, index_error,
  assertion_error, not_implemented, if◌then◌else◌, ◌==◌, ◌||◌, guard, ◌>>◌, Dict, lookup, set_item,
  item, length, ℤ, pred, str_of_int,
}
use rapidstream_noc.Common.Text.{Text, text_eq, codes, contains, split}
use rapidstream_noc.Common.Text.Edit.{ends_with, remove_suffix, strip_quotes, drop}
use rapidstream_noc.Device.{Ends}
use rapidstream_noc.Ir.{
  Expr, Entry, Inst, Module, Ir, parse_mod, parse_top_mod, find_expr, find_repr,
}
use rapidstream_noc.Ir.Regions.{head_region, tail_region}

-- `"".join(item["repr"] for item in expr)`.
abbrev pub joined : Expr → Text
joined [] = []
joined (e ∷ es) = e.repr ++ joined es

-- The three dictionaries of parse_inter_slot.
pub record Pipelines : Type 0 where
  pub src : Dict Text
  pub dest : Dict Text
  pub widths : Dict ℤ

abbrev pub region_of : Inst → Text
region_of sub_mod = strip_quotes (find_repr sub_mod.parameters (codes "__REGION"))

-- The loop over the ends of `src`.
unfoldable pub pair_slots : Dict Text → Dict Text → Dict (Ends Text) → Result (Dict (Ends Text))
unfolding set_item
pair_slots [] dest slots = ok slots
pair_slots ((inst, src_slot) ∷ src) dest slots = do
  dest_slot ← item inst dest
  pair_slots src dest (set_item inst (record { src = src_slot; dest = dest_slot }) slots)

module _ (evaluate : Text → Result ℤ) where
  unfoldable pub eval_id_expr : Expr → Result ℤ
  eval_id_expr expr = evaluate (joined expr)

  unfoldable pub inter_slot_round : Inst → Pipelines → Result Pipelines
  unfolding eval_id_expr set_item
  inter_slot_round sub_mod p =
      if ends_with sub_mod.name (codes "_PP_HEAD")
      then (do
        width ← eval_id_expr (find_expr sub_mod.parameters (codes "DATA_WIDTH"))
        ok (record {
          src = set_item (remove_suffix sub_mod.name (codes "_PP_HEAD")) (region_of sub_mod) p.src;
          dest = p.dest;
          widths = set_item (remove_suffix sub_mod.name (codes "_PP_HEAD")) (pred width) p.widths;
        }))
      else if ends_with sub_mod.name (codes "_PP_TAIL")
      then ok (record {
        src = p.src;
        dest = set_item (remove_suffix sub_mod.name (codes "_PP_TAIL")) (region_of sub_mod) p.dest;
        widths = p.widths;
      })
      else ok p

  unfoldable pub inter_slot_rounds : List Inst → Pipelines → Result Pipelines
  unfolding inter_slot_round
  inter_slot_rounds [] p = ok p
  inter_slot_rounds (sub_mod ∷ submodules) p =
      inter_slot_round sub_mod p >>= λ q. inter_slot_rounds submodules q

  unfoldable pub parse_inter_slot : Module → Result (Dict (Ends Text) × Dict ℤ)
  unfolding inter_slot_rounds pair_slots
  parse_inter_slot ir = do
    p ← inter_slot_rounds ir.submodules (record { src = []; dest = []; widths = [] })
    guard (length p.src == length p.dest) assertion_error
        >> (pair_slots p.src p.dest [] >>= λ slots. ok (slots, p.widths))

  -- The branches of parse_fifo_params for one parameter.
  unfoldable pub fifo_param : Entry → Dict Text → Result (Dict Text)
  unfolding eval_id_expr set_item
  fifo_param p params =
      if text_eq p.name (codes "DEPTH")
      then (eval_id_expr p.expr >>= λ depth.
          ok (set_item (codes "DEPTH") (str_of_int depth) params))
      else if text_eq p.name head_region || text_eq p.name tail_region
      then (elim p.expr [
        | [] ↦ err index_error
        | e ∷ es ↦ ok (set_item p.name (strip_quotes e.repr) params)
      ])
      else if text_eq p.name (codes "DATA_WIDTH")
      then (eval_id_expr p.expr >>= λ width.
          ok (set_item (codes "DATA_WIDTH") (str_of_int (pred width)) params))
      else ok params

  unfoldable pub fifo_params : List Entry → Dict Text → Result (Dict Text)
  unfolding fifo_param
  fifo_params [] params = ok params
  fifo_params (p ∷ ps) params = fifo_param p params >>= λ more. fifo_params ps more

  unfoldable pub parse_fifo_params : Inst → Result (Dict Text)
  unfolding fifo_params
  parse_fifo_params fifo = fifo_params fifo.parameters []

-- The region of one submodule.
unfoldable pub floorplan_slot : Inst → Result Text
floorplan_slot sub_mod = elim sub_mod.floorplan_region [
  | some region ↦ ok region
  | none ↦ elim (find_repr sub_mod.parameters (codes "__REGION")) [
    | [] ↦ err not_implemented
    | c ∷ region ↦ ok (strip_quotes (c ∷ region))
  ]
]

-- The loop over one list of submodules.
unfoldable pub floorplan_insts_of : Text → List Inst → Dict Text → Result (Dict Text)
unfolding floorplan_slot set_item
floorplan_insts_of parent [] insts = ok insts
floorplan_insts_of parent (sub_mod ∷ mods) insts = do
  slot ← floorplan_slot sub_mod
  floorplan_insts_of parent mods (set_item (parent ++ sub_mod.name) slot insts)

-- `insts`, for the top module and then the grouped module.
unfoldable pub floorplan_insts : Ir → Text → Result (Dict Text)
unfolding floorplan_insts_of
floorplan_insts ir grouped_mod_name = do
  top ← parse_top_mod ir
  insts ← floorplan_insts_of (codes "inst/") top.submodules []
  elim (parse_mod ir.module_definitions grouped_mod_name) [
    | none ↦ ok insts
    | some grouped_mod_ir ↦
        floorplan_insts_of (codes "inst/" ++ grouped_mod_name ++ codes "_0/")
          grouped_mod_ir.submodules insts
  ]

abbrev pub or_empty {ℓ} : {A : Type ℓ} → Option (List A) → List A
or_empty none = []
or_empty (some as_) = as_

-- `d[key].append(a)`, for a key that may be new.
unfoldable pub append_at {ℓ} : {A : Type ℓ} → Text → A → Dict (List A) → Dict (List A)
unfolding lookup set_item
append_at key a d = set_item key (or_empty (lookup key d) ++ a ∷ []) d

-- `{instance: slot}` to `{slot: [instances]}`.
unfoldable pub by_slot : Dict Text → Dict (List Text) → Dict (List Text)
unfolding append_at
by_slot [] floorplan = floorplan
by_slot ((sub_mod_name, slot) ∷ insts) floorplan =
    by_slot insts (append_at slot sub_mod_name floorplan)

unfoldable pub parse_floorplan : Ir → Text → Result (Dict (List Text))
unfolding floorplan_insts by_slot
parse_floorplan ir grouped_mod_name =
    floorplan_insts ir grouped_mod_name >>= λ insts. ok (by_slot insts [])

-- The loop over the pragmas of one FIFO.
abbrev pub route_pragmas : Text → List (Text × Text) → Dict (List Text) → Dict (List Text)
route_pragmas fifo_name [] rs_routes = rs_routes
route_pragmas fifo_name ((key, val) ∷ pragmas) rs_routes = route_pragmas fifo_name pragmas (
    if text_eq key (codes "RS_ROUTE")
    then set_item fifo_name (split (strip_quotes val) (codes ",")) rs_routes
    else rs_routes)

abbrev pub has_key {ℓ} : {V : Type ℓ} → Text → Dict V → Bool
has_key key d = elim (lookup key d) [ none ↦ false | some v ↦ true ]

unfoldable pub fifo_rs_routes : List Inst → Dict (List Text) → Result (Dict (List Text))
fifo_rs_routes [] rs_routes = ok rs_routes
fifo_rs_routes (fifo ∷ submodules) rs_routes =
    let fifo_name = drop 4 fifo.name in
    let found = route_pragmas fifo_name fifo.pragmas rs_routes in
    let other = fifo_rs_routes submodules rs_routes in
    let rest = fifo_rs_routes submodules found in
    if contains fifo.name (codes "nmu_")
    then guard (has_key fifo_name found) assertion_error >> rest
    else other

unfoldable pub parse_fifo_rs_routes : Module → Result (Dict (List Text))
unfolding fifo_rs_routes
parse_fifo_rs_routes grouped_mod_ir = fifo_rs_routes grouped_mod_ir.submodules []
