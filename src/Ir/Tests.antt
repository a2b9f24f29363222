-- ===== src/Ir/Tests.antt =====
-- A small design: the pipeline `p` from one slot to the next, and a NMU and a NSU FIFO.
use mathlib.Core.List.{reverse}
use rapidstream_noc.Common.{
  ℕ, ◌<◌, ◌^◌, ◌≡◌, refl, true, false, List, [], ◌∷◌, ◌++◌, Option, none, some, Result, ok, err,
  Returns, Dict, lookup, set_item, map_each, arith, ℤ, pos, ◌&&◌, if◌then◌else◌, item,
}
use rapidstream_noc.Common.Text.{Text, text_eq, codes, contains, starts_with, int_of, int_acc}
use rapidstream_noc.Common.Text.Edit.{
  remove_from, replace_away, strip_quotes, ends_with, remove_suffix,
}
use rapidstream_noc.Ir.{
  Entry, Inst, Module, Ir, create_lit_expr, find_expr, find_repr, set_expr, parse_mod,
  parse_top_mod,
}
use rapidstream_noc.Ir.Regions.{head_region, tail_region, body_region}
use rapidstream_noc.Ir.Placed.{quoted_at}
use rapidstream_noc.Ir.Return.{slot_of_body, get_credit_return_regions-Placed}
use rapidstream_noc.Ir.Regions.{get_credit_return_regions}
use rapidstream_noc.Ir.Parse.{
  floorplan_insts, floorplan_insts_of, floorplan_slot, parse_floorplan, Pipelines, inter_slot_round,
  inter_slot_rounds, parse_inter_slot, eval_id_expr,
}
use rapidstream_noc.Ir.Floorplan.{members, names_in, parse_floorplan-inverts}
use rapidstream_noc.Ir.Ends.{last_named, region_in, width_in}
use rapidstream_noc.Ir.Pairs.{both, parse_inter_slot-pairs}
use rapidstream_noc.Ir.Update.{Round, cc_master_round, mastered, add_cc_master, bit_length, bits}
use rapidstream_noc.Ir.Fits.{AddsController, controllers-fit}
use rapidstream_noc.Ir.Slave.{cc_slave_round, pipelined}
use rapidstream_noc.Ir.Growth.{after_rounds, add_cc_master-once}
use rapidstream_noc.Ir.Connected.{
  has_name, find_expr-set_expr, params_of, params_of-conserved, pipelined-connects, slave_of,
}
use rapidstream_noc.Credit.System.{start, reset}
use rapidstream_noc.Credit.Conserved.{credits}

abbrev route : List Text
route =
    codes "SLOT_X0Y1_TO_SLOT_X0Y1"
    ∷ codes "SLOT_X0Y0_TO_SLOT_X0Y0"
    ∷ codes "SLOT_X1Y0_TO_SLOT_X1Y0"
    ∷ []

get_credit_return_regions-Placed_example :
    Returns
      (λ d.
        (lookup head_region d ≡ quoted_at (reverse route) 0)
        × (lookup tail_region d ≡ quoted_at (reverse route) 2)
        × (lookup (body_region 1) d ≡ slot_of_body (reverse route) 1))
      (get_credit_return_regions route)
get_credit_return_regions-Placed_example = get_credit_return_regions-Placed route 1 (omega arith)

abbrev entry : Text → Text → Entry
entry name val = record { name = name; expr = create_lit_expr val }

abbrev inst : Text → List Entry → List Entry → Option Text → Inst
inst name connections parameters region = record {
  name = name;
  module_ = codes "m";
  connections = connections;
  parameters = parameters;
  floorplan_region = region;
  pragmas = [];
}

abbrev pub p_head : Inst
p_head =
    inst (codes "p_PP_HEAD") []
      (entry (codes "__REGION") (codes "A") ∷ entry (codes "DATA_WIDTH") (codes "33") ∷ []) none

abbrev pub p_tail : Inst
p_tail = inst (codes "p_PP_TAIL") [] (entry (codes "__REGION") (codes "B") ∷ []) none

abbrev fifo : Inst
fifo =
    inst (codes "nmu_f")
      (entry (codes "if_read") (codes "r")
        ∷ entry (codes "credit_i") (codes "c")
        ∷ entry (codes "credit_valid_i") (codes "v")
        ∷ [])
      (entry head_region (codes "A") ∷ []) (some (codes "A"))

abbrev top : Module
top = record {
  name = codes "top";
  parameters = [];
  ports = [];
  wires = [];
  submodules = p_head ∷ p_tail ∷ fifo ∷ [];
}

abbrev design : Ir
design = record { top_name = codes "top"; module_definitions = top ∷ [] }

abbrev insts : Dict Text
insts =
    (codes "inst/p_PP_HEAD", codes "A")
    ∷ (codes "inst/p_PP_TAIL", codes "B")
    ∷ (codes "inst/nmu_f", codes "A")
    ∷ []

design-insts : floorplan_insts design (codes "g") ≡ ok insts
unfolding floorplan_insts floorplan_insts_of floorplan_slot parse_top_mod parse_mod text_eq
    find_repr find_expr set_item strip_quotes
design-insts = refl

parse_floorplan-inverts_example :
    Returns
      (λ floorplan. members (codes "A") floorplan ≡ names_in (codes "A") insts)
      (parse_floorplan design (codes "g"))
parse_floorplan-inverts_example =
    parse_floorplan-inverts design (codes "g") insts (codes "A") design-insts

abbrev pipelines : Pipelines
pipelines = record {
  src = (codes "p", codes "A") ∷ [];
  dest = (codes "p", codes "B") ∷ [];
  widths = (codes "p", pos 32) ∷ [];
}

-- An `eval` that reads a number.
abbrev read_number : Text → Result ℤ
read_number s = elim (int_of s) [ ok n ↦ ok (pos n) | err raised ↦ err raised ]

top-pipelines :
    inter_slot_rounds read_number top.submodules (record { src = []; dest = []; widths = [] })
    ≡ ok pipelines
unfolding inter_slot_rounds inter_slot_round eval_id_expr ends_with remove_suffix text_eq find_repr
    find_expr set_item strip_quotes int_of int_acc
top-pipelines = refl

pipelines-AllPaired : Returns (λ _. Unit {0}) (item (codes "p") pipelines.dest)
unfolding lookup text_eq
pipelines-AllPaired = (codes "B", refl, tt)

parse_inter_slot-pairs_example :
    Returns
      (λ (slots, widths).
        (lookup (codes "p") slots
          ≡ both
              (last_named region_in (codes "p_PP_HEAD") top.submodules)
              (last_named region_in (codes "p_PP_TAIL") top.submodules))
        × (lookup (codes "p") widths
            ≡ last_named (width_in read_number) (codes "p_PP_HEAD") top.submodules))
      (parse_inter_slot read_number top)
parse_inter_slot-pairs_example =
    parse_inter_slot-pairs read_number top pipelines (codes "p") top-pipelines refl
      (pipelines-AllPaired, tt)

abbrev none_left : Inst → Round
none_left i = record { fifo = i; added = []; new_wires = [] }

abbrev rounds : List Round
rounds = none_left p_head ∷ none_left p_tail ∷ mastered (codes "15") fifo 15 ∷ []

top-rounds : map_each top.submodules (cc_master_round (codes "15")) ≡ ok rounds
unfolding map_each cc_master_round contains starts_with int_of int_acc
top-rounds = refl

top_plain :
    contains (replace_away (codes "nmu_f") (codes "nmu_") ++ codes "_cc_master") (codes "nmu_")
    ≡ false
unfolding contains starts_with replace_away remove_from
top_plain = refl

other_plain :
    (contains (replace_away (codes "p_PP_HEAD") (codes "nmu_") ++ codes "_cc_master") (codes "nmu_")
      ≡ false)
    × (contains
          (replace_away (codes "p_PP_TAIL") (codes "nmu_") ++ codes "_cc_master")
          (codes "nmu_")
        ≡ false)
unfolding contains starts_with replace_away remove_from
other_plain = (refl, refl)

add_cc_master-once_example : add_cc_master 7 top (codes "15") ≡ some (ok (after_rounds top rounds))
add_cc_master-once_example =
    add_cc_master-once 7 top (codes "15") rounds (other_plain.0, (other_plain.1, (top_plain, tt)))
      top-rounds (omega arith)

find_expr-set_expr_run :
    find_expr (set_expr fifo.connections (codes "if_read") []) (codes "if_read") ≡ (
      if text_eq (codes "if_read") (codes "if_read") && has_name (codes "if_read") fifo.connections
      then []
      else find_expr fifo.connections (codes "if_read"))
find_expr-set_expr_run = find_expr-set_expr fifo.connections (codes "if_read") (codes "if_read") []

fifteen : bit_length 15 ≡ 4
unfolding bit_length bits
fifteen = refl

params_of-conserved_run : credits (reset (params_of 15 5)) ≡ 15
params_of-conserved_run = params_of-conserved 15 5 (reset (params_of 15 5)) start

abbrev named : Text → Inst
named name = record {
  name = name;
  module_ = codes "fifo";
  connections = [];
  parameters = [];
  floorplan_region = none;
  pragmas = [];
}

nmu_and_nsu :
    (contains (named (codes "nmu_f")).name (codes "nmu_") ≡ true)
    × (contains (named (codes "nsu_f")).name (codes "nsu_") ≡ true)
unfolding contains starts_with
nmu_and_nsu = (refl, refl)

read_credit : int_of (codes "15") ≡ ok 15
unfolding int_of int_acc
read_credit = refl

controllers-fit_example :
    (width : ℕ) × (15 < 2 ^ width)
    × Returns
        (λ r. AddsController r (codes "credit_control_master") (codes "15") width)
        (cc_master_round (codes "15") (named (codes "nmu_f")))
    × Returns
        (λ r. AddsController r (codes "credit_control_slave") (codes "15") width)
        (cc_slave_round (codes "15") (codes "5") (named (codes "nsu_f")))
controllers-fit_example =
    controllers-fit (codes "15") (codes "5") (named (codes "nmu_f")) (named (codes "nsu_f")) 15
      nmu_and_nsu.0 nmu_and_nsu.1 read_credit

fifo_names :
    (has_name (codes "credit_i") fifo.connections ≡ true)
    × (has_name (codes "credit_valid_i") fifo.connections ≡ true)
unfolding text_eq
fifo_names = (refl, refl)

abbrev made : Round
made = pipelined fifo route [] 4

abbrev slave_f : Inst
slave_f = slave_of fifo (codes "B") (codes "15") (codes "4") (codes "5") (codes "r") (codes "e")

pipelined-connects_example :
    (pipe : Inst) × (made.added ≡ pipe ∷ [])
    × (find_expr made.fifo.connections (codes "credit_i")
        ≡ find_expr pipe.connections (codes "if_dout"))
    × (find_expr made.fifo.connections (codes "credit_valid_i")
        ≡ find_expr pipe.connections (codes "if_empty_n"))
    × (find_expr pipe.connections (codes "if_din")
        ≡ find_expr slave_f.connections (codes "credit_o"))
    × (find_expr pipe.connections (codes "if_write")
        ≡ find_expr slave_f.connections (codes "credit_valid_o"))
pipelined-connects_example =
    pipelined-connects fifo route [] 4 (codes "B") (codes "15") (codes "4") (codes "5") (codes "r")
      (codes "e") fifo_names.0 fifo_names.1
