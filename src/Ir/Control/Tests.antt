-- ===== src/Ir/Control/Tests.antt =====
-- A top module over a grouped module, with no pair of slots.
use rapidstream_noc.Common.{
  none, map, lookup, List, false, err, length, ◌≡◌, refl, [], ◌∷◌, ◌++◌, some, ok, Returns,
}
use rapidstream_noc.Common.Text.{
  Text, codes, text_eq, split, split_from, starts_with, int_of, int_acc, str_of, digits,
}
use rapidstream_noc.Slots.{split_slot_region}
use rapidstream_noc.Ir.Update.{bit_length, bits}
use rapidstream_noc.Ir.Group.{Groups}
use rapidstream_noc.Ir.{Inst, Ir, Module, parse_mod, create_m_axis_ports, create_s_axis_ports}
use rapidstream_noc.Ir.Opened.{ports_of_pairs, stream_of_pairs, AreNamed}
use rapidstream_noc.Ir.OverNoc.{OverNoc, over_noc_rounds, credit_ret_over_noc}
use rapidstream_noc.Ir.Ports.{HasPorts, connected_to, no_ports, credit_ret_over_noc-HasPorts}

abbrev slot : Text
slot = codes "SLOT_X0Y0_TO_SLOT_X0Y0"

abbrev bare : Text → Module
bare name = record { name = name; parameters = []; ports = []; wires = []; submodules = [] }

abbrev g_inst : Inst
g_inst = record {
  name = codes "g_0";
  module_ = codes "g";
  connections = [];
  parameters = [];
  floorplan_region = none;
  pragmas = [];
}

abbrev top_with : List Inst → Module
top_with submodules = record {
  name = codes "top";
  parameters = [];
  ports = [];
  wires = [];
  submodules = submodules;
}

abbrev design : Ir
design = record {
  top_name = codes "top";
  module_definitions = top_with (g_inst ∷ []) ∷ bare (codes "g") ∷ [];
}

abbrev groups : Groups
groups = ((slot, slot), codes "f" ∷ []) ∷ []

-- The ports of one pair of slots.
unfoldable opened : OverNoc
unfolding over_noc_rounds
opened = elim (over_noc_rounds (codes "15") groups no_ports) [ ok o ↦ o | err raised ↦ no_ports ]

opened-made : over_noc_rounds (codes "15") groups no_ports ≡ ok opened
unfolding opened over_noc_rounds split_slot_region split split_from starts_with text_eq int_of
    int_acc create_m_axis_ports create_s_axis_ports str_of digits bit_length bits
opened-made = refl

names_apart :
    (text_eq (codes "g") (codes "top") ≡ false) × (text_eq (codes "top") (codes "g") ≡ false)
unfolding text_eq
names_apart = (refl, refl)

modules_found :
    (parse_mod design.module_definitions (codes "top") ≡ some (top_with (g_inst ∷ [])))
    × (parse_mod design.module_definitions (codes "g") ≡ some (bare (codes "g")))
unfolding parse_mod text_eq
modules_found = (refl, refl)

slots_named : AreNamed groups
unfolding split_slot_region split split_from starts_with text_eq
slots_named = ((codes "SLOT_X0Y0_TO_SLOT_X0Y0", refl, tt), tt)

read : int_of (codes "15") ≡ ok 15
unfolding int_of int_acc
read = refl

abbrev stream_name : Text
stream_name = codes "SLOT_X0Y0_TO_SLOT_X0Y0_cc_ret"

credit_ret_over_noc-HasPorts_example :
    Returns
      (λ (done, streams).
        HasPorts done
          (codes "g")
          ([] ++ ports_of_pairs 15 groups)
          ([] ++ ports_of_pairs 15 groups)
          (map
            (connected_to (codes "g") (ports_of_pairs 15 groups))
            (top_with (g_inst ∷ [])).submodules)
        × (lookup stream_name streams ≡ stream_of_pairs 15 stream_name groups))
      (credit_ret_over_noc design (codes "g") (codes "15") groups)
credit_ret_over_noc-HasPorts_example =
    credit_ret_over_noc-HasPorts design (codes "g") (codes "15") groups 15 stream_name
      (top_with (g_inst ∷ [])) (bare (codes "g")) names_apart.0 names_apart.1 modules_found.0
      modules_found.1 read slots_named

opened_ports : length opened.ports ≡ 8
unfolding opened over_noc_rounds split_slot_region split split_from starts_with text_eq int_of
    int_acc create_m_axis_ports create_s_axis_ports str_of digits bit_length bits
opened_ports = refl
