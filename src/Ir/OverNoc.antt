-- ===== src/Ir/OverNoc.antt =====
-- ir_credit_based.py: credit_ret_over_noc. The top module and the grouped
-- module are the first of their names, and a change to one of them is made in the list of modules.
-- A bandwidth, which the code gives as a text, is a number of quarters of an MB/s.
use rapidstream_noc.Common.{
  ℕ, ◌*◌, ◌/◌, not, ◌&&◌, List, [], ◌∷◌, ◌++◌, map, none, some, Result, ok, err, key_error, ◌>>=◌,
  if◌then◌else◌, Dict, set_item, length,
}
use rapidstream_noc.Common.Text.{Text, text_eq, codes, str_of, int_of, contains}
use rapidstream_noc.Width.{frequency}
use rapidstream_noc.Ir.{
  Ir, Module, Inst, Port, Entry, parse_mod, parse_top_mod, set_expr, create_lit_expr,
  create_port_wire_connection, create_module_inst_ir, create_m_axis_ports, create_s_axis_ports,
}
use rapidstream_noc.Ir.Update.{bit_length, Parts, with_connections, with_parameters}
use rapidstream_noc.Ir.Group.{Groups, whole_bytes, merged_name_of}

-- An entry of what credit_ret_over_noc returns.
pub record NocStream : Type 0 where
  pub src : Text
  pub dest : Text
  pub width : Text
  pub bandwidth : ℕ

abbrev pub with_parts : Parts → Module → Module
with_parts parts m = record {
  name = m.name;
  parameters = m.parameters;
  ports = m.ports;
  wires = parts.wires;
  submodules = parts.submodules;
}

abbrev pub with_ports : List Port → Module → Module
with_ports ports m = record {
  name = m.name;
  parameters = m.parameters;
  ports = m.ports ++ ports;
  wires = m.wires;
  submodules = m.submodules;
}

-- New connections for the instances of a module.
abbrev pub connect : Text → List Entry → Module → Module
connect grouped_mod_name entries m = record {
  name = m.name;
  parameters = m.parameters;
  ports = m.ports;
  wires = m.wires;
  submodules =
      map
        (λ i.
          if text_eq i.module_ grouped_mod_name
          then with_connections i (i.connections ++ entries)
          else i)
        m.submodules;
}

-- A change to the first module of a name.
unfoldable pub change_mod : Text → (Module → Module) → List Module → List Module
change_mod name change [] = []
change_mod name change (m ∷ ms) =
    let rest = change_mod name change ms in if text_eq m.name name then change m ∷ ms else m ∷ rest

unfoldable pub change_ir : Text → (Module → Module) → Ir → Ir
unfolding change_mod
change_ir name change ir = record {
  top_name = ir.top_name;
  module_definitions = change_mod name change ir.module_definitions;
}

abbrev pub append_mod : Module → Ir → Ir
append_mod m ir = record {
  top_name = ir.top_name;
  module_definitions = ir.module_definitions ++ m ∷ [];
}

-- A key of `parse_mod(ir, name)`, which is `{}` when no module has the name.
unfoldable pub grouped : Ir → Text → Result Module
unfolding parse_mod
grouped ir name = elim (parse_mod ir.module_definitions name) [
  | none ↦ err key_error
  | some m ↦ ok m
]

-- What the loop over the pairs collects.
pub record OverNoc : Type 0 where
  pub ports : List Port
  pub drivers : List Inst
  pub streams : Dict NocStream

unfoldable pub over_noc_rounds : Text → Groups → OverNoc → Result OverNoc
unfolding bit_length create_m_axis_ports create_s_axis_ports create_module_inst_ir set_item
over_noc_rounds init_credit [] o = ok o
over_noc_rounds init_credit ((srcdest, fifos) ∷ groups) o = do
  merged_name ← merged_name_of srcdest
  credit ← int_of init_credit
  let ret_width = whole_bytes (bit_length credit * length fifos)
  m_ports ← create_m_axis_ports (merged_name ++ codes "_cc_ret") (str_of ret_width)
  s_ports ← create_s_axis_ports (merged_name ++ codes "_cc_ret") (str_of ret_width)
  over_noc_rounds init_credit groups (record {
    ports = o.ports ++ (m_ports ++ s_ports);
    drivers =
        o.drivers
        ++ create_module_inst_ir
            (record {
              module_name = codes "Const_1_Driver";
              inst_name = merged_name ++ codes "_cc_ret_tlast_inst";
              floorplan_region = none;
              pragmas = none;
            })
            []
            ((codes "out", (codes "m_axis_" ++ (merged_name ++ codes "_cc_ret_tlast")) ∷ []) ∷ [])
            []
          ∷ [];
    streams =
        set_item (merged_name ++ codes "_cc_ret")
          (record {
            src = srcdest.0;
            dest = srcdest.1;
            width = str_of ret_width;
            bandwidth = ret_width * frequency / 8;
          })
          o.streams;
  })

-- The depth of the NSU FIFOs that are not part of the credit return.
unfoldable pub deepen : Text → Inst → Inst
unfolding contains set_expr
deepen init_credit m =
    if contains m.name (codes "nsu_") && not (contains m.name (codes "_cc_ret"))
    then with_parameters m (set_expr m.parameters (codes "DEPTH") (create_lit_expr init_credit))
    else m

unfoldable pub credit_ret_over_noc : Ir → Text → Text → Groups → Result (Ir × Dict NocStream)
unfolding parse_top_mod grouped over_noc_rounds deepen change_ir
credit_ret_over_noc ir grouped_mod_name init_credit srcdest_fifos = do
  top_ir ← parse_top_mod ir
  o ← over_noc_rounds init_credit srcdest_fifos (record { ports = []; drivers = []; streams = [] })
  grouped_mod_ir ← grouped ir grouped_mod_name
  let parts : Parts = record {
    submodules = map (deepen init_credit) (grouped_mod_ir.submodules ++ o.drivers);
    wires = grouped_mod_ir.wires;
  }
  let in_group = change_ir grouped_mod_name (λ m. with_ports o.ports (with_parts parts m)) ir
  let at_top = change_ir ir.top_name (with_ports o.ports) in_group
  let entries = map (λ p. create_port_wire_connection p.wire.name (p.wire.name ∷ [])) o.ports
  ok (change_ir ir.top_name (connect grouped_mod_name entries) at_top, o.streams)
