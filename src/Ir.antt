-- ===== src/Ir.antt =====
-- ir_helper.py: the RapidStream IR as the code builds and reads it. A key that the code gives a
-- constant (`hierarchical_name`, the `range` of a parameter, `area`) stands in no record; a list that
-- the code extends or whose items it rewrites is returned anew.
pub mod Regions
pub mod Floorplan
pub mod Ends
pub mod Pairs
pub mod Mmap
pub mod Placed
pub mod Return
pub mod Update
pub mod Slave
pub mod Growth
pub mod Group
pub mod Merged
pub mod Verilog
pub mod OverNoc
pub mod Control
pub mod Opened
pub mod Ports
pub mod Connected
pub mod Fits
pub mod Parse
pub mod Tests
use rapidstream_noc.Common.{
  ℕ, zero, suc, ◌+◌, ◌-◌, ◌≡◌, Bool, true, false, List, [], ◌∷◌, ◌++◌, map, Option, none, some,
  Result, ok, err, ◌>>=◌, assertion_error, if◌then◌else◌, Dict, lookup,
}
use rapidstream_noc.Common.Text.{Text, text_eq, codes, str_of, int_of}

-- `{"type": …, "repr": …}`.
pub record Item : Type 0 where
  pub type_ : Text
  pub repr : Text

abbrev pub Expr : Type 0
Expr = List Item

-- A connection or a parameter.
pub record Entry : Type 0 where
  pub name : Text
  pub expr : Expr

pub record Range : Type 0 where
  pub left : Expr
  pub right : Expr

pub record Wire : Type 0 where
  pub name : Text
  pub range : Option Range

pub record Port : Type 0 where
  pub wire : Wire
  pub type_ : Text

-- An instance, an element of `submodules`.
pub record Inst : Type 0 where
  pub name : Text
  pub module_ : Text
  pub connections : List Entry
  pub parameters : List Entry
  pub floorplan_region : Option Text
  pub pragmas : List (Text × Text)

-- An element of `module_definitions`.
pub record Module : Type 0 where
  pub name : Text
  pub parameters : List Entry
  pub ports : List Port
  pub wires : List Wire
  pub submodules : List Inst

pub record Ir : Type 0 where
  pub top_name : Text
  pub module_definitions : List Module

-- The first module of a name.
unfoldable pub parse_mod : List Module → Text → Option Module
parse_mod [] name = none
parse_mod (mod_ ∷ mods) name = if text_eq mod_.name name then some mod_ else parse_mod mods name

unfoldable pub parse_top_mod : Ir → Result Module
unfolding parse_mod
parse_top_mod ir = elim (parse_mod ir.module_definitions ir.top_name) [
  | none ↦ err assertion_error
  | some mod_ ↦ ok mod_
]

abbrev pub lit : Text → Item
lit val = record { type_ = codes "lit"; repr = val }

abbrev pub id_ : Text → Item
id_ val = record { type_ = codes "id"; repr = val }

abbrev pub create_lit_expr : Text → Expr
create_lit_expr val = lit val ∷ []

-- The names of a concatenation, with a comma after each but the last.
abbrev pub with_commas : List Text → Expr
with_commas [] = []
with_commas (v ∷ []) = id_ v ∷ []
with_commas (v ∷ w ∷ vs) = id_ v ∷ lit (codes ",") ∷ with_commas (w ∷ vs)

unfoldable pub create_id_expr : List Text → Expr
create_id_expr (v ∷ []) = id_ v ∷ []
create_id_expr vs = lit (codes "{") ∷ with_commas vs ++ lit (codes "}") ∷ []

abbrev pub create_id_expr_slice : Text → Text → Text → Expr
create_id_expr_slice val left right =
    id_ val ∷ lit (codes "[") ∷ lit left ∷ lit (codes ":") ∷ lit right ∷ lit (codes "]") ∷ []

unfoldable pub set_expr : List Entry → Text → Expr → List Entry
set_expr [] key val = []
set_expr (c ∷ source) key val =
    (if text_eq c.name key then record { name = c.name; expr = val } else c)
    ∷ set_expr source key val

unfoldable pub create_wire_ir : Text → Text → Text → Wire
create_wire_ir name range_left range_right = record {
  name = name;
  range =
      if text_eq range_left range_right
      then none
      else some (record { left = create_lit_expr range_left; right = create_lit_expr range_right });
}

abbrev pub create_port_ir : Text → Text → Text → Text → Port
create_port_ir name direction range_left range_right = record {
  wire = create_wire_ir name range_left range_right;
  type_ = direction;
}

abbrev pub create_port_wire_connection : Text → List Text → Entry
create_port_wire_connection port_name wire = record { name = port_name; expr = create_id_expr wire }

abbrev pub create_port_const_connection : Text → Text → Entry
create_port_const_connection port_name wire = record {
  name = port_name;
  expr = create_lit_expr wire;
}

abbrev pub create_parameter_ir : Text → Text → Entry
create_parameter_ir name value = record { name = name; expr = create_lit_expr value }

unfoldable pub find_expr : List Entry → Text → Expr
find_expr [] key = []
find_expr (c ∷ source) key = if text_eq c.name key then c.expr else find_expr source key

abbrev pub first_repr : Expr → Text
first_repr [] = []
first_repr (e ∷ es) = e.repr

unfoldable pub find_repr : List Entry → Text → Text
unfolding find_expr
find_repr source key = first_repr (find_expr source key)

abbrev pub first_id : Expr → Text
first_id [] = []
first_id (e ∷ es) = if text_eq e.type_ (codes "lit") then first_id es else e.repr

unfoldable pub find_repr_id : List Entry → Text → Text
unfolding find_expr
find_repr_id source key = first_id (find_expr source key)

-- `str(n - 1)`.
abbrev pub str_below : ℕ → Text
str_below zero = codes "-1"
str_below (suc n) = str_of n

-- The four ports of an AXIS interface, for a prefix and the directions of data and of `tready`.
abbrev pub axis_ports : Text → Text → Text → Text → Result (List Port)
axis_ports prefix data_way ready_way datawidth = do
  bits ← int_of datawidth
  ok (
      create_port_ir (prefix ++ codes "_tdata") data_way (str_below bits) (codes "0")
      ∷ create_port_ir (prefix ++ codes "_tvalid") data_way (codes "0") (codes "0")
      ∷ create_port_ir (prefix ++ codes "_tready") ready_way (codes "0") (codes "0")
      ∷ create_port_ir (prefix ++ codes "_tlast") data_way (codes "0") (codes "0")
      ∷ [])

unfoldable pub create_m_axis_ports : Text → Text → Result (List Port)
create_m_axis_ports name =
    axis_ports (codes "m_axis_" ++ name) (codes "output wire") (codes "input wire")

unfoldable pub create_s_axis_ports : Text → Text → Result (List Port)
create_s_axis_ports name =
    axis_ports (codes "s_axis_" ++ name) (codes "input wire") (codes "output wire")

-- What `module_str_config` holds.
pub record Config : Type 0 where
  pub module_name : Text
  pub inst_name : Text
  pub floorplan_region : Option Text
  pub pragmas : Option (List (Text × Text))

unfoldable pub create_module_inst_ir :
    Config → Dict Text → List (Text × List Text) → List (Text × Text) → Inst
create_module_inst_ir config params wire_connections const_connections = record {
  name = config.inst_name;
  module_ = config.module_name;
  connections =
      map (λ (port, wire). create_port_wire_connection port wire) wire_connections
      ++ map (λ (port, wire). create_port_const_connection port wire) const_connections;
  parameters = map (λ (param, val). create_parameter_ir param val) params;
  floorplan_region = config.floorplan_region;
  pragmas = elim config.pragmas [ none ↦ [] | some pragmas ↦ pragmas ];
}
