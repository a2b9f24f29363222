-- ===== src/Ir/Ports.antt =====
-- credit_ret_over_noc opens the same ports on the grouped module and on the top module.
use rapidstream_noc.Common.{
  ℕ, lookup, if◌then◌else◌, ◌≡◌, ◌∙◌, refl, ap, Bool-cases, inl, inr, true, false, List, [], ◌∷◌,
  ◌++◌, map, Option, none, some, ok, Returns,
}
use rapidstream_noc.Common.Text.{Text, text_eq, int_of}
use rapidstream_noc.Common.Text.Equality.{text_eq_iff}
use rapidstream_noc.Ir.Update.{Parts, with_connections}
use rapidstream_noc.Ir.{
  create_port_wire_connection, Ir, Module, Inst, Port, parse_mod, parse_top_mod,
}
use rapidstream_noc.Ir.Group.{Groups}
use rapidstream_noc.Ir.Opened.{ports_of_pairs, stream_of_pairs, AreNamed, over_noc_rounds-Opens}
use rapidstream_noc.Ir.Ends.{over-none}
use rapidstream_noc.Ir.OverNoc.{
  deepen, OverNoc, with_parts, with_ports, connect, change_mod, change_ir, grouped,
  credit_ret_over_noc,
}

-- A change that leaves a module its name.
abbrev pub KeepsName : (Module → Module) → Type 0
KeepsName change = (m : Module) → (change m).name ≡ m.name

abbrev changed : (Module → Module) → Option Module → Option Module
changed change none = none
changed change (some m) = some (change m)

parse_mod-change_mod :
    (ms : List Module) (name : Text) (change : Module → Module) {m : Module}
    → KeepsName change
    → parse_mod ms name ≡ some m
    → parse_mod (change_mod name change ms) name ≡ some (change m)
unfolding parse_mod change_mod
parse_mod-change_mod [] name change keeps found = cc
parse_mod-change_mod (n ∷ ms) name change {m} keeps found =
    elim (Bool-cases (text_eq n.name name)) [
      | inl e ↦
          (let same : some n ≡ some m = rw e at found in
            let kept : text_eq (change n).name name ≡ true =
              ap (λ t. text_eq t name) (keeps n) ∙ e in
            rw (e, kept) (ap (λ o. changed change o) same))
      | inr e ↦ rw (e, e) (parse_mod-change_mod ms name change keeps (rw e at found))
    ]

parse_mod-other :
    (ms : List Module) (name k : Text) (change : Module → Module)
    → KeepsName change
    → text_eq name k ≡ false
    → parse_mod (change_mod name change ms) k ≡ parse_mod ms k
unfolding parse_mod change_mod
parse_mod-other [] name k change keeps other = refl
parse_mod-other (n ∷ ms) name k change keeps other = elim (Bool-cases (text_eq n.name name)) [
  | inl e ↦
      (let named : n.name ≡ name = (text_eq_iff n.name name).0 e in
        let here : text_eq n.name k ≡ false = ap (λ t. text_eq t k) named ∙ other in
        let there : text_eq (change n).name k ≡ false = ap (λ t. text_eq t k) (keeps n) ∙ here in
        rw (e, there, here) refl)
  | inr e ↦ rw (e, parse_mod-other ms name k change keeps other) refl
]

-- The ports of the two modules of a design, and the instances in the first, after their extension.
pub record HasPorts (ir : Ir) (grouped_mod_name : Text) (at_top in_group : List Port)
    (instances : List Inst) : Type 0 where
  pub top_ir : Module
  pub grouped_mod_ir : Module
  pub top_found : parse_mod ir.module_definitions ir.top_name ≡ some top_ir
  pub grouped_found : parse_mod ir.module_definitions grouped_mod_name ≡ some grouped_mod_ir
  pub top_ports : top_ir.ports ≡ at_top
  pub grouped_ports : grouped_mod_ir.ports ≡ in_group
  pub top_submodules : top_ir.submodules ≡ instances

-- The connections of the instances of the grouped module, each port to the wire of its name.
abbrev pub connected_to : Text → List Port → Inst → Inst
connected_to grouped_mod_name ports i =
    if text_eq i.module_ grouped_mod_name
    then with_connections i (
        i.connections
        ++ map (λ p. create_port_wire_connection p.wire.name (p.wire.name ∷ [])) ports)
    else i

abbrev pub no_ports : OverNoc
no_ports = record { ports = []; drivers = []; streams = [] }

parse_top_mod_lem :
    (ir : Ir) {m : Module}
    → parse_mod ir.module_definitions ir.top_name ≡ some m
    → parse_top_mod ir ≡ ok m
unfolding parse_top_mod
parse_top_mod_lem ir found = rw (parse_top_mod, found) refl

grouped_lem :
    (ir : Ir) (name : Text) {m : Module}
    → parse_mod ir.module_definitions name ≡ some m
    → grouped ir name ≡ ok m
unfolding grouped
grouped_lem ir name found = rw (grouped, found) refl

-- When the top module and a grouped module of another name are there, the initial credit is a number
-- and the slots of the pairs can be read, credit_ret_over_noc returns a design whose top module and
-- whose grouped module have, after the ports they had, an AXI stream out and one in for each pair, as
-- wide as the whole bytes of the pair's credits; in the top module each instance of the grouped module
-- has each of these ports connected to the port of the same name; and the returned stream of a name goes
-- from the source to the destination of the last pair of this name, with the same width.
pub credit_ret_over_noc-HasPorts :
    (ir : Ir) (grouped_mod_name init_credit : Text) (groups : Groups) (credit : ℕ) (key : Text)
    (top_ir grouped_mod_ir : Module)
    → text_eq grouped_mod_name ir.top_name ≡ false
    → text_eq ir.top_name grouped_mod_name ≡ false
    → parse_mod ir.module_definitions ir.top_name ≡ some top_ir
    → parse_mod ir.module_definitions grouped_mod_name ≡ some grouped_mod_ir
    → int_of init_credit ≡ ok credit
    → AreNamed groups
    → Returns
        (λ (done, streams).
          HasPorts done grouped_mod_name
            (top_ir.ports ++ ports_of_pairs credit groups)
            (grouped_mod_ir.ports ++ ports_of_pairs credit groups)
            (map (connected_to grouped_mod_name (ports_of_pairs credit groups)) top_ir.submodules)
          × (lookup key streams ≡ stream_of_pairs credit key groups))
        (credit_ret_over_noc ir grouped_mod_name init_credit groups)
unfolding credit_ret_over_noc change_ir lookup
credit_ret_over_noc-HasPorts ir g init_credit groups credit key top_ir grouped_mod_ir apart apart'
      top_found grouped_found read names =
    let (o, made, opens) =
      over_noc_rounds-Opens init_credit credit groups key no_ports read names in
    let top = ir.top_name in
    let ms = ir.module_definitions in
    let parts : Parts = record {
      submodules = map (deepen init_credit) (grouped_mod_ir.submodules ++ o.drivers);
      wires = grouped_mod_ir.wires;
    } in
    let entries =
      map (λ (p : Port). create_port_wire_connection p.wire.name (p.wire.name ∷ [])) o.ports in
    let into : Module → Module = λ m. with_ports o.ports (with_parts parts m) in
    let open_ : Module → Module = with_ports o.ports in
    let wire_up : Module → Module = connect g entries in
    let ms1 = change_mod g into ms in
    let ms2 = change_mod top open_ ms1 in
    let top1 = parse_mod-other ms g top into (λ m. refl) apart ∙ top_found in
    let top2 = parse_mod-change_mod ms1 top open_ (λ m. refl) top1 in
    let group1 = parse_mod-change_mod ms g into (λ m. refl) grouped_found in
    let group2 = parse_mod-other ms1 top g open_ (λ m. refl) apart' ∙ group1 in
    (
      (change_ir top wire_up (change_ir top open_ (change_ir g into ir)), o.streams),
      rw (parse_top_mod_lem ir top_found, made, grouped_lem ir g grouped_found) refl,
      (
        record {
          top_ir = wire_up (open_ top_ir);
          grouped_mod_ir = into grouped_mod_ir;
          top_found = parse_mod-change_mod ms2 top wire_up (λ m. refl) top2;
          grouped_found = parse_mod-other ms2 top g wire_up (λ m. refl) apart' ∙ group2;
          top_ports = ap (λ ps. top_ir.ports ++ ps) opens.ports_opened;
          grouped_ports = ap (λ ps. grouped_mod_ir.ports ++ ps) opens.ports_opened;
          top_submodules = ap (λ ps. map (connected_to g ps) top_ir.submodules) opens.ports_opened;
        },
        opens.streams_opened ∙ over-none (stream_of_pairs credit key groups),
      ),
    )
