-- ===== src/Ilp.antt =====
-- noc_pass.py: the integer linear program that selects the streams for the NoC.
-- PuLP's variables, sums and problems are linear constraints over named variables. networkx is a
-- parameter: what the program reads of a `DiGraph` after adding nodes and edges to it.
pub mod Trail
pub mod Parts
pub mod Balance
pub mod Lookups
pub mod Networkx
pub mod Path
pub mod Exclusive
pub mod Capacity
pub mod Selector
pub mod Serves
pub mod Ports
pub mod Tests
use rapidstream_noc.Common.{
  ℕ, ◌+◌, ◌*◌, ◌-◌, ◌≤◌, ◌≡◌, Bool, true, false, not, ◌&&◌, List, [], ◌∷◌, ◌++◌, map, Option, none,
  some, ◌==◌, if◌then◌else◌, Result, ok, err,
}
use rapidstream_noc.Common.Text.{Text, text_eq}
use rapidstream_noc.Common.Text.Equality.{text_elem}
use rapidstream_noc.Graph.{
  NocGraph, EdgeTuple, get_all_nodes, get_all_edges, get_all_nmu_nodes, get_all_nsu_nodes,
}
use rapidstream_noc.Device.{Device, Ends}

-- What is read of `nx.DiGraph()` after `add_nodes_from(ns)` and `add_edges_from(es)`.
pub record NetworkX : Type 0 where
  pub nodes : List Text → List EdgeTuple → List Text
  pub predecessors : List Text → List EdgeTuple → Text → Result (List Text)
  pub successors : List Text → List EdgeTuple → Text → Result (List Text)

-- The nodes that a call returns, none where it raises.
abbrev pub returned_nodes : Result (List Text) → List Text
returned_nodes (ok ns) = ns
returned_nodes (err _) = []

-- One graph, as `get_nx_graph_from_noc_graph` returns it. Where a call of `predecessors` or
-- `successors` raises, `Ilp.Lookups` ends the function before a constraint is made of these lists.
pub record DiGraph : Type 0 where
  pub nodes : List Text
  pub predecessors : Text → List Text
  pub successors : Text → List Text

unfoldable pub get_nx_graph_from_noc_graph : NetworkX → Device → DiGraph
get_nx_graph_from_noc_graph nx d =
    let ns = get_all_nodes d.noc_graph in
    let es = get_all_edges d.noc_graph in
    record {
      nodes = nx.nodes ns es;
      predecessors = λ n. returned_nodes (nx.predecessors ns es n);
      successors = λ n. returned_nodes (nx.successors ns es n);
    }

-- The variables of `ilp_noc_selector_add_var`. They are objects of PuLP, here told apart by their keys
-- in `ilp_var`; two of them may have one name (`Lookups.lp_name`), and what a solver makes of that is
-- part of the parameter for it.
pub data Var : Type 0 where
  x : Text → EdgeTuple → Var
  y : Text → Text → Var
  z : Text → Text → Var
  not_mapped_stream : Text → Var
  port_x : Text → EdgeTuple → Var
  x_ret : Text → EdgeTuple → Var

abbrev pub StreamNodes : Type 0
StreamNodes = List (Text × Ends (List Text))

abbrev pub MmapNoc : Type 0
MmapNoc = List (Text × Ends Text)

pub data Sense : Type 0 where
  equal at_most : Sense

-- `sum(plus) - sum(minus)` is equal to, or at most, `bound - less`.
pub record Constr : Type 0 where
  pub plus : List (ℕ × Var)
  pub minus : List (ℕ × Var)
  pub sense : Sense
  pub bound : ℕ
  pub less : ℕ

abbrev pub flat_map {ℓ κ} : {A : Type ℓ} {B : Type κ} → (A → List B) → List A → List B
flat_map f [] = []
flat_map f (a ∷ as') = f a ++ flat_map f as'

-- `lpSum` of variables.
abbrev pub lp_sum : List Var → List (ℕ × Var)
lp_sum vs = map (λ v. (1, v)) vs

abbrev pub equals : List Var → List Var → ℕ → Constr
equals plus minus bound = record {
  plus = lp_sum plus;
  minus = lp_sum minus;
  sense = equal;
  bound = bound;
  less = 0;
}

abbrev pub is_at_most : List Var → ℕ → Constr
is_at_most plus bound = record {
  plus = lp_sum plus;
  minus = [];
  sense = at_most;
  bound = bound;
  less = 0;
}

module _ {ℓ} {A : Type ℓ} where
  -- The entries of a comprehension's `if`.
  abbrev pub keep : (A → Bool) → List A → List A
  keep test [] = []
  keep test (a ∷ as') = if test a then a ∷ keep test as' else keep test as'

-- The variables `x` of one commodity on the edges into and out of a node.
abbrev pub inflow : DiGraph → (EdgeTuple → Var) → Text → List Var
inflow g var n = map (λ u. var (u, n)) (g.predecessors n)

abbrev pub outflow : DiGraph → (EdgeTuple → Var) → Text → List Var
outflow g var n = map (λ v. var (n, v)) (g.successors n)

-- The two constraints of an intermediate node: conserved flow, and at most one visit.
abbrev pub intermediate : DiGraph → (EdgeTuple → Var) → Text → List Constr
intermediate g var n =
    equals (inflow g var n) (outflow g var n) 0
    ∷ is_at_most (inflow g var n ++ outflow g var n) 2
    ∷ []

-- Constraints 3 of one stream at a node: on the way, where it may start, where it may end.
abbrev pub on_the_way : DiGraph → Text → Ends (List Text) → Text → List Constr
on_the_way g s ends n =
    if not (text_elem n ends.src) && not (text_elem n ends.dest) then intermediate g (x s) n else []

abbrev pub at_source : DiGraph → Text → Text → List Constr
at_source g s n = equals (outflow g (x s) n) (y s n ∷ []) 0 ∷ equals (inflow g (x s) n) [] 0 ∷ []

abbrev pub at_destination : DiGraph → Text → Text → List Constr
at_destination g s n =
    equals (inflow g (x s) n) (z s n ∷ []) 0 ∷ equals (outflow g (x s) n) [] 0 ∷ []

-- Constraints 3 for one stream.
abbrev pub flow_constr : DiGraph → Text → Ends (List Text) → List Constr
flow_constr g s ends =
    flat_map (on_the_way g s ends) g.nodes
    ++ (flat_map (at_source g s) ends.src ++ flat_map (at_destination g s) ends.dest)

-- `lpSum(1 for _, end_node in mmap_noc.items() if node == end_node["src"])`.
abbrev pub num_ports_at : MmapNoc → Text → ℕ
num_ports_at [] n = 0
num_ports_at ((port, ends) ∷ ports) n = (if text_eq n ends.src then 1 else 0) + num_ports_at ports n

-- Constraints 4: the streams that may start, or end, at a node.
abbrev pub nmu_constr : StreamNodes → MmapNoc → Text → Constr
nmu_constr streams mmap_noc n = record {
  plus = lp_sum (map (λ (s, ends). y s n) (keep (λ (s, ends). text_elem n ends.src) streams));
  minus = [];
  sense = at_most;
  bound = 1;
  less = num_ports_at mmap_noc n;
}

abbrev pub nsu_constr : StreamNodes → Text → Constr
nsu_constr streams n =
    is_at_most (map (λ (s, ends). z s n) (keep (λ (s, ends). text_elem n ends.dest) streams)) 1

-- Constraints 1 and 2 of one stream.
abbrev pub source_constr : Text × Ends (List Text) → Constr
source_constr (s, ends) = equals (map (y s) ends.src ++ not_mapped_stream s ∷ []) [] 1

abbrev pub destination_constr : Text × Ends (List Text) → Constr
destination_constr (s, ends) = equals (map (z s) ends.dest ++ not_mapped_stream s ∷ []) [] 1

-- The constraints that `ilp_noc_selector_add_stream_constr` adds, in order, where the lookups of
-- `Lookups.stream_lookups` raise nothing.
unfoldable pub ilp_noc_selector_add_stream_constr :
    NetworkX → StreamNodes → MmapNoc → Device → List Constr
ilp_noc_selector_add_stream_constr nx streams_nodes mmap_noc d =
    let g = get_nx_graph_from_noc_graph nx d in
    map source_constr streams_nodes
    ++ (map destination_constr streams_nodes
        ++ (flat_map (λ (s, ends). flow_constr g s ends) streams_nodes
            ++ (map (nmu_constr streams_nodes mmap_noc) (get_all_nmu_nodes d.noc_graph)
                ++ map (nsu_constr streams_nodes) (get_all_nsu_nodes d.noc_graph))))

-- A solution: the values of the variables after the solver has run.
abbrev pub Solution : Type 0
Solution = Var → ℕ

abbrev pub total : Solution → List (ℕ × Var) → ℕ
total a [] = 0
total a ((c, v) ∷ terms) = c * a v + total a terms

abbrev pub Satisfies : Solution → Constr → Type 0
Satisfies a c = elim c.sense [
  | equal ↦ total a c.plus + c.less ≡ c.bound + total a c.minus
  | at_most ↦ total a c.plus + c.less ≤ c.bound + total a c.minus
]

-- `next((node for node in nodes if value(node) == 1), None)`.
abbrev pub first_chosen : (Text → ℕ) → List Text → Option Text
first_chosen value [] = none
first_chosen value (n ∷ ns) = if value n == 1 then some n else first_chosen value ns

-- `if selected_src and selected_dest`: neither None nor empty.
abbrev pub is_truthy : Option Text → Bool
is_truthy none = false
is_truthy (some []) = false
is_truthy (some (c ∷ s)) = true

abbrev pub chosen_ends : Solution → Text × Ends (List Text) → List (Text × (Text × Text))
chosen_ends a (s, ends) = elim (first_chosen (λ n. a (y s n)) ends.src) [
  | none ↦ []
  | some src ↦ elim (first_chosen (λ n. a (z s n)) ends.dest) [
    | none ↦ []
    | some dest ↦
        if is_truthy (some src) && is_truthy (some dest) then (s, (src, dest)) ∷ [] else []
  ]
]

-- `node_loc`, in the order of its keys; `noc_streams` is the list of its keys.
unfoldable pub post_process_noc_ilp : Solution → StreamNodes → List (Text × (Text × Text))
post_process_noc_ilp a streams_nodes = flat_map (chosen_ends a) streams_nodes
