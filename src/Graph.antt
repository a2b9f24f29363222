-- ===== src/Graph.antt =====
-- noc_graph.py: the NoC graph, its nodes, edges and queries. A bandwidth is a natural number of
-- quarters of an MB/s, as in `Width`.
pub mod Names
pub mod Edges
pub mod Tests
use rapidstream_noc.Common.{
  ℕ, ◌+◌, ◌-◌, ◌*◌, ◌/◌, ◌%◌, Bool, not, List, [], ◌∷◌, ◌++◌, map, sum, take, length, range,
  range_from, ◌==◌, if◌then◌else◌, Result, ok, err, assertion_error, guard, ◌>>=◌, ◌>>◌, get_item,
  get_item_sub, concat_each, map_each,
}
use rapidstream_noc.Common.Text.{Text, text_eq}

pub record Node : Type 0 where
  pub name : Text

pub record Edge : Type 0 where
  pub src : Node
  pub dest : Node
  pub bandwidth : ℕ

pub record NocGraph : Type 0 where
  pub num_slr : ℕ
  pub num_col : ℕ
  pub rows_per_slr : List ℕ
  pub nmu_nodes : List (List Node)
  pub nsu_nodes : List (List Node)
  pub nps_vnoc_nodes : List (List Node)
  pub nps_hnoc_nodes : List (List Node)
  pub nps_slr0_nodes : List (List Node)
  pub ncrb_nodes : List (List Node)
  pub nps_hbm_nodes : List (List Node)
  pub ncrb_hbm_nodes : List (List Node)
  pub hbm_mc_nodes : List (List (List Node))
  pub nmu_hbm_nodes : List Node
  pub nps4_hbm_mc_nodes : List Node
  pub nps6_hbm_mc_nodes : List (List Node)
  pub edges : List Edge

-- `NocGraph(**data)`: the assertion of `__init__`.
unfoldable pub init : NocGraph → Result NocGraph
init g = do guard (g.num_slr == length g.rows_per_slr) assertion_error; ok g

unfoldable pub add_edge : NocGraph → Edge → NocGraph
add_edge g e = record g { edges = g.edges ++ e ∷ [] }

-- The loop of `add_edges`. Nodes are compared by their only field.
unfoldable pub add_edges : NocGraph → List Edge → Result NocGraph
unfolding add_edge
add_edges g [] = ok g
add_edges g (e ∷ es) =
    let rest = add_edges (add_edge g e) es in
    do guard (not (text_eq e.src.name e.dest.name)) assertion_error; rest

-- `[n.name for n in row]` and `[n.name for row in rows for n in row]`.
abbrev pub row_names : List Node → List Text
row_names row = map (λ n. n.name) row

abbrev pub names : List (List Node) → List Text
names [] = []
names (row ∷ rows) = row_names row ++ names rows

abbrev pub bank_names : List (List (List Node)) → List Text
bank_names [] = []
bank_names (x ∷ xs) = names x ++ bank_names xs

-- `rows[x][y]`.
abbrev pub at : List (List Node) → ℕ → ℕ → Result Node
at rows x y = get_item rows x >>= λ row. get_item row y

abbrev pub get_all_nodes : NocGraph → List Text
get_all_nodes g =
    names g.nmu_nodes
    ++ (names g.nsu_nodes
        ++ (names g.nps_vnoc_nodes
            ++ (names g.nps_hnoc_nodes
                ++ (names g.nps_slr0_nodes
                    ++ (names g.ncrb_nodes
                        ++ (names g.nps_hbm_nodes
                            ++ (names g.ncrb_hbm_nodes
                                ++ (bank_names g.hbm_mc_nodes
                                    ++ (row_names g.nmu_hbm_nodes
                                        ++ (row_names g.nps4_hbm_mc_nodes
                                            ++ names g.nps6_hbm_mc_nodes))))))))))

unfoldable pub get_all_nmu_nodes : NocGraph → List Text
get_all_nmu_nodes g = names g.nmu_nodes

unfoldable pub get_all_nsu_nodes : NocGraph → List Text
get_all_nsu_nodes g = names g.nsu_nodes

-- `[rows[col][r].name for r in range(row_start, row_end)]`
abbrev pub column_names : List (List Node) → List ℕ → ℕ → ℕ → Result (List Text)
column_names rows rows_per_slr col slr = do
  height ← get_item rows_per_slr slr
  map_each (range_from (sum (take slr rows_per_slr)) height) (λ r. at rows col r >>= λ n. ok n.name)

unfoldable pub get_column_nmu_nodes : NocGraph → ℕ → ℕ → Result (List Text)
get_column_nmu_nodes g col slr = column_names g.nmu_nodes g.rows_per_slr col slr

unfoldable pub get_column_nsu_nodes : NocGraph → ℕ → ℕ → Result (List Text)
get_column_nsu_nodes g col slr = column_names g.nsu_nodes g.rows_per_slr col slr

unfoldable pub get_all_hbm_mc_nodes : NocGraph → List Text
get_all_hbm_mc_nodes g = bank_names g.hbm_mc_nodes

unfoldable pub get_hbm_mc_nodes : NocGraph → ℕ → Result (List Text)
get_hbm_mc_nodes g bank = map_each (range 2) λ p. do
  controller ← get_item g.hbm_mc_nodes (bank / 2)
  n ← at controller (bank % 2) p
  ok n.name

unfoldable pub get_all_nmu_hbm_nodes : NocGraph → List Text
get_all_nmu_hbm_nodes g = row_names g.nmu_hbm_nodes

unfoldable pub get_range_nmu_hbm_nodes : NocGraph → List ℕ → Result (List Text)
get_range_nmu_hbm_nodes g r = map_each r (λ x. get_item g.nmu_hbm_nodes x >>= λ n. ok n.name)

abbrev pub EdgeTuple : Type 0
EdgeTuple = Text × Text

unfoldable pub get_all_edges : NocGraph → List EdgeTuple
get_all_edges g = map (λ e. (e.src.name, e.dest.name)) g.edges

abbrev pub get_edge_tuple : Node → Node → List EdgeTuple
get_edge_tuple src dest = (src.name, dest.name) ∷ []

abbrev pub get_bidir_edge_tuple : Node → Node → List EdgeTuple
get_bidir_edge_tuple n1 n2 = (n1.name, n2.name) ∷ (n2.name, n1.name) ∷ []

-- `edges += f(a, b)` where reading `a` and `b` may raise.
abbrev pub with_nodes {ℓ} :
    {A : Type ℓ} → (Node → Node → List A) → Result Node → Result Node → Result (List A)
with_nodes f m n = m >>= λ a. n >>= λ b. ok (f a b)

-- Statements `edges += …` one after another.
abbrev pub in_turn {ℓ} : {A : Type ℓ} → List (Result (List A)) → Result (List A)
in_turn steps = concat_each steps (λ step. step)

unfoldable pub get_column_cross_slr_edges : NocGraph → ℕ → Result (List EdgeTuple)
unfolding concat_each
get_column_cross_slr_edges g col =
    let hnoc = at g.nps_hnoc_nodes col in
    concat_each (range (g.num_slr - 1)) λ r. in_turn (
      with_nodes get_bidir_edge_tuple (hnoc (r * 4)) (hnoc (r * 4 + 2))
      ∷ with_nodes get_bidir_edge_tuple (hnoc (r * 4 + 1)) (hnoc (r * 4 + 3))
      ∷ [])

-- `rows[col][a - b]`.
abbrev pub at_sub : List (List Node) → ℕ → ℕ → ℕ → Result Node
at_sub rows col a b = get_item rows col >>= λ row. get_item_sub row a b

-- The bottom of a column, against SLR0.
abbrev pub bottom_entrances : NocGraph → ℕ → Result (List EdgeTuple)
bottom_entrances g col = in_turn (
    with_nodes get_bidir_edge_tuple (at g.nps_slr0_nodes col 0) (at g.nps_vnoc_nodes col 0)
    ∷ with_nodes get_bidir_edge_tuple (at g.nps_slr0_nodes col 1) (at g.nps_vnoc_nodes col 1)
    ∷ [])

-- The top of a column, where there is HBM. The top row's index is `sum(rows_per_slr) * 2 - 2`.
abbrev pub top_entrances : NocGraph → ℕ → Result (List EdgeTuple)
top_entrances g col =
    let double = sum g.rows_per_slr * 2 in
    elim g.ncrb_hbm_nodes [
      | [] ↦ ok []
      | _ ↦ in_turn (
          with_nodes get_edge_tuple (at g.ncrb_hbm_nodes col 0)
            (at_sub g.nps_vnoc_nodes col double 2)
          ∷ with_nodes get_edge_tuple (at g.ncrb_hbm_nodes col 0)
              (at_sub g.nps_vnoc_nodes col (double + 1) 2)
          ∷ with_nodes get_edge_tuple (at_sub g.nps_vnoc_nodes col double 2)
              (at g.ncrb_hbm_nodes col 1)
          ∷ with_nodes get_edge_tuple (at_sub g.nps_vnoc_nodes col (double + 1) 2)
              (at g.ncrb_hbm_nodes col 1)
          ∷ [])
    ]

-- The boundary above one SLR, where `lower_y_idx = rows_per_slr[slr] * 2 - 2` and
-- `upper_y_idx = rows_per_slr[slr] * 2`.
abbrev pub slr_entrances : NocGraph → ℕ → ℕ → Result (List EdgeTuple)
slr_entrances g col slr = do
  rows ← get_item g.rows_per_slr slr
  let hnoc = at g.nps_hnoc_nodes col
  let vnoc = at g.nps_vnoc_nodes col
  in_turn (
      with_nodes get_bidir_edge_tuple (hnoc (slr * 4))
        (at_sub g.nps_vnoc_nodes col (rows * 2 + 1) 2)
      ∷ with_nodes get_bidir_edge_tuple (hnoc (slr * 4 + 1))
          (at_sub g.nps_vnoc_nodes col (rows * 2) 2)
      ∷ with_nodes get_bidir_edge_tuple (hnoc (slr * 4 + 2)) (vnoc (rows * 2 + 1))
      ∷ with_nodes get_bidir_edge_tuple (hnoc (slr * 4 + 3)) (vnoc (rows * 2))
      ∷ [])

unfoldable pub get_column_entrance_edges : NocGraph → ℕ → Result (List EdgeTuple)
unfolding concat_each
get_column_entrance_edges g col = in_turn (
    bottom_entrances g col
    ∷ top_entrances g col
    ∷ concat_each (range (g.num_slr - 1)) (λ slr. slr_entrances g col slr)
    ∷ [])
