-- ===== src/Fabric/Layout.antt =====
-- A graph whose tables hold nodes named by their place, and what an edge of the mesh satisfies.
use mathlib.Core.List.Memᴰ
use mathlib.Core.List.{Memᴰ}
use rapidstream_noc.Common.{
  ℕ, ◌-◌, ◌*◌, ◌<◌, ◌≡◌, ◌≢◌, ◌⊎◌, refl, sym, ap, ◌∙◌, List, All, arith, Result, ok, Returns, range,
  All-range, concat_each, concat_each-Returns,
}
use rapidstream_noc.Common.Text.{Text, codes}
use rapidstream_noc.Graph.{Node, Edge, NocGraph, names, at, with_nodes, get_all_nodes}
use rapidstream_noc.Graph.Names.{
  node, node_name, node_name_inj, create_columns, at-create_columns, Memᴰ-at,
}
use rapidstream_noc.Fabric.{noc_bandwidth, create_bidir_edges, one_edge}

pub record IsLaidOut (g : NocGraph) (num_col num_row num_inter_rows : ℕ) : Type 0 where
  pub nmu : g.nmu_nodes ≡ create_columns (codes "nmu") num_col num_row
  pub nsu : g.nsu_nodes ≡ create_columns (codes "nsu") num_col num_row
  pub vnoc : g.nps_vnoc_nodes ≡ create_columns (codes "nps_vnoc") num_col (num_row * 2)
  pub hnoc : g.nps_hnoc_nodes ≡ create_columns (codes "nps_hnoc") num_col num_inter_rows
  pub slr0 : g.nps_slr0_nodes ≡ create_columns (codes "nps_slr0") num_col 4
  pub ncrb : g.ncrb_nodes ≡ create_columns (codes "ncrb") (num_col - 1) num_inter_rows

module _ (g : NocGraph) where
  abbrev pub Declared : Node → Type 0
  Declared n = Memᴰ n.name (get_all_nodes g)

  -- An edge between two different nodes of the graph, with the bandwidth of the NoC.
  abbrev pub IsLink : Edge → Type 0
  IsLink e =
      (e.src.name ≢ e.dest.name) × (e.bandwidth ≡ noc_bandwidth) × Declared e.src × Declared e.dest

  -- Reading a node succeeds, with a node of the graph.
  abbrev pub Spot : Result Node → Node → Type 0
  Spot m n = (m ≡ ok n) × Declared n

  pub bidir-IsLink :
      (m n : Result Node) {a b : Node}
      → Spot m a
      → Spot n b
      → a.name ≢ b.name
      → Returns (All IsLink) (with_nodes create_bidir_edges m n)
  bidir-IsLink m n {a} {b} (ea, da) (eb, db) h = (
    create_bidir_edges a b,
    rw (ea, eb),
    ((h, refl, da, db), ((λ e. h (sym e), refl, db, da), tt)),
  )

  pub one-IsLink :
      (m n : Result Node) {a b : Node}
      → Spot m a
      → Spot n b
      → a.name ≢ b.name
      → Returns (All IsLink) (with_nodes one_edge m n)
  one-IsLink m n {a} {b} (ea, da) (eb, db) h = (one_edge a b, rw (ea, eb), ((h, refl, da, db), tt))

  -- A loop over `range(n)` yields links if each round does.
  pub loop-IsLink :
      (n : ℕ) (body : ℕ → Result (List Edge))
      → ((i : ℕ) → i < n → Returns (All IsLink) (body i))
      → Returns (All IsLink) (concat_each (range n) body)
  loop-IsLink n body h =
      concat_each-Returns IsLink (range n) body
        (All-range (λ i. Returns (All IsLink) (body i)) 0 n (λ i _ q. h i (omega arith)))

  pub steps-IsLink :
      (steps : List (Result (List Edge)))
      → All (λ step. Returns (All IsLink) step) steps
      → Returns (All IsLink) (concat_each steps (λ step. step))
  steps-IsLink steps h = concat_each-Returns IsLink steps (λ step. step) h

  pub table-Spot :
      (rows : List (List Node)) (node_type : Text) (n h : ℕ)
      → rows ≡ create_columns node_type n h
      → ((t : Text) → Memᴰ t (names rows) → Memᴰ t (get_all_nodes g))
      → (x y : ℕ) → x < n
      → y < h
      → Spot (at rows x y) (node node_type x y)
  table-Spot rows node_type n h e inside x y hx hy =
      let found : at rows x y ≡ ok (node node_type x y) =
        ap (λ r. at r x y) e ∙ at-create_columns node_type n h x y hx hy in
      (found, inside (node_name node_type x y) (Memᴰ-at rows x y (node node_type x y) found))

module _ (g : NocGraph) {num_col num_row num_inter_rows : ℕ}
    (l : IsLaidOut g num_col num_row num_inter_rows) where
  pub nmu-Spot :
      (x y : ℕ) → x < num_col → y < num_row → Spot g (at g.nmu_nodes x y) (node (codes "nmu") x y)
  nmu-Spot =
      table-Spot g g.nmu_nodes (codes "nmu") num_col num_row l.nmu (λ t m. Memᴰ.append_left _ m)

  pub nsu-Spot :
      (x y : ℕ) → x < num_col → y < num_row → Spot g (at g.nsu_nodes x y) (node (codes "nsu") x y)
  nsu-Spot =
      table-Spot g g.nsu_nodes (codes "nsu") num_col num_row l.nsu
        (λ t m. Memᴰ.append_right (names g.nmu_nodes) (Memᴰ.append_left _ m))

  pub vnoc-Spot :
      (x y : ℕ)
      → x < num_col
      → y < num_row * 2
      → Spot g (at g.nps_vnoc_nodes x y) (node (codes "nps_vnoc") x y)
  vnoc-Spot = table-Spot g g.nps_vnoc_nodes (codes "nps_vnoc") num_col (num_row * 2) l.vnoc (λ t m.
      Memᴰ.append_right (names g.nmu_nodes)
        (Memᴰ.append_right (names g.nsu_nodes) (Memᴰ.append_left _ m)))

  pub hnoc-Spot :
      (x y : ℕ)
      → x < num_col
      → y < num_inter_rows
      → Spot g (at g.nps_hnoc_nodes x y) (node (codes "nps_hnoc") x y)
  hnoc-Spot = table-Spot g g.nps_hnoc_nodes (codes "nps_hnoc") num_col num_inter_rows l.hnoc (λ t m.
      Memᴰ.append_right (names g.nmu_nodes) (
        Memᴰ.append_right (names g.nsu_nodes)
          (Memᴰ.append_right (names g.nps_vnoc_nodes) (Memᴰ.append_left _ m))))

  pub slr0-Spot :
      (x y : ℕ)
      → x < num_col
      → y < 4
      → Spot g (at g.nps_slr0_nodes x y) (node (codes "nps_slr0") x y)
  slr0-Spot = table-Spot g g.nps_slr0_nodes (codes "nps_slr0") num_col 4 l.slr0 (λ t m.
      Memᴰ.append_right (names g.nmu_nodes) (
        Memᴰ.append_right (names g.nsu_nodes) (
          Memᴰ.append_right (names g.nps_vnoc_nodes)
            (Memᴰ.append_right (names g.nps_hnoc_nodes) (Memᴰ.append_left _ m)))))

  pub ncrb-Spot :
      (x y : ℕ)
      → x < num_col - 1
      → y < num_inter_rows
      → Spot g (at g.ncrb_nodes x y) (node (codes "ncrb") x y)
  ncrb-Spot = table-Spot g g.ncrb_nodes (codes "ncrb") (num_col - 1) num_inter_rows l.ncrb (λ t m.
      Memᴰ.append_right (names g.nmu_nodes) (
        Memᴰ.append_right (names g.nsu_nodes) (
          Memᴰ.append_right (names g.nps_vnoc_nodes) (
            Memᴰ.append_right (names g.nps_hnoc_nodes)
              (Memᴰ.append_right (names g.nps_slr0_nodes) (Memᴰ.append_left _ m))))))

-- Nodes of one type at different places have different names.
pub node_name-ne : (t : Text) (x y u v : ℕ) → (x ≢ u) ⊎ (y ≢ v) → node_name t x y ≢ node_name t u v
node_name-ne t x y u v h e = let (a, b) = node_name_inj t x y u v e in ground arith
