-- ===== src/Vh1582/Hbm.antt =====
-- The HBM part of a laid-out graph: its nodes, and the edges of its loops.
use mathlib.Core.List.Memᴰ
use mathlib.Core.List.{Memᴰ}
use mathlib.Core.Path.{subst, fun_ext}
use rapidstream_noc.Common.{
  ℕ, ◌+◌, ◌-◌, ◌*◌, ◌<◌, ◌≤◌, ◌≡◌, refl, ap, ◌∙◌, inl, inr, List, [], ◌∷◌, ◌++◌, map, range, All,
  arith, le→leb, ok, Returns, get_item, ◌>>=◌, >>=-eq-ok,
}
use rapidstream_noc.Common.Text.{Text, codes}
use rapidstream_noc.Common.Text.Equality.{ne_of_clash}
use rapidstream_noc.Graph.{Node, NocGraph, names, bank_names, row_names, at, at_sub}
use rapidstream_noc.Graph.Names.{node, create_columns, get_item-map-range, Memᴰ-at, Memᴰ-get_item}
use rapidstream_noc.Fabric.Layout.{
  IsLaidOut, IsLink, Spot, bidir-IsLink, one-IsLink, loop-IsLink, steps-IsLink, table-Spot,
  vnoc-Spot, node_name-ne,
}
use rapidstream_noc.Vh1582.{mc_node, mc_at, create_nps_hbm_edges, mc_switch_edges, hbm_row_edges}

pub record IsHbmLaidOut (g : NocGraph) (num_col : ℕ) : Type 0 where
  pub nps_hbm : g.nps_hbm_nodes ≡ create_columns (codes "nps_hbm") num_col 4
  pub ncrb_hbm : g.ncrb_hbm_nodes ≡ create_columns (codes "ncrb_hbm") num_col 2
  pub hbm_mc :
      g.hbm_mc_nodes
      ≡ map (λ x. map (λ pc. map (λ p. mc_node x pc p) (range 2)) (range 2)) (range 16)
  pub nmu_hbm : g.nmu_hbm_nodes ≡ map (λ x. node (codes "nmu_hbm") x 0) (range 64)
  pub nps4 : g.nps4_hbm_mc_nodes ≡ map (λ x. node (codes "nps4_hbm_mc") x 0) (range 16)
  pub nps6 : g.nps6_hbm_mc_nodes ≡ create_columns (codes "nps6_hbm_mc") 8 4

-- The tables that stand before the HBM ones among all nodes.
module _ (g : NocGraph) where
  after_fabric :
      {t : Text} {rest : List Text}
      → Memᴰ t rest
      → Memᴰ t (
          names g.nmu_nodes
          ++ (names g.nsu_nodes
              ++ (names g.nps_vnoc_nodes
                  ++ (names g.nps_hnoc_nodes
                      ++ (names g.nps_slr0_nodes ++ (names g.ncrb_nodes ++ rest))))))
  after_fabric m = Memᴰ.append_right (names g.nmu_nodes) (
      Memᴰ.append_right (names g.nsu_nodes) (
        Memᴰ.append_right (names g.nps_vnoc_nodes) (
          Memᴰ.append_right (names g.nps_hnoc_nodes) (
            Memᴰ.append_right (names g.nps_slr0_nodes)
              (Memᴰ.append_right (names g.ncrb_nodes) m)))))

  after_switches :
      {t : Text} {rest : List Text}
      → Memᴰ t rest
      → Memᴰ t (names g.nps_hbm_nodes ++ (names g.ncrb_hbm_nodes ++ rest))
  after_switches m =
      Memᴰ.append_right (names g.nps_hbm_nodes) (Memᴰ.append_right (names g.ncrb_hbm_nodes) m)

Memᴰ-bank_names :
    (banks : List (List (List Node))) (rows : List (List Node)) (t : Text)
    → Memᴰ rows banks
    → Memᴰ t (names rows)
    → Memᴰ t (bank_names banks)
Memᴰ-bank_names [] rows t h m = absurd (Memᴰ.not-nil h)
Memᴰ-bank_names (b ∷ banks) rows t (Memᴰ.head e) m =
    Memᴰ.append_left (bank_names banks) (subst (λ r. Memᴰ t (names r)) e m)
Memᴰ-bank_names (b ∷ banks) rows t (Memᴰ.tail h) m =
    Memᴰ.append_right (names b) (Memᴰ-bank_names banks rows t h m)

module _ (g : NocGraph) {num_col : ℕ} (l : IsHbmLaidOut g num_col) where
  nps_hbm-Spot :
      (x y : ℕ) → x < num_col → y < 4 → Spot g (at g.nps_hbm_nodes x y) (node (codes "nps_hbm") x y)
  nps_hbm-Spot =
      table-Spot g g.nps_hbm_nodes (codes "nps_hbm") num_col 4 l.nps_hbm
        (λ t m. after_fabric g (Memᴰ.append_left _ m))

  ncrb_hbm-Spot :
      (x y : ℕ)
      → x < num_col
      → y < 2
      → Spot g (at g.ncrb_hbm_nodes x y) (node (codes "ncrb_hbm") x y)
  ncrb_hbm-Spot =
      table-Spot g g.ncrb_hbm_nodes (codes "ncrb_hbm") num_col 2 l.ncrb_hbm
        (λ t m. after_fabric g (Memᴰ.append_right (names g.nps_hbm_nodes) (Memᴰ.append_left _ m)))

  nps6-Spot :
      (x y : ℕ)
      → x < 8
      → y < 4
      → Spot g (at g.nps6_hbm_mc_nodes x y) (node (codes "nps6_hbm_mc") x y)
  nps6-Spot = table-Spot g g.nps6_hbm_mc_nodes (codes "nps6_hbm_mc") 8 4 l.nps6 (λ t m.
      after_fabric g (
        after_switches g (
          Memᴰ.append_right (bank_names g.hbm_mc_nodes) (
            Memᴰ.append_right (row_names g.nmu_hbm_nodes)
              (Memᴰ.append_right (row_names g.nps4_hbm_mc_nodes) m)))))

  nps4-Spot :
      (x : ℕ) → x < 16 → Spot g (get_item g.nps4_hbm_mc_nodes x) (node (codes "nps4_hbm_mc") x 0)
  nps4-Spot x h =
      let found =
        ap (λ r. get_item r x) l.nps4
        ∙ get_item-map-range (λ k. node (codes "nps4_hbm_mc") k 0) 16 x h in
      (
        found,
        after_fabric g (
            after_switches g (
              Memᴰ.append_right (bank_names g.hbm_mc_nodes) (
                Memᴰ.append_right (row_names g.nmu_hbm_nodes) (
                  Memᴰ.append_left _
                    (Memᴰ.map (λ n. n.name) (Memᴰ-get_item g.nps4_hbm_mc_nodes x _ found)))))),
      )

  nmu_hbm-Spot : (x : ℕ) → x < 64 → Spot g (get_item g.nmu_hbm_nodes x) (node (codes "nmu_hbm") x 0)
  nmu_hbm-Spot x h =
      let found =
        ap (λ r. get_item r x) l.nmu_hbm
        ∙ get_item-map-range (λ k. node (codes "nmu_hbm") k 0) 64 x h in
      (
        found,
        after_fabric g (
            after_switches g (
              Memᴰ.append_right (bank_names g.hbm_mc_nodes) (
                Memᴰ.append_left _
                  (Memᴰ.map (λ n. n.name) (Memᴰ-get_item g.nmu_hbm_nodes x _ found))))),
      )

  mc_found : (x pc p : ℕ) → x < 16 → pc < 2 → p < 2 → mc_at g x pc p ≡ ok (mc_node x pc p)
  mc_found x pc p hx hpc hp =
      ap (λ r. get_item r x >>= λ controller. at controller pc p) l.hbm_mc
      ∙ rw (
        get_item-map-range (λ x'. map (λ pc'. map (λ p'. mc_node x' pc' p') (range 2)) (range 2)) 16
            x hx,
        get_item-map-range (λ pc'. map (λ p'. mc_node x pc' p') (range 2)) 2 pc hpc,
        get_item-map-range (λ p'. mc_node x pc p') 2 p hp,
      )

  mc-Spot : (x pc p : ℕ) → x < 16 → pc < 2 → p < 2 → Spot g (mc_at g x pc p) (mc_node x pc p)
  mc-Spot x pc p hx hpc hp =
      let found = mc_found x pc p hx hpc hp in
      let (controller, e, inner) =
        >>=-eq-ok (get_item g.hbm_mc_nodes x) (λ controller. at controller pc p) found in
      (
        found,
        after_fabric g (
            after_switches g (
              Memᴰ.append_left _ (
                Memᴰ-bank_names g.hbm_mc_nodes controller _
                  (Memᴰ-get_item g.hbm_mc_nodes x controller e)
                  (Memᴰ-at controller pc p _ inner)))),
      )

  pub mc_switch_edges-IsLink : Returns (All (IsLink g)) (mc_switch_edges g)
  unfolding mc_switch_edges
  mc_switch_edges-IsLink = steps-IsLink g _ (
    loop-IsLink g 8 _ (λ x hx. loop-IsLink g 2 _ λ pc hpc. loop-IsLink g 2 _ λ p hp.
        steps-IsLink g _ (
          bidir-IsLink g _ _ (mc-Spot (x * 2) pc p (omega arith) hpc hp)
              (nps4-Spot (x * 2 + p) (omega arith)) (ne_of_clash _ _ refl),
          (
            bidir-IsLink g _ _ (mc-Spot (x * 2 + 1) pc p (omega arith) hpc hp)
                (nps4-Spot (x * 2 + p) (omega arith)) (ne_of_clash _ _ refl),
            tt,
          ),
        )),
    (
      loop-IsLink g 8 _ (λ x hx. loop-IsLink g 4 _ λ y hy. loop-IsLink g 2 _ λ xx hxx.
          bidir-IsLink g _ _ (nmu_hbm-Spot (x * 8 + y * 2 + xx) (omega arith)) (nps6-Spot x y hx hy)
            (ne_of_clash _ _ refl)),
      (
        loop-IsLink g 8 _ (λ x hx. loop-IsLink g 4 _ λ y hy. loop-IsLink g 2 _ λ xx hxx.
            bidir-IsLink g _ _ (nps6-Spot x y hx hy) (nps4-Spot (x * 2 + xx) (omega arith))
              (ne_of_clash _ _ refl)),
        tt,
      ),
    ),
  )

  pub hbm_row_edges-IsLink : num_col ≡ 4 → Returns (All (IsLink g)) (hbm_row_edges g num_col)
  unfolding hbm_row_edges
  hbm_row_edges-IsLink four = steps-IsLink g _ (
    loop-IsLink g 4 _ (λ row hr. steps-IsLink g _ (
      bidir-IsLink g _ _ (nps6-Spot 0 row (omega arith) hr) (nps_hbm-Spot 0 row (omega arith) hr)
          (ne_of_clash _ _ refl),
      (
        bidir-IsLink g _ _ (nps_hbm-Spot 3 row (omega arith) hr) (nps6-Spot 7 row (omega arith) hr)
            (ne_of_clash _ _ refl),
        tt,
      ),
    )),
    (
      loop-IsLink g (num_col - 1) _ (λ x hx. loop-IsLink g 4 _ λ row hr. steps-IsLink g _ (
        bidir-IsLink g _ _ (nps_hbm-Spot x row (omega arith) hr)
            (nps6-Spot (x * 2 + 1) row (omega arith) hr) (ne_of_clash _ _ refl),
        (
          bidir-IsLink g _ _ (nps6-Spot (x * 2 + 1) row (omega arith) hr)
              (nps6-Spot (x * 2 + 2) row (omega arith) hr)
              (node_name-ne (codes "nps6_hbm_mc") (x * 2 + 1) row (x * 2 + 2) row
                (inl (omega arith))),
          (
            bidir-IsLink g _ _ (nps6-Spot (x * 2 + 2) row (omega arith) hr)
                (nps_hbm-Spot (x + 1) row (omega arith) hr) (ne_of_clash _ _ refl),
            tt,
          ),
        ),
      )),
      tt,
    ),
  )

at_sub-at : (rows : List (List Node)) (x a b : ℕ) → b ≤ a → at_sub rows x a b ≡ at rows x (a - b)
at_sub-at rows x a b h = ap (λ f. get_item rows x >>= f) (fun_ext λ row. rw (le→leb b a h))

-- Counting back from above the end of a table, but not below its start.
pub vnoc_sub-Spot :
    (g : NocGraph) {num_col num_row num_inter_rows : ℕ}
    (l : IsLaidOut g num_col num_row num_inter_rows) (x a b : ℕ)
    → x < num_col
    → b ≤ a
    → a < num_row * 2 + b
    → Spot g (at_sub g.nps_vnoc_nodes x a b) (node (codes "nps_vnoc") x (a - b))
vnoc_sub-Spot g l x a b hx h room =
    let (found, declared) = vnoc-Spot g l x (a - b) hx (omega arith) in
    (at_sub-at g.nps_vnoc_nodes x a b h ∙ found, declared)

module _ (g : NocGraph) {num_col num_row num_inter_rows : ℕ}
    (l : IsLaidOut g num_col num_row num_inter_rows) (h : IsHbmLaidOut g num_col) where
  pub create_nps_hbm_edges-IsLink :
      0 < num_row → Returns (All (IsLink g)) (create_nps_hbm_edges g num_col num_row)
  unfolding create_nps_hbm_edges
  create_nps_hbm_edges-IsLink some_row = steps-IsLink g _ (
    loop-IsLink g num_col _ (λ x hx. loop-IsLink g 2 _ λ r hr.
        let top = vnoc_sub-Spot g l x (num_row * 2 + r) 2 hx (omega arith) (omega arith) in
        let c0 = ncrb_hbm-Spot g h x 0 hx (omega arith) in
        let c1 = ncrb_hbm-Spot g h x 1 hx (omega arith) in
        let switch = nps_hbm-Spot g h x r hx (omega arith) in
        steps-IsLink g _ (
          one-IsLink g _ _ c0 top (ne_of_clash _ _ refl),
          (
            one-IsLink g _ _ top c1 (ne_of_clash _ _ refl),
            (
              one-IsLink g _ _ switch c0 (ne_of_clash _ _ refl),
              (one-IsLink g _ _ c1 switch (ne_of_clash _ _ refl), tt),
            ),
          ),
        )),
    (
      loop-IsLink g num_col _ (λ x hx. steps-IsLink g _ (
        loop-IsLink g 2 _ (λ row hr.
            bidir-IsLink g _ _ (nps_hbm-Spot g h x (row + 2) hx (omega arith))
              (nps_hbm-Spot g h x row hx (omega arith))
              (node_name-ne (codes "nps_hbm") x (row + 2) x row (inr (omega arith)))),
        (
          bidir-IsLink g _ _ (nps_hbm-Spot g h x 2 hx (omega arith))
              (nps_hbm-Spot g h x 3 hx (omega arith))
              (node_name-ne (codes "nps_hbm") x 2 x 3 (inr (omega arith))),
          tt,
        ),
      )),
      tt,
    ),
  )
