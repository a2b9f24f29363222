-- ===== src/Ir/Group.antt =====
-- ir_credit_based.py: add_cc_slave_group, which returns the credits of all FIFOs between two slots
-- together. A pair of slots is the key of a dictionary; a list of connections that the code keeps to
-- rewrite it later is the place of its submodule.
use rapidstream_noc.Common.{
  ℕ, zero, suc, ◌+◌, ◌*◌, ◌/◌, Bool, ◌&&◌, List, [], ◌∷◌, ◌++◌, Result, ok, ◌>>=◌, if◌then◌else◌,
  Dict, item, set_item, get_item, map_each,
}
use rapidstream_noc.Common.Text.{Text, text_eq, codes, str_of, contains}
use rapidstream_noc.Common.Text.Edit.{strip_quotes, replace_away}
use rapidstream_noc.Slots.{split_slot_region}
use rapidstream_noc.Ir.{Inst, find_repr, set_expr, create_id_expr, create_id_expr_slice, str_below}
use rapidstream_noc.Ir.Regions.{head_region}
use rapidstream_noc.Ir.Update.{with_connections}

abbrev pub SrcDest : Type 0
SrcDest = Text × Text

-- The names of the FIFOs for each pair of slots.
abbrev pub Groups : Type 0
Groups = List (SrcDest × List Text)

abbrev pub same_pair : SrcDest → SrcDest → Bool
same_pair (a, b) (c, d) = text_eq a c && text_eq b d

abbrev head_slot : Inst → Text
head_slot fifo = strip_quotes (find_repr fifo.parameters head_region)

-- The first loop of get_srcdest_grp.
unfoldable pub nmu_regions : List Inst → Dict SrcDest → Dict SrcDest
unfolding set_item
nmu_regions [] srcdest_by_fifo = srcdest_by_fifo
nmu_regions (fifo ∷ submodules) srcdest_by_fifo = nmu_regions submodules (
    if contains fifo.name (codes "nmu_")
    then set_item (replace_away fifo.name (codes "nmu_")) (head_slot fifo, head_slot fifo)
        srcdest_by_fifo
    else srcdest_by_fifo)

-- The second loop.
unfoldable pub nsu_regions : List Inst → Dict SrcDest → Result (Dict SrcDest)
unfolding set_item
nsu_regions [] srcdest_by_fifo = ok srcdest_by_fifo
nsu_regions (fifo ∷ submodules) srcdest_by_fifo =
    let n = replace_away fifo.name (codes "nsu_") in
    let skipped = nsu_regions submodules srcdest_by_fifo in
    let renewed = item n srcdest_by_fifo >>= λ (src, dest).
    nsu_regions submodules (set_item n (head_slot fifo, dest) srcdest_by_fifo) in
    if contains fifo.name (codes "nsu_") then renewed else skipped

-- `fifo_by_srcdest[srcdest].append(n)`, for a pair that may be new.
unfoldable pub join_group : SrcDest → Text → Groups → Groups
join_group srcdest n [] = (srcdest, n ∷ []) ∷ []
join_group srcdest n ((key, names) ∷ groups) =
    let rest = join_group srcdest n groups in
    if same_pair srcdest key then (key, names ++ n ∷ []) ∷ groups else (key, names) ∷ rest

unfoldable pub by_srcdest : Dict SrcDest → Groups → Groups
unfolding join_group
by_srcdest [] groups = groups
by_srcdest ((n, srcdest) ∷ fifos) groups = by_srcdest fifos (join_group srcdest n groups)

unfoldable pub get_srcdest_grp : List Inst → Result Groups
unfolding nmu_regions nsu_regions by_srcdest
get_srcdest_grp submodules =
    nsu_regions submodules (nmu_regions submodules []) >>= λ srcdest_by_fifo.
    ok (by_srcdest srcdest_by_fifo [])

-- The place of the submodule of each name that holds `key`, from the place `i` on.
unfoldable pub get_conn_dict : ℕ → List Inst → Text → Dict ℕ → Dict ℕ
unfolding set_item
get_conn_dict i [] key conn_dict = conn_dict
get_conn_dict i (fifo ∷ submodules) key conn_dict = get_conn_dict (suc i) submodules key (
    if contains fifo.name key then set_item (replace_away fifo.name key) i conn_dict else conn_dict)

-- `find_repr(nsu_conn[n], key)` for the names of a group.
abbrev pub reads_of : List Inst → Dict ℕ → Text → List Text → Result (List Text)
reads_of submodules nsu_conn key fifo_names = map_each fifo_names λ n. do
  place ← item n nsu_conn
  fifo ← get_item submodules place
  ok (find_repr fifo.connections key)

-- `math.ceil(bits / 8) * 8`.
abbrev pub whole_bytes : ℕ → ℕ
whole_bytes n = (n + 7) / 8 * 8

abbrev at_place : ℕ → (Inst → Inst) → List Inst → List Inst
at_place i change [] = []
at_place zero change (m ∷ ms) = change m ∷ ms
at_place (suc i) change (m ∷ ms) = m ∷ at_place i change ms

-- The loop that assigns the credit inputs of the masters, over the reversed names of the group.
unfoldable pub assign_slices : Text → ℕ → Dict ℕ → ℕ → List Text → List Inst → Result (List Inst)
assign_slices merged_name width cc_master_conn i [] submodules = ok submodules
assign_slices merged_name width cc_master_conn i (n ∷ names) submodules =
    item n cc_master_conn >>= λ place.
    assign_slices merged_name width cc_master_conn (suc i) names (
      at_place place
        (λ m. with_connections m (
          set_expr
            (set_expr m.connections (codes "credit_i") (
              create_id_expr_slice (merged_name ++ codes "_master_credit_i")
                (str_below ((i + 1) * width)) (str_of (i * width))))
            (codes "credit_valid_i")
            (create_id_expr ((merged_name ++ codes "_master_credit_valid_i") ∷ []))))
        submodules)

-- The loop over the pairs, for one pair.
abbrev pub merged_name_of : SrcDest → Result Text
merged_name_of (src, dest) = do
  src_name ← split_slot_region src
  dest_name ← split_slot_region dest
  ok (src_name ++ (codes "_TO_" ++ dest_name))
