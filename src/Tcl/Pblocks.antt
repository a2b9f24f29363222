-- ===== src/Tcl/Pblocks.antt =====
-- tcl_helper.py: export_noc_constraint.
use rapidstream_noc.Common.{
  ℕ, suc, List, [], ◌∷◌, ◌++◌, if◌then◌else◌, Result, ok, ◌>>=◌, map_each, Dict, item,
}
use rapidstream_noc.Common.Text.{Text, codes}
use rapidstream_noc.Common.Text.Equality.{text_elem}
use rapidstream_noc.Device.{Device, Ends}
use rapidstream_noc.Tcl.{zfill2, lines, concat_slot_nodes}

-- A slot that is not in the list yet goes to its end.
abbrev pub add_unique : List Text → Text → List Text
add_unique unique_slots slot =
    if text_elem slot unique_slots then unique_slots else unique_slots ++ slot ∷ []

-- The loop over the streams.
unfoldable pub unique_slots_of : Dict (Ends Text) → List Text → List Text → Result (List Text)
unique_slots_of streams_slots unique_slots [] = ok unique_slots
unique_slots_of streams_slots unique_slots (s ∷ noc_streams) = do
  slots ← item s streams_slots
  unique_slots_of streams_slots (add_unique (add_unique unique_slots slots.src) slots.dest)
      noc_streams

-- The command that creates the two areas of a slot.
unfoldable pub noc_pblocks : Text → Text → Text → Text
noc_pblocks slot slot_nmu_nodes slot_nsu_nodes = lines (
    []
    ∷ codes "# begin defining a slot for NoC resources"
    ∷ (codes "create_pblock " ++ slot ++ codes "_nmu")
    ∷ (codes "resize_pblock " ++ slot ++ codes "_nmu -add {" ++ slot_nmu_nodes ++ codes "}")
    ∷ (codes "create_pblock " ++ slot ++ codes "_nsu")
    ∷ (codes "resize_pblock " ++ slot ++ codes "_nsu -add {" ++ slot_nsu_nodes ++ codes "}")
    ∷ []
    ∷ [])

unfoldable pub slot_noc_pblocks : Device → Text → Result Text
unfolding concat_slot_nodes noc_pblocks
slot_noc_pblocks device slot = do
  slot_nmu_nodes ← concat_slot_nodes slot (codes "nmu") (codes " ") device
  slot_nsu_nodes ← concat_slot_nodes slot (codes "nsu") (codes " ") device
  ok (noc_pblocks slot slot_nmu_nodes slot_nsu_nodes)

-- The command that puts the ports of a stream into the areas of its slots.
unfoldable pub noc_cells : ℕ → Ends Text → Text
noc_cells port_num slots = lines (
    (codes "add_cells_to_pblock "
      ++ slots.src
      ++ codes "_nmu [get_cells */axis_noc_dut/inst/S"
      ++ zfill2 port_num
      ++ codes "_AXIS_nmu/*top_INST/NOC_NMU512_INST]")
    ∷ (codes "add_cells_to_pblock "
        ++ slots.dest
        ++ codes "_nsu [get_cells */axis_noc_dut/inst/M"
        ++ zfill2 port_num
        ++ codes "_AXIS_nsu/*top_INST/NOC_NSU512_INST]")
    ∷ [])

-- The loop over the streams, from the number of the next one.
unfoldable pub all_noc_cells : Dict (Ends Text) → ℕ → List Text → Result (List Text)
unfolding noc_cells
all_noc_cells streams_slots port_num [] = ok []
all_noc_cells streams_slots port_num (s ∷ noc_streams) = do
  slots ← item s streams_slots
  rest ← all_noc_cells streams_slots (suc port_num) noc_streams
  ok (noc_cells port_num slots ∷ rest)

unfoldable pub export_noc_constraint : Dict (Ends Text) → List Text → Device → Result (List Text)
unfolding unique_slots_of slot_noc_pblocks all_noc_cells map_each
export_noc_constraint streams_slots noc_streams device = do
  unique_slots ← unique_slots_of streams_slots [] noc_streams
  pblocks ← map_each unique_slots (slot_noc_pblocks device)
  cells ← all_noc_cells streams_slots 0 noc_streams
  ok (pblocks ++ cells)
