-- ===== src/Tcl/Floorplan.antt =====
-- tcl_helper.py: export_constraint and export_control_s_axi_constraint.
use rapidstream_noc.Common.{
  List, [], ◌∷◌, ◌++◌, map, Bool, false, ◌||◌, if◌then◌else◌, Result, ok, err, assertion_error,
  not_implemented, unbound_local_error, guard, ◌>>=◌, ◌>>◌, map_each, Dict,
}
use rapidstream_noc.Common.Text.{Text, codes, text_eq, starts_with, contains, split}
use rapidstream_noc.Slots.{extract_slot_coord}
use rapidstream_noc.Device.{Device, get_slot_cr}
use rapidstream_noc.Tcl.{two, lines, concat_slot_nodes}

-- The pin of a device, which is not assigned for other part numbers.
unfoldable pub unused_clk_pin_of : Text → Result Text
unfolding starts_with
unused_clk_pin_of part_num =
    if starts_with part_num (codes "xcvh1582")
    then ok (codes "BP53")
    else if starts_with part_num (codes "xcvp1802")
    then ok (codes "BT48")
    else err unbound_local_error

-- The first command, for that pin.
unfoldable pub dummy_pins : Text → Text
dummy_pins unused_clk_pin = lines (
    []
    ∷ codes "# assign tb clk and reset to dummy pins for synthesis"
    ∷ (codes "set_property PACKAGE_PIN {" ++ unused_clk_pin ++ codes "} [get_ports pl0_ref_clk_0]")
    ∷ codes "set_property IOSTANDARD LVDCI_15 [get_ports pl0_ref_clk_0]"
    ∷ []
    ∷ codes "# Initialize an empty list to store undefined cells"
    ∷ codes "set undefined_cells {}"
    ∷ []
    ∷ [])

-- The command that creates the area of a slot, for its clock regions.
unfoldable pub slot_pblock : Text → Text → Text
slot_pblock slot cr = lines (
    []
    ∷ codes "# begin defining a slot for logic resources"
    ∷ (codes "create_pblock " ++ slot)
    ∷ (codes "resize_pblock " ++ slot ++ codes " -add " ++ cr)
    ∷ []
    ∷ [])

-- The loop's body for one slot.
unfoldable pub resize : Device → Text → Result Text
unfolding extract_slot_coord get_slot_cr slot_pblock split text_eq
resize device slot = do
  (slot1, slot2) ← two (split slot (codes "_TO_"))
  guard (text_eq slot1 slot2) assertion_error
  (x, y) ← extract_slot_coord slot1
  cr ← get_slot_cr device x y
  ok (slot_pblock slot cr)

-- The end of the commands that put the modules of a slot into its area.
unfoldable pub add_cells : Text → Text
add_cells slot = lines (
    codes "}"
    ∷ (codes "add_cells_to_pblock [get_pblocks "
        ++ slot
        ++ codes "] [get_cells -regex $"
        ++ slot
        ++ codes "_cells]")
    ∷ []
    ∷ codes "# Iterate through each cell in the list"
    ∷ (codes "foreach cell $" ++ slot ++ codes "_cells {")
    ∷ codes "    set defined [llength [get_cells $cell]]"
    ∷ codes "    if { $defined == 0 } {"
    ∷ codes "        lappend undefined_cells $cell"
    ∷ codes "    }"
    ∷ codes "}"
    ∷ []
    ∷ [])

unfoldable pub slot_cells : Text → List Text → List Text
unfolding add_cells
slot_cells slot mods =
    (codes "set " ++ slot ++ codes "_cells {") ∷ map (λ m. codes "    top_arm_i/dut_0/" ++ m) mods
    ++ add_cells slot ∷ []

abbrev pub all_cells : Dict (List Text) → List Text
all_cells [] = []
all_cells ((slot, mods) ∷ floorplan) = slot_cells slot mods ++ all_cells floorplan

abbrev pub undefined_cells : Text
undefined_cells = lines (
    []
    ∷ codes "if {[llength $undefined_cells] > 0} {"
    ∷ codes "    puts \"Undefined cells:\""
    ∷ codes "    foreach cell $undefined_cells {"
    ∷ codes "        puts $cell"
    ∷ codes "    }"
    ∷ codes "}"
    ∷ []
    ∷ [])

unfoldable pub export_constraint : Dict (List Text) → Device → Result (List Text)
unfolding unused_clk_pin_of dummy_pins resize slot_cells map_each
export_constraint floorplan device = do
  unused_clk_pin ← unused_clk_pin_of device.part_num
  pblocks ← map_each floorplan (λ (slot, mods). resize device slot)
  ok (dummy_pins unused_clk_pin ∷ pblocks ++ all_cells floorplan ++ undefined_cells ∷ [])

-- `any(substring in e for e in mods)`.
abbrev pub any_contains : Text → List Text → Bool
any_contains substring [] = false
any_contains substring (e ∷ mods) = contains e substring || any_contains substring mods

unfoldable pub find_key_with_substring : Dict (List Text) → Text → Result Text
find_key_with_substring [] substring = err not_implemented
find_key_with_substring ((slot, mods) ∷ floorplan) substring =
    if any_contains substring mods then ok slot else find_key_with_substring floorplan substring

unfoldable pub control_nsu : Text → Text → Text
control_nsu control_slot slot_nsu_nodes = lines (
    []
    ∷ (codes "set control_nsu_pblock [get_pblocks " ++ control_slot ++ codes "_nsu]")
    ∷ codes "if {[llength $control_nsu_pblock] == 0} {"
    ∷ (codes "    create_pblock " ++ control_slot ++ codes "_nsu")
    ∷ (codes "    resize_pblock "
        ++ control_slot
        ++ codes "_nsu -add {"
        ++ slot_nsu_nodes
        ++ codes "}")
    ∷ codes "}"
    ∷ (codes "add_cells_to_pblock "
        ++ control_slot
        ++ codes "_nsu [get_cells */cips_noc/inst/M00_AXI_nsu/*top_INST/NOC_NSU512_I"
        ++ codes "NST]")
    ∷ []
    ∷ [])

unfoldable pub export_control_s_axi_constraint : Dict (List Text) → Device → Result (List Text)
unfolding find_key_with_substring concat_slot_nodes control_nsu
export_control_s_axi_constraint floorplan device = do
  control_slot ← find_key_with_substring floorplan (codes "control_s_axi")
  slot_nsu_nodes ← concat_slot_nodes control_slot (codes "nsu") (codes " ") device
  ok (control_nsu control_slot slot_nsu_nodes ∷ [])
