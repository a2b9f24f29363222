-- ===== src/Tcl.antt =====
-- tcl_helper.py: the location constraints of NMUs and NSUs, as the list of their lines. What the code
-- prints besides is not modelled.
pub mod Sites
pub mod Project
pub mod Floorplan
pub mod Pblocks
pub mod Areas
pub mod Tests
use rapidstream_noc.Common.{
  ℕ, zero, suc, ◌+◌, ◌-◌, List, [], ◌∷◌, ◌++◌, Result, ok, err, value_error, ◌>>=◌, ltb, leb, ◌&&◌,
  if◌then◌else◌, map, map_each, get_item, item, length, Dict,
}
use rapidstream_noc.Common.Text.{Text, codes, str_of, split}
use rapidstream_noc.Device.{Device, Ends, get_slot_nodes}

-- `x, y = parts`.
abbrev pub two : List Text → Result (Text × Text)
two (x ∷ y ∷ []) = ok (x, y)
two _ = err value_error

-- `name.split("x")[1].split("y")`.
unfoldable pub split_x_y : Text → Result (Text × Text)
split_x_y name = do after_x ← get_item (split name (codes "x")) 1; two (split after_x (codes "y"))

-- `str(n).zfill(2)`.
abbrev pub zfill2 : ℕ → Text
zfill2 n = if ltb (length (str_of n)) 2 then codes "0" ++ str_of n else str_of n

-- `s.upper()`, for ASCII letters.
abbrev pub upper : Text → Text
upper s = map (λ c. if leb b'a' c && leb c b'z' then c - 32 else c) s

-- `f"NOC_{kind}512_X{x}Y{y}"`.
abbrev pub site : Text → Text × Text → Text
site kind (x, y) = codes "NOC_" ++ (kind ++ (codes "512_X" ++ (x ++ (codes "Y" ++ y))))

abbrev pub located : Text → Text → Text
located loc pin =
    codes "set_property -dict [list CONFIG.PHYSICAL_LOC "
    ++ (loc ++ (codes "] [get_bd_intf_pins " ++ (pin ++ codes "]")))

-- The loop over the sites, from the number of the next port.
unfoldable pub mmap_lines : ℕ → List Text → List Text
mmap_lines port_num [] = []
mmap_lines port_num (loc ∷ nmu_sites) =
    located loc (codes "/axi_noc_dut/S" ++ (zfill2 (port_num + 8) ++ codes "_AXI"))
    ∷ mmap_lines (suc port_num) nmu_sites

unfoldable pub print_mmap_noc_loc_tcl : List Text → List Text
unfolding mmap_lines
print_mmap_noc_loc_tcl nmu_sites = mmap_lines 0 nmu_sites

abbrev pub braced : Text → Text
braced s = codes "{" ++ (s ++ codes "}")

abbrev pub stream_pin : Text → ℕ → Text
stream_pin side port_num = codes "/axis_noc_dut/" ++ (side ++ (zfill2 port_num ++ codes "_AXIS"))

-- The loop over the nodes of the streams, from the number of the next port.
unfoldable pub stream_lines : ℕ → List (Text × (Text × Text)) → Result (List Text)
unfolding split_x_y
stream_lines port_num [] = ok []
stream_lines port_num ((s, (nmu_loc, nsu_loc)) ∷ node_loc) = do
  nmu ← split_x_y nmu_loc
  nsu ← split_x_y nsu_loc
  rest ← stream_lines (suc port_num) node_loc
  ok (
      located (braced (site (codes "NMU") nmu)) (stream_pin (codes "S") port_num)
      ∷ located (braced (site (codes "NSU") nsu)) (stream_pin (codes "M") port_num)
      ∷ rest)

unfoldable pub print_stream_noc_loc_tcl : List (Text × (Text × Text)) → Result (List Text)
unfolding stream_lines
print_stream_noc_loc_tcl node_loc = stream_lines 0 node_loc

-- `sep.join(names)`.
abbrev pub join : Text → List Text → Text
join sep [] = []
join sep (n ∷ []) = n
join sep (n ∷ m ∷ names) = n ++ (sep ++ join sep (m ∷ names))

-- A text of several lines.
abbrev pub lines : List Text → Text
lines ls = join (codes "\n") ls

unfoldable pub concat_slot_nodes : Text → Text → Text → Device → Result Text
unfolding get_slot_nodes split_x_y
concat_slot_nodes slot node_type sep d = do
  names ← get_slot_nodes slot node_type d
  slot_nodes ← map_each names (λ n. split_x_y n >>= λ xy. ok (site (upper node_type) xy))
  ok (join sep slot_nodes)

-- A property of the text for one stream, after a line break.
abbrev pub located_line : Text → Text → Text
located_line loc pin =
    10 ∷ codes "set_property -dict [list CONFIG.PHYSICAL_LOC "
    ++ (braced loc ++ (codes "]     [get_bd_intf_pins " ++ (pin ++ codes "]")))

unfoldable pub dump_lines : Dict (Ends Text) → Device → ℕ → List Text → Result (List Text)
unfolding concat_slot_nodes
dump_lines streams_slots d port_num [] = ok []
dump_lines streams_slots d port_num (s ∷ noc_streams) = do
  slots ← item s streams_slots
  slot_nmu_nodes ← concat_slot_nodes slots.src (codes "nmu") (codes ":") d
  slot_nsu_nodes ← concat_slot_nodes slots.dest (codes "nsu") (codes ":") d
  rest ← dump_lines streams_slots d (suc port_num) noc_streams
  ok (
      (located_line slot_nmu_nodes (stream_pin (codes "S") port_num)
        ++ (located_line slot_nsu_nodes (stream_pin (codes "M") port_num) ++ 10 ∷ []))
      ∷ rest)

unfoldable pub dump_streams_loc_tcl : Dict (Ends Text) → List Text → Device → Result (List Text)
unfolding dump_lines
dump_streams_loc_tcl streams_slots noc_streams d = dump_lines streams_slots d 0 noc_streams
