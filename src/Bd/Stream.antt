-- ===== src/Bd/Stream.antt =====
-- gen_vivado_bd.py: dut_stream_noc_tcl. A bandwidth, which the code gives as a text, is a number of
-- quarters of an MB/s; one below 10 ^ 16 is printed without an exponent.
use rapidstream_noc.Common.{
  ℕ, suc, ◌+◌, ◌-◌, ◌/◌, ◌%◌, ◌==◌, leb, List, [], ◌∷◌, ◌++◌, true, if◌then◌else◌, length, Result,
  ok, ◌>>=◌, Dict,
}
use rapidstream_noc.Common.Text.{Text, codes, str_of, int_of}
use rapidstream_noc.Width.{valid_tdata_num_bytes, is_valid, round_up_to_noc_tdata}
use rapidstream_noc.Bd.{interface}
use rapidstream_noc.Tcl.{lines}

-- A stream's entry.
pub record StreamAttr : Type 0 where
  pub dest : Text
  pub bandwidth : ℕ
  pub width : Text

-- The command that creates the NoC of the streams.
unfoldable pub create_stream_noc : Dict StreamAttr → Text
create_stream_noc stream_attr = lines (
    []
    ∷ codes "# Create stream noc"
    ∷ codes "startgroup"
    ∷ (codes "set axis_noc_dut [ create_bd_cell -type ip -vlnv     "
        ++ codes "xilinx.com:ip:axis_noc:1.0 axis_noc_dut ]")
    ∷ (codes "set_property -dict [list     CONFIG.MI_TDEST_VALS {}     "
        ++ codes "CONFIG.NUM_MI {"
        ++ str_of (length stream_attr)
        ++ codes "}     CONFIG.NUM_SI {"
        ++ str_of (length stream_attr)
        ++ codes "}     CONFIG.SI_DESTID_PINS {}     CONFIG.TDEST_WIDTH {0} ] "
        ++ codes "$axis_noc_dut")
    ∷ (codes "set_property CONFIG.ASSOCIATED_BUSIF [concat_axi_pins "
        ++ codes "$axis_noc_dut]     [get_bd_pins axis_noc_dut/aclk0]")
    ∷ []
    ∷ []
    ∷ [])

abbrev pub noc_m_port : ℕ → Text
noc_m_port i = interface (codes "M") i (codes "_AXIS")

abbrev pub noc_s_port : ℕ → Text
noc_s_port i = interface (codes "S") i (codes "_AXIS")

-- `str` of a floating-point number of quarters.
abbrev pub quarters : ℕ → Text
quarters q =
    str_of (q / 4)
    ++ (if q % 4 == 0
        then codes ".0"
        else if q % 4 == 1
        then codes ".25"
        else if q % 4 == 2
        then codes ".5"
        else codes ".75")

-- The text of `float(attr["bandwidth"]) - 100`.
abbrev pub float_less_100 : ℕ → Text
float_less_100 q = if leb 400 q then quarters (q - 400) else codes "-" ++ quarters (400 - q)

-- The connection of the stream with the number `i` inside the NoC.
unfoldable pub stream_connection : ℕ → ℕ → Text
stream_connection i bandwidth = lines (
    []
    ∷ (codes "set_property -dict [list CONFIG.CONNECTIONS {"
        ++ noc_m_port i
        ++ codes "     { write_bw {"
        ++ float_less_100 bandwidth
        ++ codes "} write_avg_burst {8}}}] [get_bd_intf_pins /axis_noc_dut/"
        ++ noc_s_port i
        ++ codes "]")
    ∷ []
    ∷ [])

-- The connections to the NoC through two width converters.
unfoldable pub converted : ℕ → Text → Text → Text → ℕ → Text
converted i src dest roundup_num_bytes num_bytes = lines (
    []
    ∷ (codes "create_bd_cell -type ip -vlnv "
        ++ codes "xilinx.com:ip:axis_dwidth_converter:1.1     "
        ++ codes "axis_dwidth_converter_to_noc_"
        ++ str_of i)
    ∷ (codes "set_property CONFIG.M_TDATA_NUM_BYTES {"
        ++ roundup_num_bytes
        ++ codes "}     [get_bd_cells axis_dwidth_converter_to_noc_"
        ++ str_of i
        ++ codes "]")
    ∷ (codes "# connect_bd_net [get_bd_pins axis_dwidth_converter_to_noc_"
        ++ str_of i
        ++ codes "/aclk] #     [get_bd_pins clk_wizard_0/clk_out1]")
    ∷ (codes "connect_bd_net [get_bd_pins axis_dwidth_converter_to_noc_"
        ++ str_of i
        ++ codes "/aclk]     [get_bd_pins CIPS_0/pl0_ref_clk]")
    ∷ (codes "connect_bd_net [get_bd_pins axis_dwidth_converter_to_noc_"
        ++ str_of i
        ++ codes "/aresetn]     [get_bd_pins proc_sys_reset_0/peripheral_aresetn]")
    ∷ (codes "connect_bd_intf_net [get_bd_intf_pins $dut/"
        ++ src
        ++ codes "]     [get_bd_intf_pins axis_dwidth_converter_to_noc_"
        ++ str_of i
        ++ codes "/S_AXIS]")
    ∷ (codes "connect_bd_intf_net [get_bd_intf_pins "
        ++ codes "axis_dwidth_converter_to_noc_"
        ++ str_of i
        ++ codes "/M_AXIS]     [get_bd_intf_pins axis_noc_dut/"
        ++ noc_s_port i
        ++ codes "]")
    ∷ []
    ∷ (codes "create_bd_cell -type ip -vlnv "
        ++ codes "xilinx.com:ip:axis_dwidth_converter:1.1     "
        ++ codes "axis_dwidth_converter_to_dut_"
        ++ str_of i)
    ∷ (codes "set_property -dict [list     CONFIG.S_TDATA_NUM_BYTES {"
        ++ roundup_num_bytes
        ++ codes "}     CONFIG.M_TDATA_NUM_BYTES {"
        ++ str_of num_bytes
        ++ codes "} ] [get_bd_cells axis_dwidth_converter_to_dut_"
        ++ str_of i
        ++ codes "]")
    ∷ (codes "# connect_bd_net [get_bd_pins axis_dwidth_converter_to_dut_"
        ++ str_of i
        ++ codes "/aclk] #     [get_bd_pins clk_wizard_0/clk_out1]")
    ∷ (codes "connect_bd_net [get_bd_pins axis_dwidth_converter_to_dut_"
        ++ str_of i
        ++ codes "/aclk]     [get_bd_pins CIPS_0/pl0_ref_clk]")
    ∷ (codes "connect_bd_net [get_bd_pins axis_dwidth_converter_to_dut_"
        ++ str_of i
        ++ codes "/aresetn]     [get_bd_pins proc_sys_reset_0/peripheral_aresetn]")
    ∷ (codes "connect_bd_intf_net [get_bd_intf_pins axis_noc_dut/"
        ++ noc_m_port i
        ++ codes "]    [get_bd_intf_pins axis_dwidth_converter_to_dut_"
        ++ str_of i
        ++ codes "/S_AXIS]")
    ∷ (codes "connect_bd_intf_net [get_bd_intf_pins "
        ++ codes "axis_dwidth_converter_to_dut_"
        ++ str_of i
        ++ codes "/M_AXIS]     [get_bd_intf_pins $dut/"
        ++ dest
        ++ codes "]")
    ∷ []
    ∷ [])

-- The connections to the NoC without a converter.
unfoldable pub direct : ℕ → Text → Text → Text
direct i src dest = lines (
    []
    ∷ (codes "connect_bd_intf_net [get_bd_intf_pins $dut/"
        ++ dest
        ++ codes "]     [get_bd_intf_pins axis_noc_dut/"
        ++ noc_m_port i
        ++ codes "]")
    ∷ []
    ∷ (codes "connect_bd_intf_net [get_bd_intf_pins $dut/"
        ++ src
        ++ codes "]     [get_bd_intf_pins axis_noc_dut/"
        ++ noc_s_port i
        ++ codes "]")
    ∷ []
    ∷ [])

-- The connections of the stream with the number `i` to the NoC.
unfoldable pub attach : ℕ → Text → StreamAttr → Result Text
unfolding round_up_to_noc_tdata converted direct
attach i src attr = do
  w ← int_of attr.width
  let num_bytes = (w + 7) / 8
  if is_valid valid_tdata_num_bytes num_bytes
      then ok (direct i src attr.dest)
      else (round_up_to_noc_tdata attr.width true >>= λ roundup_num_bytes.
          ok (converted i src attr.dest roundup_num_bytes num_bytes))

-- The loop over the streams, from the number of the next one.
unfoldable pub each_stream : ℕ → Dict StreamAttr → Result (List Text)
unfolding stream_connection attach
each_stream i [] = ok []
each_stream i ((src, attr) ∷ streams) = do
  attached ← attach i src attr
  rest ← each_stream (suc i) streams
  ok (stream_connection i attr.bandwidth ∷ attached ∷ rest)

unfoldable pub dut_stream_noc_tcl : Dict StreamAttr → Result (List Text)
unfolding create_stream_noc each_stream
dut_stream_noc_tcl stream_attr = do
  commands ← each_stream 0 stream_attr
  ok (create_stream_noc stream_attr ∷ commands ++ codes "endgroup" ∷ [])
