-- ===== src/Lib.antt =====
-- A verification library for rapidstream-noc, which moves the streams between the slots of an FPGA
-- design onto the hardened NoC of a Versal device: a model of its Python code, with proofs.
--
-- The parts, and how they interact. The builders vp1802_nocgraph.py and vh1582_nocgraph.py create a
-- `NocGraph` (noc_graph.py). A `Device` (device.py) lays a grid of slots over such a graph and names
-- the NMU and NSU nodes of a slot. The selectors (noc_pass.py) take the streams with the slot ranges
-- of their ends (ir_helper.py), and choose the streams for the NoC and their nodes: greedily or at
-- random by the counts per slot, or by an integer linear program over the edges of the graph.
-- noc_rtl_wrapper.py then replaces the FIFO of each chosen stream by a NMU FIFO and a NSU FIFO, and
-- ir_credit_based.py puts the controllers of ir_verilog.py beside them, which keep the streams from
-- filling the NoC with flits that their readers do not take. tcl_helper.py, gen_vivado_bd.py and
-- vivado_bd_helper.py write the Tcl of the Vivado project around the result: its constraints, and a
-- block design with the memories, the processor and the NoC. run_noc_pass.py calls all of these.
--
-- The modules:
--   Common    Python's exceptions as values (Result), loops that may raise, texts as lists of code
--             points with str(), int(), split() and comparison, and the lemmas on them.
--   Width     ir_helper.py: round_up_to_noc_tdata, round_up_to_noc_bw.
--   Slots     ir_helper.py: extract_slot_coord, split_slot_region, extract_slot_range; noc_pass.py:
--             the distance of get_stream_manhattan_dist.
--   Graph     noc_graph.py: Node, Edge, NocGraph and all its methods.
--   Fabric    The edge loops that the two builders share.
--   Vp1802    vp1802_nocgraph.py. `build` is the body of vp1802_nocgraph for any numbers of SLRs,
--             columns and rows, and `vp1802_nocgraph` its call.
--   Vh1582    vh1582_nocgraph.py, likewise.
--   Device    device.py, and ir_helper.py: get_slot_nodes, get_slot_to_noc_nodes.
--   Select    noc_pass.py: get_streams_noc_area, is_exceeding_avail_noc_nodes, greedy_selector,
--             random_selector, get_stream_manhattan_dist, get_stream_manhattan_bw.
--   Ilp       noc_pass.py: get_nx_graph_from_noc_graph, ilp_noc_selector_add_stream_constr,
--             post_process_noc_ilp; in Ilp.Lookups ilp_noc_selector_add_var and the lookups
--             that may raise while the constraints are made; in Ilp.Ports
--             ilp_noc_selector_add_mmap_constr, and in Ilp.Capacity
--             ilp_noc_selector_add_bw_constr, whose constraints are multiplied by 16; in
--             Ilp.Selector ilp_noc_selector_add_constr_special, ilp_noc_selector_add_obj and
--             ilp_noc_selector.
--   Ir        ir_helper.py: the functions that build and read the IR, among them parse_inter_slot,
--             parse_floorplan and get_credit_return_regions; ir_credit_based.py, where
--             Ir.Update and Ir.Slave are the controllers of each FIFO, Ir.Group and Ir.Merged those
--             of the FIFOs between two slots, and Ir.Control is add_credit_control; ir_verilog.py:
--             the modules that it defines (Ir.Verilog).
--   Credit    ir_verilog.py: the three credit controllers, as the registers of their Verilog, and
--             in Credit.System a stream between a master and a slave.
--   Wrapper   noc_rtl_wrapper.py, and the constant driver of ir_verilog.py.
--   Tcl       tcl_helper.py: print_mmap_noc_loc_tcl, print_stream_noc_loc_tcl, concat_slot_nodes,
--             dump_streams_loc_tcl; in Tcl.Floorplan export_constraint and
--             export_control_s_axi_constraint, in Tcl.Pblocks export_noc_constraint, and in
--             Tcl.Project gen_vivado_prj_tcl and dump_neg_paths_summary.
--   Bd        gen_vivado_bd.py: dut_hbm_mmap_tcl (Bd.Hbm), dut_ddr_mmap_tcl (Bd.Ddr),
--             dut_stream_noc_tcl (Bd.Stream), and dut_tcl, connect_dut_arm_ddr_tcl,
--             connect_dut_arm_hbm_tcl, gen_arm_bd_ddr and gen_arm_bd_hbm (Bd.Design);
--             vivado_bd_helper.py: arm_hbm_tcl (Bd.ArmHbm), the others in Bd.Arm.
--   Run       run_noc_pass.py: parse_arguments (Run.Options), the supported devices
--             (Run.Devices), and the selection of streams with the files made of it
--             (Run.Outputs).
--   Hbm       hbm_bank_to_addr.py, with addresses as numbers.
--   Mem       bin_to_hbm_mem.py, with the contents of the files as a parameter.
--
-- How state is modelled. An object's fields are a record, and a method that changes it returns the
-- new record. A call that may raise returns a `Result`. A dictionary is a list of its entries in the
-- order of insertion. An integer that the code keeps at or above zero is a natural number, and a
-- subtraction that could leave that range is written out. A bandwidth is a number of quarters of an
-- MB/s. Loops recur on the lists or ranges that they run over, so that no fuel is needed, except in
-- `trail`, where the number of edges is proved to be enough, and in `growing_loop`, where a list is
-- extended by the loop over it and two rounds for each element and one more are proved to be enough,
-- in `random_rounds`, where one round for each stream and one more are, and in `chunks`, where one
-- round for each byte is.
-- A circuit is its registers and the function to their values after the next clock edge; a cycle's
-- inputs are the step of a relation, and a schedule of cycles is a function of their number.
--
-- Outside code. PuLP's problem is the list of its linear constraints over its variables, which are
-- told apart by their keys; the names that the code gives them are `lp_name`. A solver's answer is any
-- valuation that satisfies them, or an exception. networkx is a parameter with its documented
-- behaviour as the hypothesis `IsDiGraph`. The numbers and samples that Python's random draws, and
-- what eval and float answer, are parameters.
--
-- Not modelled: reading and writing files, the commands that run_noc_pass.py runs, printing, and
-- parse_neg_paths of tcl_helper.py, which prints sums over a timing report; the hexadecimal text of
-- hbm_bank_to_addr.py; the scripts under `__main__` other than that of run_noc_pass.py. What Vivado
-- makes of the Tcl is outside the model. A timing of the pipelines and of the NoC is not assumed:
-- their contents wait for as long as the surroundings want.
pub mod Bd
pub mod Common
pub mod Width
pub mod Slots
pub mod Graph
pub mod Fabric
pub mod Vp1802
pub mod Vh1582
pub mod Device
pub mod Ilp
pub mod Select
pub mod Hbm
pub mod Mem
pub mod Ir
pub mod Credit
pub mod Wrapper
pub mod Run
pub mod Tcl
