-- ===== src/Wrapper/Rtl.antt =====
-- noc_rtl_wrapper.py: noc_rtl_wrapper. It works on a copy of the IR, and returns no streams for the
-- return of credits, as its call of add_credit_control stands in a comment. `evaluate` is Python's
-- `eval`.
use rapidstream_noc.Common.{
  false, List, [], ◌∷◌, ◌++◌, map, Result, ok, ◌>>=◌, if◌then◌else◌, Dict, item, ℤ,
}
use rapidstream_noc.Common.Text.{Text, text_eq, codes, int_of}
use rapidstream_noc.Width.{round_up_to_noc_tdata}
use rapidstream_noc.Ir.{
  Ir, Inst, Entry, parse_top_mod, create_port_wire_connection, create_m_axis_ports,
  create_s_axis_ports,
}
use rapidstream_noc.Ir.Regions.{head_region, tail_region}
use rapidstream_noc.Ir.Parse.{parse_fifo_params}
use rapidstream_noc.Ir.Update.{with_connections}
use rapidstream_noc.Ir.OverNoc.{NocStream, with_ports, change_ir, append_mod, grouped}
use rapidstream_noc.Wrapper.{
  with_submodules, add_dont_touch, create_const_one_driver, half_fifo_params, port_name, Split,
  nmu_fifo, nsu_fifo, tlast_inst,
}

module _ (evaluate : Text → Result ℤ) where
  -- The loop's body for one FIFO.
  unfoldable pub split_fifo : Inst → Result Split
  unfolding parse_fifo_params round_up_to_noc_tdata create_m_axis_ports create_s_axis_ports
      half_fifo_params nmu_fifo nsu_fifo tlast_inst
  split_fifo fifo = do
    fifo_params ← parse_fifo_params evaluate fifo
    data_width ← item (codes "DATA_WIDTH") fifo_params
    noc_width ← round_up_to_noc_tdata data_width false
    m_axis_ports ← create_m_axis_ports fifo.name noc_width
    s_axis_ports ← create_s_axis_ports fifo.name noc_width
    depth_text ← item (codes "DEPTH") fifo_params
    depth ← int_of depth_text
    head ← item head_region fifo_params
    m_tdata ← port_name m_axis_ports 0
    m_tvalid ← port_name m_axis_ports 1
    m_tready ← port_name m_axis_ports 2
    tail ← item tail_region fifo_params
    s_tdata ← port_name s_axis_ports 0
    s_tvalid ← port_name s_axis_ports 1
    s_tready ← port_name s_axis_ports 2
    m_tlast ← port_name m_axis_ports 3
    ok (record {
      ports = m_axis_ports ++ s_axis_ports;
      modules =
          nmu_fifo fifo (half_fifo_params data_width depth head)
            (record { tdata = m_tdata; tvalid = m_tvalid; tready = m_tready })
          ∷ nsu_fifo fifo (half_fifo_params data_width depth tail)
              (record { tdata = s_tdata; tvalid = s_tvalid; tready = s_tready })
          ∷ tlast_inst fifo m_tlast
          ∷ [];
    })

  -- The loop over the FIFOs.
  unfoldable pub split_fifos : List Inst → Split → Result Split
  unfolding split_fifo
  split_fifos [] done = ok done
  split_fifos (fifo ∷ fifos) done = split_fifo fifo >>= λ s.
      split_fifos fifos
        (record { ports = done.ports ++ s.ports; modules = done.modules ++ s.modules })

  -- The loop over the top module's instances: the first instance of the grouped module gets the
  -- connections, and goes if it has none.
  abbrev pub connect_first : Text → List Entry → List Inst → List Inst
  connect_first grouped_mod_name entries [] = []
  connect_first grouped_mod_name entries (m ∷ ms) =
      let rest = connect_first grouped_mod_name entries ms in
      if text_eq m.module_ grouped_mod_name
      then (elim (m.connections ++ entries) [ [] ↦ ms | c ∷ cs ↦ with_connections m (c ∷ cs) ∷ ms ])
      else m ∷ rest

  unfoldable pub noc_rtl_wrapper : Ir → Text → Result (Ir × Dict NocStream)
  unfolding parse_top_mod grouped split_fifos change_ir add_dont_touch
  noc_rtl_wrapper ir grouped_mod_name = do
    top_ir ← parse_top_mod ir
    grouped_mod_ir ← grouped ir grouped_mod_name
    s ← split_fifos grouped_mod_ir.submodules (record { ports = []; modules = [] })
    let entries = map (λ p. create_port_wire_connection p.wire.name (p.wire.name ∷ [])) s.ports
    let in_group =
        change_ir grouped_mod_name (λ m. with_ports s.ports (with_submodules s.modules m)) ir
    let at_top =
        change_ir ir.top_name
          (λ m.
            with_submodules (connect_first grouped_mod_name entries m.submodules)
              (with_ports s.ports m))
          in_group
    touched ← add_dont_touch (append_mod create_const_one_driver at_top)
    ok (touched, [])
