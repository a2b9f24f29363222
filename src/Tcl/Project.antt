-- ===== src/Tcl/Project.antt =====
-- tcl_helper.py: gen_vivado_prj_tcl and dump_neg_paths_summary.
use rapidstream_noc.Common.{List, [], ◌∷◌, ◌++◌, Result, ok, ◌>>=◌, Dict, item}
use rapidstream_noc.Common.Text.{Text, codes}
use rapidstream_noc.Tcl.{lines}

abbrev pub project_procs : Text
project_procs = lines (
    []
    ∷ codes "proc getEnvInt { varName defaultIntValue } {"
    ∷ (codes "    set value [expr {[info exists ::env($varName)] "
        ++ codes "?$::env($varName) :$defaultIntValue}]")
    ∷ codes "    return [expr {int($value)}]"
    ∷ codes "}"
    ∷ []
    ∷ codes "proc import_ips_from_dir {dir} {"
    ∷ (codes "    # Get a list of all .xci files in the specified directory and "
        ++ codes "its subdirectories")
    ∷ codes "    foreach file [glob -nocomplain -directory $dir *] {"
    ∷ codes "        if {[file isdirectory $file]} {"
    ∷ codes "            set ip_file [glob -nocomplain -directory $file *.xci]"
    ∷ codes "            puts \"Importing IP: $ip_file\""
    ∷ codes "            import_ip $ip_file"
    ∷ codes "        }"
    ∷ codes "    }"
    ∷ codes "}"
    ∷ []
    ∷ [])

-- The command that creates the project, from its parameters.
unfoldable pub create_project : Text → Text → Text → Text → Text → Text → Text → Text → Text → Text
create_project build_dir part_num board_part bd_name rtl_dir tb_file constraint bd_tcl noc_tcl =
    lines (
      []
      ∷ (codes "create_project vivado_proj "
          ++ build_dir
          ++ codes "/vivado_proj -part "
          ++ part_num)
      ∷ (codes "set_property board_part " ++ board_part ++ codes " [current_project]")
      ∷ (codes "import_ips_from_dir " ++ build_dir ++ codes "/" ++ rtl_dir)
      ∷ (codes "import_files " ++ build_dir ++ codes "/" ++ rtl_dir)
      ∷ []
      ∷ codes "set_property SOURCE_SET sources_1 [get_filesets sim_1]"
      ∷ (codes "import_files -fileset sim_1 -norecurse " ++ tb_file)
      ∷ codes "set_property top tb [get_filesets sim_1]"
      ∷ codes "set_property top_lib xil_defaultlib [get_filesets sim_1]"
      ∷ codes "update_compile_order -fileset sim_1"
      ∷ (codes "set_property -name {xsim.simulate.log_all_signals} -value {true}  "
          ++ codes "   -objects [get_filesets sim_1]")
      ∷ []
      ∷ (codes "set constr_file [import_files -fileset constrs_1 "
          ++ build_dir
          ++ codes "/"
          ++ constraint
          ++ codes "]")
      ∷ codes "set_property used_in_synthesis false $constr_file"
      ∷ []
      ∷ codes "upgrade_ip -quiet [get_ips *]"
      ∷ codes "generate_target synthesis [ get_files *.xci ]"
      ∷ []
      ∷ (codes "source " ++ build_dir ++ codes "/" ++ bd_tcl)
      ∷ (codes "source " ++ build_dir ++ codes "/" ++ noc_tcl)
      ∷ codes "validate_bd_design"
      ∷ codes "save_bd_design"
      ∷ (codes "make_wrapper -files [get_files " ++ bd_name ++ codes ".bd] -top -import")
      ∷ (codes "set_property top " ++ bd_name ++ codes "_wrapper [current_fileset]")
      ∷ (codes "generate_target all [get_files " ++ bd_name ++ codes ".bd]")
      ∷ []
      ∷ (codes "set_property -name {STEPS.SYNTH_DESIGN.ARGS.MORE OPTIONS}     "
          ++ codes "-value {-mode out_of_context}     -objects [get_runs synth_1]")
      ∷ codes "launch_runs synth_1 -jobs [getEnvInt VIVADO_SYNTH_JOBS 8]"
      ∷ codes "wait_on_run synth_1"
      ∷ codes "launch_runs impl_1 -jobs 8"
      ∷ codes "wait_on_run impl_1"
      ∷ codes "close_project"
      ∷ []
      ∷ [])

unfoldable pub gen_vivado_prj_tcl : Dict Text → Result (List Text)
unfolding create_project
gen_vivado_prj_tcl vivado_prj_params = do
  build_dir ← item (codes "build_dir") vivado_prj_params
  part_num ← item (codes "part_num") vivado_prj_params
  board_part ← item (codes "board_part") vivado_prj_params
  bd_name ← item (codes "bd_name") vivado_prj_params
  rtl_dir ← item (codes "rtl_dir") vivado_prj_params
  tb_file ← item (codes "tb_file") vivado_prj_params
  constraint ← item (codes "constraint") vivado_prj_params
  bd_tcl ← item (codes "bd_tcl") vivado_prj_params
  noc_tcl ← item (codes "noc_tcl") vivado_prj_params
  ok (
      project_procs
      ∷ create_project build_dir part_num board_part bd_name rtl_dir tb_file constraint bd_tcl
          noc_tcl
      ∷ [])

unfoldable pub dump_neg_paths_summary : Text → List Text
dump_neg_paths_summary build_dir =
    (lines (
      []
      ∷ (codes "open_checkpoint     "
          ++ build_dir
          ++ codes "/vivado_proj/vivado_proj.runs/impl_1/top_arm_wrapper_routed.dcp")
      ∷ (codes "report_timing_summary -setup -max_paths 1000000 -no_pblock "
          ++ codes "-no_header     -path_type summary -slack_lesser_than 0     -file "
          ++ build_dir
          ++ codes "/neg_paths_summary.rpt")
      ∷ codes "close_design"
      ∷ []
      ∷ []))
    ∷ []
