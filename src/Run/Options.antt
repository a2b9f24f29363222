-- ===== src/Run/Options.antt =====
-- run_noc_pass.py: parse_arguments.
use rapidstream_noc.Common.{
  [], ◌∷◌, Option, none, some, Bool, true, false, not, ◌&&◌, ◌||◌, Result, ok, bad_parameter, guard,
  ◌>>◌,
}
use rapidstream_noc.Common.Text.{Text}

-- The supported devices.
pub data DeviceEnum : Type 0 where
  vh1582 vp1802 : DeviceEnum

-- The supported selectors.
pub data SelectorEnum : Type 0 where
  selector_none selector_empty selector_random selector_greedy selector_grb : SelectorEnum

pub record Options : Type 0 where
  pub rapidstream_json : Option Text
  pub tapa_xo : Option Text
  pub device_name : DeviceEnum
  pub mmap_port_json : Text
  pub selector : SelectorEnum
  pub build_dir : Option Text
  pub tar : Option Text
  pub top_mod_name : Option Text
  pub mmap_ilp : Bool

-- Whether an option counts as true: it is there and not empty.
abbrev pub given : Option Text → Bool
given none = false
given (some []) = false
given (some (c ∷ s)) = true

abbrev pub is_absent : Option Text → Bool
is_absent none = true
is_absent (some _) = false

abbrev pub is_selector_none : SelectorEnum → Bool
is_selector_none selector_none = true
is_selector_none _ = false

unfoldable pub parse_arguments : Options → Result Options
parse_arguments kwargs = do
  guard (not (given kwargs.build_dir && given kwargs.tar)) bad_parameter
  guard (not (not (given kwargs.rapidstream_json) && not (given kwargs.tapa_xo))) bad_parameter
  guard
      (not (
        given kwargs.tapa_xo
        && (is_absent kwargs.top_mod_name || not (is_selector_none kwargs.selector))))
      bad_parameter
  guard (not (given kwargs.rapidstream_json && given kwargs.top_mod_name)) bad_parameter
  ok kwargs
