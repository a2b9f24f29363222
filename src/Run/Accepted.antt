-- ===== src/Run/Accepted.antt =====
-- The options that parse_arguments accepts.
use rapidstream_noc.Common.{◌≡◌, ◌↔◌, ◌⊎◌, true, false, ◌&&◌, ok, arith}
use rapidstream_noc.Run.Options.{Options, given, is_absent, is_selector_none, parse_arguments}

-- An input of RapidStream, without the name of the top module; or an input of TAPA for the selector
-- NONE with that name, which is empty if there is also an input of RapidStream.
abbrev pub IsConsistent : Options → Type 0
IsConsistent o =
    (given o.build_dir && given o.tar ≡ false)
    × (((given o.rapidstream_json ≡ true)
          × (given o.tapa_xo ≡ false)
          × (given o.top_mod_name ≡ false))
        ⊎ ((given o.tapa_xo ≡ true)
            × (is_selector_none o.selector ≡ true)
            × (is_absent o.top_mod_name ≡ false)
            × (given o.rapidstream_json && given o.top_mod_name ≡ false)))

-- parse_arguments accepts, unchanged, the options with at most one of the build directory and the
-- archive and with either an input of RapidStream alone and no name of the top module, or an input of
-- TAPA, the selector NONE and a name of the top module, which is empty beside an input of RapidStream;
-- it refuses all others.
pub parse_arguments_iff : (o : Options) → (parse_arguments o ≡ ok o) ↔ IsConsistent o
unfolding parse_arguments
parse_arguments_iff o = (λ e. ground (arith, e), λ c. ground (arith, c))
