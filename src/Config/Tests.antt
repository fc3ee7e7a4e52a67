-- ===== src/Config/Tests.antt =====
-- Tests of config/config.go: without a command line.
use boiler_mate.Prelude.{true, false, Bytes, codes, Option, none, some, ◌==◌, bytes_eq, ◌≡◌, refl}
use boiler_mate.Config.{FlagSet, load, setup_logging}

-- A flag set without a command line.
abbrev defaults : FlagSet
defaults = record { string_var = λ name value. value; bool_var = λ name value. value }

abbrev no_discovery : Bytes → Option Bytes
no_discovery key = elim (key == codes "BOILER_MATE_HOMEASSISTANT") [
  | true ↦ some (codes "TRUE")
  | false ↦ none
]

capitals_say_no : (load defaults no_discovery).ha_discovery ≡ false
unfolding load
capitals_say_no = refl

documented_bind : (load defaults no_discovery).bind ≡ codes "0.0.0.0:2112"
unfolding load
documented_bind = refl

wrong_level :
    setup_logging (λ level. none) (codes "info") (load defaults no_discovery) ≡ codes "info"
unfolding setup_logging
wrong_level = refl
