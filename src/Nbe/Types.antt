-- ===== src/Nbe/Types.antt =====
-- nbe/types.go and nbe/setting.go: rounded floats, function codes, the categories of settings and
-- the power states. Floats are a type `F` whose operations are the parameter `Runtime`.
use boiler_mate.Prelude.{Bool, List, [], ◌∷◌, Option, Bytes, bytes_beq, codes}
use boiler_mate.Prelude.Int.{ℤ, pos, negsuc}

-- What the program uses of Go's floats and of its Unicode tables.
pub record Runtime (F : Type 0) : Type 0 where
  -- `strconv.ParseFloat(s, 32)`; `none` is an error
  pub parse_float : Bytes → Option F
  -- `%v` of a float
  pub show_float : F → Bytes
  -- `strconv.FormatFloat(x, 'f', 2, 32)`
  pub format_float : F → Bytes
  -- `strings.ToLower` of a text that is not ASCII
  pub lower_wide : Bytes → Bytes

-- `RoundedFloat` over the floats `F`.
pub record RoundedFloat (F : Type 0) : Type 0 where
  pub float : F

module _ {F : Type 0} (runtime : Runtime F) where
  unfoldable pub marshal_json : RoundedFloat F → Bytes
  marshal_json r = runtime.format_float r.float

  unfoldable pub equal : RoundedFloat F → RoundedFloat F → Bool
  equal r other = bytes_beq (runtime.format_float r.float) (runtime.format_float other.float)

-- `Function` is an `int16`.
abbrev pub Function : Type 0
Function = ℤ

abbrev pub discovery_function : Function
discovery_function = pos 0

abbrev pub get_setup_function : Function
get_setup_function = pos 1

abbrev pub set_setup_function : Function
set_setup_function = pos 2

abbrev pub get_setup_range_function : Function
get_setup_range_function = pos 3

abbrev pub get_operating_data_function : Function
get_operating_data_function = pos 4

abbrev pub get_advanced_data_function : Function
get_advanced_data_function = pos 5

abbrev pub unknown_function : Function
unknown_function = negsuc 0

abbrev pub settings : List Bytes
settings =
    codes "boiler"
    ∷ codes "hot_water"
    ∷ codes "regulation"
    ∷ codes "weather"
    ∷ codes "weather2"
    ∷ codes "oxygen"
    ∷ codes "cleaning"
    ∷ codes "hopper"
    ∷ codes "fan"
    ∷ codes "auger"
    ∷ codes "ignition"
    ∷ codes "pump"
    ∷ codes "sun"
    ∷ codes "vacuum"
    ∷ codes "misc"
    ∷ codes "alarm"
    ∷ codes "manual"
    ∷ []

abbrev pub power_states : List Bytes
power_states =
    codes "Wait a moment"
    ∷ codes "Ignition 1"
    ∷ codes "Ignition 1"
    ∷ codes "Ignition 2"
    ∷ codes "Ignition 2"
    ∷ codes "Power"
    ∷ codes "Pause"
    ∷ codes "DHW"
    ∷ codes "Temperature error boiler"
    ∷ codes "Stopped - temperature reached"
    ∷ codes "Summer stop"
    ∷ codes "Alarm burner is too hot, do not restart before the problem is found !!"
    ∷ codes "Plug is disconnected"
    ∷ codes "Fault ignition"
    ∷ codes "Off"
    ∷ codes "Error boiler temp. sensor"
    ∷ codes "Error photo sensor"
    ∷ codes "Error burner temp. sensor"
    ∷ codes ""
    ∷ codes "Error on a motor output"
    ∷ codes "Error no fire - out of pellets"
    ∷ codes ""
    ∷ codes "Stopped by external temperature"
    ∷ codes "Stopped by timer"
    ∷ codes "Stopped by external contact"
    ∷ codes "Stopped by weather comp."
    ∷ codes "Fail on fan"
    ∷ codes "Error no fire - adjustment low"
    ∷ codes "Door is open"
    ∷ codes "Overheat/auger disconnected"
    ∷ codes "Stopped by cascade"
    ∷ codes "Compressor failure"
    ∷ []

pub record SettingDefinition (F : Type 0) : Type 0 where
  pub name : Bytes
  pub group : Bytes
  pub min : RoundedFloat F
  pub max : RoundedFloat F
  pub decimals : ℤ

-- What a payload's `interface{}` holds: an `int64`, a `RoundedFloat` or a string.
pub data Scalar (F : Type 0) : Type 0 where
  int64 : ℤ → Scalar F
  rounded : F → Scalar F
  text : Bytes → Scalar F

-- A value of a payload: a scalar, or the map with the keys `min`, `max`, `default`, `decimals`.
pub data Value (F : Type 0) : Type 0 where
  scalar : Scalar F → Value F
  range : (min max default decimals : Scalar F) → Value F
