-- ===== src/Config/Pins.antt =====
-- The pins and ports of the card: `getPci7248IoPortsConfiguration`, `getInputs`, `getOutputs` and
-- `isPci7248ConfigurationValid`. A result `none` is an exception.
use text.Mathlib.Text.{◌==◌ as str_eq}
use machine_controller.Base.{
  ◌&&◌, ◌||◌, Bool, true, false, List, [], ◌∷◌, String, Option, none, some, if◌then◌else◌,
}
use machine_controller.Base.Int.{ℤ, pos, negsuc, leb_ℤ}
use machine_controller.Base.Maps.{Map, insert}
use machine_controller.Base.Options.{◌>>=◌}
use machine_controller.MachineCore.Types.{IoChannel, IoType, input, output, none_edge}
use machine_controller.Config.Tree.{JsonTree}

-- `portPinRanges`
abbrev pub port_pin_ranges : List (String × (ℤ × ℤ))
port_pin_ranges =
    ("A", (pos 0, pos 7))
    ∷ ("B", (pos 8, pos 15))
    ∷ ("CL", (pos 16, pos 19))
    ∷ ("CH", (pos 20, pos 23))
    ∷ []

-- The loop over the ranges ends at the first that holds the pin. No two ranges share a pin, so the order
-- of the map does not matter.
unfoldable pub find_port : ℤ → List (String × (ℤ × ℤ)) → Option String
find_port pin [] = none
find_port pin ((port, (start, end)) ∷ ranges) =
    if leb_ℤ start pin && leb_ℤ pin end then some port else find_port pin ranges

module _ (T : JsonTree) where
  open T use {
    Value, object, array, value, value_int, value_text, elements, entries, contains, at, get_text,
  }

  unfoldable pub get_io_device : Value → Option String
  get_io_device config = do io ← value config "io" object; value_text io "device" "unknown"

  unfoldable pub add_ports : List (String × Value) → Map String → Option (Map String)
  add_ports [] ports = some ports
  add_ports ((key, v) ∷ rest) ports = do
    direction ← get_text v
    add_ports rest (insert key direction ports)

  unfoldable pub get_pci7248_io_ports_configuration : Value → Option (Map String)
  get_pci7248_io_ports_configuration config = do
    io ← value config "io" object
    ports_config ← value io "portsConfiguration" object
    es ← entries ports_config
    add_ports es []

  unfoldable pub channel_of : IoType → Value → Option IoChannel
  channel_of type item = do
    pin ← value_int item "pin" (negsuc 0)
    name ← value_text item "name" ""
    description ← value_text item "description" ""
    io_port ← value_text item "ioPort" ""
    some (record {
      pin = pin;
      io_port = io_port;
      name = name;
      description = description;
      type = type;
      state = pos 0;
      event_type = none_edge;
    })

  unfoldable pub add_channels : IoType → List Value → Map IoChannel → Option (Map IoChannel)
  add_channels type [] channels = some channels
  add_channels type (item ∷ items) channels = do
    channel ← channel_of type item
    add_channels type items (insert channel.name channel channels)

  unfoldable pub get_channels : IoType → String → Value → Option (Map IoChannel)
  get_channels type key config = do
    io ← value config "io" object
    channel_array ← value io key array
    add_channels type (elements channel_array) []

  unfoldable pub get_inputs : Value → Option (Map IoChannel)
  get_inputs = get_channels input "inputs"

  unfoldable pub get_outputs : Value → Option (Map IoChannel)
  get_outputs = get_channels output "outputs"

  unfoldable pub check_directions : List (String × Value) → Option Bool
  check_directions [] = some true
  check_directions ((port, v) ∷ rest) = do
    direction ← get_text v
    valid ← check_directions rest
    some ((str_eq direction "input" || str_eq direction "output") && valid)

  -- The port that holds a pin is configured in the direction `want`.
  unfoldable pub check_port : String → Value → Option String → Option Bool
  check_port want ports_config none = some false
  check_port want ports_config (some port) =
      if contains ports_config port
      then (do v ← at ports_config port; direction ← get_text v; some (str_eq direction want))
      else some false

  -- The loop goes on behind an invalid channel.
  unfoldable pub check_channels : String → Value → List Value → Option Bool
  check_channels want ports_config [] = some true
  check_channels want ports_config (item ∷ items) = do
    pin ← value_int item "pin" (negsuc 0)
    name ← value_text item "name" ""
    valid ← check_port want ports_config (find_port pin port_pin_ranges)
    others ← check_channels want ports_config items
    some (valid && others)

  unfoldable pub is_pci7248_configuration_valid : Value → Option Bool
  is_pci7248_configuration_valid config = do
    io ← value config "io" object
    ports_config ← value io "portsConfiguration" object
    es ← entries ports_config
    directions ← check_directions es
    input_array ← value io "inputs" array
    inputs ← check_channels "input" ports_config (elements input_array)
    output_array ← value io "outputs" array
    outputs ← check_channels "output" ports_config (elements output_array)
    some (directions && inputs && outputs)
