-- ===== src/IoCard/Tests.antt =====
-- The theorems on the I/O card at concrete inputs.
use machine_controller.Base.{
  ℕ, ◌<◌, ◌≡◌, refl, true, false, [], ◌∷◌, String, some, arith, if◌then◌else◌,
}
use machine_controller.Base.Int.{pos, negsuc, ◌-ℤ◌}
use machine_controller.Base.Maps.{Map, lookup, insert}
use machine_controller.MachineCore.Types.{IoChannel, input, output, none_edge}
use machine_controller.IoCard.Ports.{pin_within_port, port_base_offset, bit}
use machine_controller.IoCard.Inputs.{belongs}
use machine_controller.IoCard.Outputs.{
  write_outputs, write_ports, output_ports, add_outputs, reset_configured_output_ports,
}
use machine_controller.IoCard.Levels.{wanted, write_outputs-levels}
use machine_controller.Config.Pins.{
  get_inputs, get_outputs, get_channels, add_channels, channel_of, is_pci7248_configuration_valid,
  check_directions, check_channels, check_port, find_port, get_pci7248_io_ports_configuration,
  add_ports,
}
use machine_controller.Config.Tests.{samples, samples-IsTree, two_ports}
use machine_controller.IoCard.Start.{
  Card, Driver, make_card, initialize, destroy, register_card, load_ports, configure_card,
  configure_ports, start_polling, name_channels,
}
use machine_controller.IoCard.Life.{IsClosed}
use machine_controller.IoCard.Outcome.{Outcome, initialize-ends}

abbrev i9 : IoChannel
i9 = record {
  pin = pos 9;
  io_port = "B";
  name = "i9";
  description = "";
  type = input;
  state = pos 0;
  event_type = none_edge;
}

i9-belongs : belongs "B" i9 ≡ true
unfolding belongs pin_within_port port_base_offset ◌-ℤ◌
i9-belongs = refl

abbrev outputs : Map IoChannel
outputs =
    ("o0", record i9 { pin = pos 0; io_port = "A"; name = "o0"; type = output; state = pos 1 }) ∷ []

abbrev ports : Map String
ports = ("A", "output") ∷ ("B", "input") ∷ []

port_A : lookup "A" ports ≡ some "output"
unfolding lookup
port_A = refl

write_outputs-levels_example :
    (v : ℕ) × (lookup "A" (write_outputs (λ port v. true) ports outputs outputs).1 ≡ some v)
    × (v < 256)
    × (bit v 0 ≡ (if wanted ports outputs outputs "A" 0 then 0 else 1))
write_outputs-levels_example =
    write_outputs-levels (λ port v. true) ports outputs outputs "A" 0 port_A (omega arith)

abbrev new_card : Card
new_card = record {
  card = negsuc 0;
  ports = [];
  inputs = ("i1", record i9 { pin = pos 3; io_port = ""; name = "i1" }) ∷ [];
  outputs = ("o1", record i9 { io_port = ""; name = "o1"; type = output }) ∷ [];
  timer = false;
  timer_running = false;
  polling_stopped = false;
  calls = [];
}

-- The card is registered as 0, and all calls succeed.
abbrev working : Driver
working = record {
  register = pos 0;
  port_config = λ port out. pos 0;
  read = λ port. some 255;
  write = λ port v. true;
  caps = true;
  timer = true;
}

new_card-made : make_card samples two_ports ≡ some new_card
unfolding make_card get_inputs get_outputs get_channels add_channels channel_of insert lookup
new_card-made = refl

initialize-ends_example :
    Outcome working (initialize samples two_ports working new_card)
    × IsClosed (destroy working (initialize samples two_ports working new_card).1)
initialize-ends_example =
    initialize-ends samples samples-IsTree two_ports working new_card new_card-made

initialize-two_ports : (initialize samples two_ports working new_card).0 ≡ some true
unfolding initialize register_card load_ports configure_card configure_ports start_polling
    name_channels reset_configured_output_ports write_outputs write_ports output_ports add_outputs
    is_pci7248_configuration_valid check_directions check_channels check_port find_port
    get_pci7248_io_ports_configuration add_ports insert lookup
initialize-two_ports = refl
