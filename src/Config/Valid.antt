-- ===== src/Config/Valid.antt =====
-- What a configuration that passes the check gives to the card.
use text.Mathlib.Text.{◌==◌ as str_eq}
use text.Mathlib.TextEquality.{eq_iff}
use machine_controller.Base.{
  ◌≡◌, refl, sym, ap, ◌∙◌, ◌&&◌, Bool, true, List, [], ◌∷◌, String, Option, none, some, arith,
  if_cases,
}
use machine_controller.Base.Int.{ℤ, negsuc}
use machine_controller.Base.Maps.{Map, insert, lookup, lookup-insert}
use machine_controller.Base.Options.{>>=-eq-some, >>=-rest, some_inj}
use machine_controller.MachineCore.Types.{IoChannel, IoType, input, output}
use machine_controller.IoCard.Ports.{assign_port_names}
use machine_controller.Config.Tree.{JsonTree, IsTree, Distinct}
use machine_controller.Config.Pins.{
  port_pin_ranges, find_port, add_ports, get_pci7248_io_ports_configuration, channel_of,
  add_channels, get_channels, get_inputs, get_outputs, check_port, check_channels, check_directions,
  is_pci7248_configuration_valid,
}
use machine_controller.Config.Directed.{
  Every, insert-Every, IsDirected, named-IsDirected, assign_port_names-Every,
}

both_true : (a b : Bool) → some (a && b) ≡ some true → (a ≡ true) × (b ≡ true)
both_true a b h = ground arith

pin_of : (a b : IoChannel) → some a ≡ some b → a.pin ≡ b.pin
pin_of a b h = ap (λ (ch : IoChannel). ch.pin) (some_inj a b h)

module _ (T : JsonTree) (laws : IsTree T) where
  open T use {Value, entries, contains, at, get_text, value_int, value_text}

  add_ports_absent :
      (es : List (String × Value)) (acc ports : Map String) (key : String)
      → add_ports T es acc ≡ some ports
      → lookup key es ≡ none
      → lookup key ports ≡ lookup key acc
  unfolding add_ports lookup
  add_ports_absent [] acc ports key h e = ground arith
  add_ports_absent ((k, v) ∷ rest) acc ports key h e =
      let (direction, (text, more)) = >>=-eq-some (get_text v) _ ports h in
      if_cases (λ found. found ≡ none → lookup key ports ≡ lookup key acc) (str_eq k key)
        (λ _ bad. absurd (ground arith))
        (λ no absent.
          add_ports_absent rest (insert k direction acc) ports key more absent
          ∙ (lookup-insert k key direction acc ∙ rw no refl))
        e

  add_ports_entry :
      (es : List (String × Value)) (acc ports : Map String) (key : String) (v : Value) (d : String)
      → Distinct es
      → add_ports T es acc ≡ some ports
      → lookup key es ≡ some v
      → get_text v ≡ some d
      → lookup key ports ≡ some d
  unfolding add_ports lookup
  add_ports_entry [] acc ports key v d distinct h e t = ground arith
  add_ports_entry ((k, w) ∷ rest) acc ports key v d distinct h e t =
      let (direction, (text, more)) = >>=-eq-some (get_text w) _ ports h in
      if_cases (λ found. found ≡ some v → lookup key ports ≡ some d) (str_eq k key)
        (λ yes same.
          let shown = some_inj w v same in
          let absent : lookup key rest ≡ none =
            ap (λ x. lookup x rest) (sym ((eq_iff k key).0 yes)) ∙ distinct.0 in
          add_ports_absent rest (insert k direction acc) ports key more absent
          ∙ (lookup-insert k key direction acc
              ∙ (rw yes refl ∙ (sym text ∙ (ap get_text shown ∙ t)))))
        (λ _ later.
          add_ports_entry rest (insert k direction acc) ports key v d distinct.1 more later t)
        e

  -- The port that the check found for a pin, as a property of the ports' map.
  check_port-lookup :
      (want : String) (ports_config : Value) (es : List (String × Value)) (ports : Map String)
      (found : Option String)
      → entries ports_config ≡ some es
      → add_ports T es [] ≡ some ports
      → check_port T want ports_config found ≡ some true
      → (port : String) × ((found ≡ some port) × (lookup port ports ≡ some want))
  unfolding check_port
  check_port-lookup want ports_config es ports none he hp h = absurd (ground arith)
  check_port-lookup want ports_config es ports (some port) he hp h = (
    port,
    (
      refl,
      if_cases (λ r. r ≡ some true → lookup port ports ≡ some want) (contains ports_config port)
          (λ _ k.
            let (v, (place, more)) = >>=-eq-some (at ports_config port) _ true k in
            let (d, (text, same)) = >>=-eq-some (get_text v) _ true more in
            let equal : str_eq d want ≡ true = ground arith in
            add_ports_entry es [] ports port v want (laws.keys_once ports_config es he) hp
              (sym (laws.at_entry ports_config es port he) ∙ place)
              (text ∙ ap some ((eq_iff d want).0 equal)))
          (λ _ k. absurd (ground arith)) h,
    ),
  )

  -- Its pin passes the check.
  abbrev Passes : String → Value → IoChannel → Type 0
  Passes want ports_config ch =
      check_port T want ports_config (find_port ch.pin port_pin_ranges) ≡ some true

  channel_of-pin :
      (type : IoType) (item : Value) (ch : IoChannel)
      → channel_of T type item ≡ some ch
      → value_int item "pin" (negsuc 0) ≡ some ch.pin
  unfolding channel_of
  channel_of-pin type item ch h =
      let (pin, (pin_read, h1)) = >>=-eq-some (value_int item "pin" (negsuc 0)) _ ch h in
      let (name, (name_read, h2)) = >>=-eq-some (value_text item "name" "") _ ch h1 in
      let (description, (description_read, h3)) =
        >>=-eq-some (value_text item "description" "") _ ch h2 in
      let (io_port, (port_read, h4)) = >>=-eq-some (value_text item "ioPort" "") _ ch h3 in
      pin_read ∙ ap some (pin_of _ ch h4)

  -- The first channel passes, and so do the others.
  record IsChecked (want : String) (ports_config item : Value) (items : List Value) : Type 0 where
    pin : ℤ
    pin_read : value_int item "pin" (negsuc 0) ≡ some pin
    passes : check_port T want ports_config (find_port pin port_pin_ranges) ≡ some true
    others_pass : check_channels T want ports_config items ≡ some true

  check_channels-IsChecked :
      (want : String) (ports_config item : Value) (items : List Value)
      → check_channels T want ports_config (item ∷ items) ≡ some true
      → IsChecked want ports_config item items
  unfolding check_channels
  check_channels-IsChecked want ports_config item items c =
      let (pin, (pin_read, c1)) = >>=-eq-some (value_int item "pin" (negsuc 0)) _ true c in
      let (name, (name_read, c2)) = >>=-eq-some (value_text item "name" "") _ true c1 in
      let (valid, (checked, c3)) =
        >>=-eq-some (check_port T want ports_config (find_port pin port_pin_ranges)) _ true c2 in
      let (others, (rest, c4)) = >>=-eq-some (check_channels T want ports_config items) _ true c3 in
      let both = both_true valid others c4 in
      record {
        pin = pin;
        pin_read = pin_read;
        passes = checked ∙ ap some both.0;
        others_pass = rest ∙ ap some both.1;
      }

  add_channels-Every :
      (want : String) (type : IoType) (ports_config : Value) (items : List Value)
      (acc channels : Map IoChannel)
      → check_channels T want ports_config items ≡ some true
      → add_channels T type items acc ≡ some channels
      → Every (Passes want ports_config) acc
      → Every (Passes want ports_config) channels
  unfolding add_channels
  add_channels-Every want type ports_config [] acc channels c a h =
      rw (sym (some_inj acc channels a)) h
  add_channels-Every want type ports_config (item ∷ items) acc channels c a h =
      let i = check_channels-IsChecked want ports_config item items c in
      let (ch, (made, more)) = >>=-eq-some (channel_of T type item) _ channels a in
      let same : i.pin ≡ ch.pin =
        some_inj i.pin ch.pin (sym i.pin_read ∙ channel_of-pin type item ch made) in
      let passes : Passes want ports_config ch =
        ap (λ p. check_port T want ports_config (find_port p port_pin_ranges)) (sym same)
        ∙ i.passes in
      add_channels-Every want type ports_config items (insert ch.name ch acc) channels i.others_pass
        more (insert-Every (Passes want ports_config) ch.name ch acc passes h)

  -- What the check has read of a configuration that passes.
  record IsAccepted (config : Value) : Type 0 where
    io : Value
    io_read : T.value config "io" T.object ≡ some io
    ports_config : Value
    ports_read : T.value io "portsConfiguration" T.object ≡ some ports_config
    es : List (String × Value)
    es_read : entries ports_config ≡ some es
    input_array : Value
    inputs_read : T.value io "inputs" T.array ≡ some input_array
    inputs_pass : check_channels T "input" ports_config (T.elements input_array) ≡ some true
    output_array : Value
    outputs_read : T.value io "outputs" T.array ≡ some output_array
    outputs_pass : check_channels T "output" ports_config (T.elements output_array) ≡ some true

  valid-IsAccepted :
      (config : Value) → is_pci7248_configuration_valid T config ≡ some true → IsAccepted config
  unfolding is_pci7248_configuration_valid
  valid-IsAccepted config h =
      let (io, (io_read, h1)) = >>=-eq-some (T.value config "io" T.object) _ true h in
      let (pc, (pc_read, h2)) = >>=-eq-some (T.value io "portsConfiguration" T.object) _ true h1 in
      let (es, (es_read, h3)) = >>=-eq-some (entries pc) _ true h2 in
      let (directions, (_, h4)) = >>=-eq-some (check_directions T es) _ true h3 in
      let (ins, (ins_read, h5)) = >>=-eq-some (T.value io "inputs" T.array) _ true h4 in
      let (inputs, (ins_pass, h6)) =
        >>=-eq-some (check_channels T "input" pc (T.elements ins)) _ true h5 in
      let (outs, (outs_read, h7)) = >>=-eq-some (T.value io "outputs" T.array) _ true h6 in
      let (outputs, (outs_pass, h8)) =
        >>=-eq-some (check_channels T "output" pc (T.elements outs)) _ true h7 in
      let all = both_true (directions && inputs) outputs h8 in
      let both = both_true directions inputs (ap some all.0) in
      record {
        io = io;
        io_read = io_read;
        ports_config = pc;
        ports_read = pc_read;
        es = es;
        es_read = es_read;
        input_array = ins;
        inputs_read = ins_read;
        inputs_pass = ins_pass ∙ ap some both.1;
        output_array = outs;
        outputs_read = outs_read;
        outputs_pass = outs_pass ∙ ap some all.1;
      }

  ports_of :
      (config : Value) (ports : Map String) (i : IsAccepted config)
      → get_pci7248_io_ports_configuration T config ≡ some ports
      → add_ports T i.es [] ≡ some ports
  unfolding get_pci7248_io_ports_configuration
  ports_of config ports i h = >>=-rest (entries i.ports_config) i.es _ _ i.es_read (
      >>=-rest (T.value i.io "portsConfiguration" T.object) i.ports_config _ _ i.ports_read
        (>>=-rest (T.value config "io" T.object) i.io _ _ i.io_read h))

  directed :
      (want : String) (type : IoType) (key : String) (config channel_array : Value)
      (ports : Map String) (channels : Map IoChannel) (i : IsAccepted config)
      → T.value i.io key T.array ≡ some channel_array
      → check_channels T want i.ports_config (T.elements channel_array) ≡ some true
      → get_pci7248_io_ports_configuration T config ≡ some ports
      → get_channels T type key config ≡ some channels
      → Every (IsDirected want ports) (assign_port_names channels)
  unfolding get_channels
  directed want type key config channel_array ports channels i array_read pass p c =
      let added =
        >>=-rest (T.value i.io key T.array) channel_array _ _ array_read
          (>>=-rest (T.value config "io" T.object) i.io _ _ i.io_read c) in
      assign_port_names-Every (Passes want i.ports_config) (IsDirected want ports) channels
        (λ ch passes.
          let (port, (found, looked)) =
            check_port-lookup want i.ports_config i.es ports (find_port ch.pin port_pin_ranges)
              i.es_read (ports_of config ports i p) passes in
          named-IsDirected want ports ch port found looked)
        (add_channels-Every want type i.ports_config (T.elements channel_array) [] channels pass
          added tt)

  -- If the configuration passes the check, then after `assignPortNames` every input lies in a port that
  -- is configured as an input, every output in one that is configured as an output, and the place of
  -- each pin is one of the 8 bits of its port.
  pub valid-IsDirected :
      (config : Value) (ports : Map String) (inputs outputs : Map IoChannel)
      → is_pci7248_configuration_valid T config ≡ some true
      → get_pci7248_io_ports_configuration T config ≡ some ports
      → get_inputs T config ≡ some inputs
      → get_outputs T config ≡ some outputs
      → Every (IsDirected "input" ports) (assign_port_names inputs)
        × Every (IsDirected "output" ports) (assign_port_names outputs)
  unfolding get_inputs get_outputs
  valid-IsDirected config ports inputs outputs h p ins outs =
      let i = valid-IsAccepted config h in
      (
        directed "input" input "inputs" config i.input_array ports inputs i i.inputs_read
            i.inputs_pass p ins,
        directed "output" output "outputs" config i.output_array ports outputs i i.outputs_read
            i.outputs_pass p outs,
      )
