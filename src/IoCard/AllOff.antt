-- ===== src/IoCard/AllOff.antt =====
-- Outputs that are all off: writing them is the reset of the card.
use machine_controller.Base.{
  ◌≡◌, refl, sym, ap, ◌∙◌, Bool, not, ◌&&◌, List, [], ◌∷◌, String, Option, none, some, ℕ, arith,
  if_cases,
}
use machine_controller.Base.Int.{pos, negsuc, eqb_ℤ}
use machine_controller.Base.Maps.{Map, lookup, insert}
use machine_controller.Base.Options.{>>=-eq-some, some_inj}
use machine_controller.MachineCore.Types.{IoChannel, IoType, output}
use machine_controller.Config.Tree.{JsonTree}
use machine_controller.Config.Pins.{channel_of, add_channels, get_channels, get_outputs}
use machine_controller.Config.Directed.{Every, insert-Every, assign_port_names-Every}
use machine_controller.IoCard.Ports.{pin_within_port, in_port, assign_port_names}
use machine_controller.IoCard.Outputs.{
  is_output, switch_on, add_output, add_outputs, output_ports, write_ports, write_outputs,
  reset_configured_output_ports,
}

abbrev pub IsOff : IoChannel → Type 0
IsOff ch = ch.state ≡ pos 0

switch_on_off : (ports : Map String) (ch : IoChannel) (m : Map ℕ) → switch_on ports (pos 0) ch m ≡ m
unfolding switch_on
switch_on_off ports ch m =
    if_cases (λ n. n ≡ m)
      (is_output (lookup ch.io_port ports)
        && in_port (pin_within_port ch)
        && not (eqb_ℤ (pos 0) (pos 0)))
      (λ on. absurd (ground (arith, on))) (λ _. refl)

add_output_off :
    (ports : Map String) (o : Option IoChannel) (m : Map ℕ) → add_output ports (pos 0) o m ≡ m
unfolding add_output
add_output_off ports none m = refl
add_output_off ports (some ch) m = switch_on_off ports ch m

add_outputs_off :
    (ports : Map String) (configured wants : Map IoChannel) (m : Map ℕ)
    → Every IsOff wants
    → add_outputs ports configured wants m ≡ m
unfolding add_outputs
add_outputs_off ports configured [] m h = refl
add_outputs_off ports configured ((name, want) ∷ wants) m h =
    add_outputs_off ports configured wants _ h.1
    ∙ (ap (λ state. add_output ports state (lookup name configured) m) h.0
        ∙ add_output_off ports (lookup name configured) m)

-- Writing outputs that are all off writes what the reset writes.
pub write_outputs_off :
    (write : String → ℕ → Bool) (ports : Map String) (configured wants : Map IoChannel)
    → Every IsOff wants
    → write_outputs write ports configured wants
      ≡ reset_configured_output_ports write ports configured
unfolding reset_configured_output_ports write_outputs add_outputs
write_outputs_off write ports configured wants h =
    ap (write_ports write) (add_outputs_off ports configured wants (output_ports ports) h)

module _ (T : JsonTree) where
  open T use {Value, value_int, value_text}

  channel_of-IsOff :
      (type : IoType) (item : Value) (ch : IoChannel) → channel_of T type item ≡ some ch → IsOff ch
  unfolding channel_of
  channel_of-IsOff type item ch h =
      let (pin, (_, h1)) = >>=-eq-some (value_int item "pin" (negsuc 0)) _ ch h in
      let (name, (_, h2)) = >>=-eq-some (value_text item "name" "") _ ch h1 in
      let (description, (_, h3)) = >>=-eq-some (value_text item "description" "") _ ch h2 in
      let (io_port, (_, h4)) = >>=-eq-some (value_text item "ioPort" "") _ ch h3 in
      ap (λ (c : IoChannel). c.state) (sym (some_inj _ ch h4))

  add_channels-IsOff :
      (type : IoType) (items : List Value) (acc channels : Map IoChannel)
      → add_channels T type items acc ≡ some channels
      → Every IsOff acc
      → Every IsOff channels
  unfolding add_channels
  add_channels-IsOff type [] acc channels a h = rw (sym (some_inj acc channels a)) h
  add_channels-IsOff type (item ∷ items) acc channels a h =
      let (ch, (made, more)) = >>=-eq-some (channel_of T type item) _ channels a in
      add_channels-IsOff type items (insert ch.name ch acc) channels more
        (insert-Every IsOff ch.name ch acc (channel_of-IsOff type item ch made) h)

  -- The outputs of the configuration are off, also after their ports are named.
  pub get_outputs-IsOff :
      (config : Value) (outputs : Map IoChannel)
      → get_outputs T config ≡ some outputs
      → Every IsOff (assign_port_names outputs)
  unfolding get_outputs get_channels
  get_outputs-IsOff config outputs h =
      let (io, (_, h1)) = >>=-eq-some (T.value config "io" T.object) _ outputs h in
      let (channel_array, (_, h2)) = >>=-eq-some (T.value io "outputs" T.array) _ outputs h1 in
      assign_port_names-Every IsOff IsOff outputs (λ ch off. off)
        (add_channels-IsOff output (T.elements channel_array) [] outputs h2 tt)
