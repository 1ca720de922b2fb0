-- ===== src/IoCard/Outputs.antt =====
-- Writing the outputs: `writeOutputs` and `resetConfiguredOutputPorts`.
use Prim.Native.Nat.{bit_or}
use machine_controller.Base.{
  ℕ, ◌^◌, ◌%◌, Bool, true, false, not, ◌&&◌, List, [], ◌∷◌, String, Option, none, some,
  if◌then◌else◌,
}
use machine_controller.Base.Int.{ℤ, pos, eqb_ℤ, pos_part}
use machine_controller.Base.Maps.{Map, lookup, insert}
use machine_controller.MachineCore.Types.{IoChannel}
use machine_controller.IoCard.Ports.{pin_within_port, in_port, complement32}
use text.Mathlib.Text.{◌==◌ as str_eq}

-- All output ports with no bit set.
unfoldable pub output_ports : Map String → Map ℕ
output_ports [] = []
output_ports ((port, type) ∷ ports) =
    if str_eq type "output" then insert port 0 (output_ports ports) else output_ports ports

abbrev pub is_output : Option String → Bool
is_output none = false
is_output (some type) = str_eq type "output"

abbrev pub aggregate : Option ℕ → ℕ
aggregate none = 0
aggregate (some value) = value

-- `|= (1u << p)`
unfoldable pub set_bit : IoChannel → Map ℕ → Map ℕ
set_bit ch m =
    insert ch.io_port (bit_or (aggregate (lookup ch.io_port m)) (2 ^ pos_part (pin_within_port ch)))
      m

-- The part of the loop for a configured channel that is to have the given state.
unfoldable pub switch_on : Map String → ℤ → IoChannel → Map ℕ → Map ℕ
switch_on ports state ch m =
    if is_output (lookup ch.io_port ports)
      && in_port (pin_within_port ch)
      && not (eqb_ℤ state (pos 0))
    then set_bit ch m
    else m

unfoldable pub add_output : Map String → ℤ → Option IoChannel → Map ℕ → Map ℕ
add_output ports state none m = m
add_output ports state (some ch) m = switch_on ports state ch m

-- The aggregates after the loop over the desired outputs; `configured` is `outputChannels_`.
unfoldable pub add_outputs : Map String → Map IoChannel → Map IoChannel → Map ℕ → Map ℕ
add_outputs ports configured [] m = m
add_outputs ports configured ((name, want) ∷ wants) m =
    add_outputs ports configured wants (add_output ports want.state (lookup name configured) m)

-- The active-low value that is written to a port.
abbrev pub port_value : ℕ → ℕ
port_value agg = complement32 agg % 256

-- `write` is `DO_WritePort`, `false` its failure; the result has the values in the order of writing.
unfoldable pub write_ports : (String → ℕ → Bool) → Map ℕ → Bool × List (String × ℕ)
write_ports write [] = (true, [])
write_ports write ((port, agg) ∷ m) =
    let (ok, written) = write_ports write m in
    (write port (port_value agg) && ok, (port, port_value agg) ∷ written)

unfoldable pub write_outputs :
    (String → ℕ → Bool) → Map String → Map IoChannel → Map IoChannel → Bool × List (String × ℕ)
write_outputs write ports configured wants =
    write_ports write (add_outputs ports configured wants (output_ports ports))

unfoldable pub reset_configured_output_ports :
    (String → ℕ → Bool) → Map String → Map IoChannel → Bool × List (String × ℕ)
reset_configured_output_ports write ports configured = write_outputs write ports configured []
