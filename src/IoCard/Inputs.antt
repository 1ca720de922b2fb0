-- ===== src/IoCard/Inputs.antt =====
-- Reading the inputs: `readInitialInputStates` and `updateInputStates`.
use machine_controller.Base.{
  ℕ, Bool, true, false, ◌||◌, ◌&&◌, [], ◌∷◌, String, Option, none, some, if◌then◌else◌,
}
use machine_controller.Base.Int.{ℤ, pos, eqb_ℤ, pos_part}
use machine_controller.Base.Maps.{Map}
use machine_controller.MachineCore.Types.{IoChannel, IoEventType, none_edge, rising, falling}
use machine_controller.IoCard.Ports.{pin_within_port, in_port, bit, complement32}
use text.Mathlib.Text.{◌==◌ as str_eq}

-- The edge between two states; other changes leave the event type as it was.
unfoldable pub edge_of : ℤ → ℤ → IoEventType → IoEventType
edge_of old new e =
    if eqb_ℤ old (pos 0) && eqb_ℤ new (pos 1)
    then rising
    else if eqb_ℤ old (pos 1) && eqb_ℤ new (pos 0)
    then falling
    else e

-- A channel and its new state: the result says if the state changed.
unfoldable pub update_state : ℤ → IoChannel → Bool × IoChannel
update_state new ch =
    if eqb_ℤ ch.state new
    then (false, record ch { event_type = none_edge })
    else (true, record ch { event_type = edge_of ch.state new ch.event_type; state = new })

-- The new state of a channel on an active-low port that reads `value`.
unfoldable pub level : ℕ → IoChannel → ℤ
level value ch = pos (bit (complement32 value) (pos_part (pin_within_port ch)))

unfoldable pub belongs : String → IoChannel → Bool
belongs port ch = str_eq ch.io_port port && in_port (pin_within_port ch)

unfoldable pub update_channel : String → ℕ → IoChannel → Bool × IoChannel
update_channel port value ch =
    if belongs port ch then update_state (level value ch) ch else (false, ch)

unfoldable pub update_channels : String → ℕ → Map IoChannel → Bool × Map IoChannel
update_channels port value [] = (false, [])
update_channels port value ((name, ch) ∷ m) =
    let (changed, ch') = update_channel port value ch in
    let (more, m') = update_channels port value m in (changed || more, (name, ch') ∷ m')

-- `read` is `DI_ReadPort`; `none` is its failure, after which the port is skipped.
unfoldable pub update_port :
    (String → Option ℕ) → String × String → Map IoChannel → Bool × Map IoChannel
update_port read (port, type) m =
    if str_eq type "input"
    then elim (read port) [ none ↦ (false, m) | some value ↦ update_channels port value m ]
    else (false, m)

unfoldable pub update_input_states :
    (String → Option ℕ) → Map String → Map IoChannel → Bool × Map IoChannel
update_input_states read [] m = (false, m)
update_input_states read (p ∷ ports) m =
    let (changed, m') = update_port read p m in
    let (more, m'') = update_input_states read ports m' in (changed || more, m'')

-- One polling iteration: the channels of the event that is pushed, if there is one.
unfoldable pub polling_iteration :
    (String → Option ℕ) → Map String → Map IoChannel → Option (Map IoChannel) × Map IoChannel
polling_iteration read ports m =
    let (changed, m') = update_input_states read ports m in (if changed then some m' else none, m')

-- The states at the start, without edges.
unfoldable pub initial_channel : String → ℕ → IoChannel → IoChannel
initial_channel port value ch =
    if belongs port ch then record ch { state = level value ch; event_type = none_edge } else ch

unfoldable pub initial_channels : String → ℕ → Map IoChannel → Map IoChannel
initial_channels port value [] = []
initial_channels port value ((name, ch) ∷ m) =
    (name, initial_channel port value ch) ∷ initial_channels port value m

unfoldable pub read_initial_states :
    (String → Option ℕ) → Map String → Map IoChannel → Map IoChannel
read_initial_states read [] m = m
read_initial_states read ((port, type) ∷ ports) m = read_initial_states read ports (
    if str_eq type "input"
    then elim (read port) [ none ↦ m | some value ↦ initial_channels port value m ]
    else m)
