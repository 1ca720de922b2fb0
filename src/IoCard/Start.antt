-- ===== src/IoCard/Start.antt =====
-- The card's life: the constructor, `initialize`, `stopPolling` and the destructor. The calls of the
-- driver and of Windows return what a `Driver` holds; the calls made are kept, the last one first.
use text.Mathlib.Text.{◌==◌ as str_eq}
use machine_controller.Base.{
  ℕ, Bool, true, false, not, ◌||◌, List, [], ◌∷◌, String, Option, none, some, if◌then◌else◌,
}
use machine_controller.Base.Int.{ℤ, pos, negsuc, ltb_ℤ, eqb_ℤ}
use machine_controller.Base.Maps.{Map}
use machine_controller.Base.Options.{◌>>=◌}
use machine_controller.MachineCore.Types.{IoChannel}
use machine_controller.IoCard.Ports.{assign_port_names}
use machine_controller.IoCard.Inputs.{read_initial_states}
use machine_controller.IoCard.Outputs.{reset_configured_output_ports}
use machine_controller.Config.Tree.{JsonTree}
use machine_controller.Config.Pins.{
  get_inputs, get_outputs, is_pci7248_configuration_valid, get_pci7248_io_ports_configuration,
}

-- `register` is the result of `Register_Card`, `port_config` that of `DIO_PortConfig` on a port as an
-- output or input, `caps` and `timer` whether `timeGetDevCaps` and `CreateWaitableTimerEx` succeed.
pub record Driver : Type 0 where
  pub register : ℤ
  pub port_config : String → Bool → ℤ
  pub read : String → Option ℕ
  pub write : String → ℕ → Bool
  pub caps : Bool
  pub timer : Bool

pub data DriverCall : Type 0 where
  registered released : ℤ → DriverCall
  configured : String → Bool → DriverCall
  wrote : List (String × ℕ) → DriverCall

pub record Card : Type 0 where
  pub card : ℤ
  pub ports : Map String
  pub inputs : Map IoChannel
  pub outputs : Map IoChannel
  pub timer : Bool
  pub timer_running : Bool
  pub polling_stopped : Bool
  pub calls : List DriverCall

abbrev pub dask_port : String → Bool
dask_port port = str_eq port "A" || str_eq port "B" || str_eq port "CL" || str_eq port "CH"

unfoldable pub release : Card → Card
release c = record c { card = negsuc 0; calls = released c.card ∷ c.calls }

-- The loop over the ports; `false` is the return of `initialize` from it.
unfoldable pub configure_ports : Driver → Map String → Card → Bool × Card
configure_ports d [] c = (true, c)
configure_ports d ((port, type) ∷ rest) c =
    let next : Card = record c { calls = configured port (str_eq type "output") ∷ c.calls } in
    let (ok, done) = configure_ports d rest next in
    if not (dask_port port)
    then (false, release c)
    else if not (eqb_ℤ (d.port_config port (str_eq type "output")) (pos 0))
    then (false, release next)
    else (ok, done)

-- From the reset of the outputs on.
unfoldable pub start_polling : Driver → Card → Bool × Card
start_polling d c =
    let (ok, written) = reset_configured_output_ports d.write c.ports c.outputs in
    let reset : Card = record c { calls = wrote written ∷ c.calls } in
    if not ok
    then (false, release reset)
    else if not d.caps
    then (false, release reset)
    else if not d.timer
    then (false, release (record reset { timer = false }))
    else (true, record reset { timer = true; timer_running = true })

-- `assignPortNames` and `readInitialInputStates`
unfoldable pub name_channels : Driver → Card → Card
name_channels d c = record c {
  inputs = read_initial_states d.read c.ports (assign_port_names c.inputs);
  outputs = assign_port_names c.outputs;
}

unfoldable pub configure_card : Driver → Card → Bool × Card
configure_card d c =
    let (ok, done) = configure_ports d c.ports c in
    if ok then start_polling d (name_channels d done) else (false, done)

-- `resetConfiguredOutputPorts` is called also when there is no card.
unfoldable pub destroy : Driver → Card → Card
destroy d c =
    let (ok, written) = reset_configured_output_ports d.write c.ports c.outputs in
    let reset : Card = record c {
      timer = false;
      timer_running = false;
      polling_stopped = true;
      calls = wrote written ∷ c.calls;
    } in
    if ltb_ℤ c.card (pos 0) then reset else release reset

module _ (T : JsonTree) where
  open T use {Value}

  -- The constructor; `none` is an exception.
  unfoldable pub make_card : Value → Option Card
  make_card config = do
    inputs ← get_inputs T config
    outputs ← get_outputs T config
    some (record {
      card = negsuc 0;
      ports = [];
      inputs = inputs;
      outputs = outputs;
      timer = false;
      timer_running = false;
      polling_stopped = false;
      calls = [];
    })

  -- With the card registered.
  unfoldable pub load_ports : Value → Driver → Card → Option Bool × Card
  load_ports config d c = elim (get_pci7248_io_ports_configuration T config) [
    | none ↦ (none, c)
    | some ports ↦ let (ok, done) = configure_card d (record c { ports = ports }) in (some ok, done)
  ]

  unfoldable pub register_card : Value → Driver → Card → Option Bool × Card
  register_card config d c =
      if ltb_ℤ d.register (pos 0)
      then (some false, record c { card = d.register })
      else load_ports config d
          (record c { card = d.register; calls = registered d.register ∷ c.calls })

  -- The result, where `none` is an exception, and what it leaves.
  unfoldable pub initialize : Value → Driver → Card → Option Bool × Card
  initialize config d c = elim (is_pci7248_configuration_valid T config) [
    | none ↦ (none, c)
    | some valid ↦ if valid then register_card config d c else (some false, c)
  ]
