-- ===== src/IoCard/Outcome.antt =====
-- How `initialize` ends, for any configuration and whatever the driver answers.
use machine_controller.Base.{
  suc, ◌∷◌, ◌≡◌, refl, ap, Bool, true, false, List, String, Option, none, some, ◌⊎◌, inl, inr,
  if_cases, if◌then◌else◌, arith,
}
use machine_controller.Base.Int.{pos, ltb_ℤ}
use machine_controller.Base.Maps.{Map}
use machine_controller.Base.Options.{>>=-eq-some, some_inj}
use machine_controller.Config.Tree.{JsonTree, IsTree}
use machine_controller.Config.Pins.{
  get_inputs, get_outputs, is_pci7248_configuration_valid, get_pci7248_io_ports_configuration,
}
use machine_controller.Config.Directed.{Every, IsDirected}
use machine_controller.Config.Valid.{valid-IsDirected}
use machine_controller.Config.Loads.{valid-loads}
use machine_controller.IoCard.Ports.{assign_port_names}
use machine_controller.IoCard.Start.{
  Driver, DriverCall, registered, Card, configure_ports, name_channels, start_polling,
  configure_card, destroy, make_card, load_ports, register_card, initialize,
}
use machine_controller.IoCard.Life.{
  IsOpen, IsClosed, Accepted, Configured, configure_ports-Configured, Started,
  start_polling-Started, destroy-IsClosed, read_initial_states-Every, initial_channel-IsDirected,
}

-- Polling runs on a card whose ports the driver has set as the channels need them.
pub record IsRunning (d : Driver) (c : Card) : Type 0 where
  pub opened : IsOpen c
  pub polls : c.timer_running ≡ true
  pub accepted : Accepted d c.ports
  pub inputs_directed : Every (IsDirected "input" c.ports) c.inputs
  pub outputs_directed : Every (IsDirected "output" c.ports) c.outputs

abbrev pub Outcome : Driver → Option Bool × Card → Type 0
Outcome d (some true, c) = IsRunning d c
Outcome d (some false, c) = IsClosed c
Outcome d (none, c) = IsClosed c

-- The channels as `assignPortNames` is to leave them.
abbrev Named : Card → Type 0
Named c =
    Every (IsDirected "input" c.ports) (assign_port_names c.inputs)
    × Every (IsDirected "output" c.ports) (assign_port_names c.outputs)

running :
    (d : Driver) (c : Card) (calls : List DriverCall)
    → Accepted d c.ports
    → Named c
    → IsOpen (record (name_channels d c) { timer = true; timer_running = true; calls = calls })
    → IsRunning d (record (name_channels d c) { timer = true; timer_running = true; calls = calls })
unfolding name_channels
running d c calls a n o = record {
  opened = o;
  polls = refl;
  accepted = a;
  inputs_directed =
      read_initial_states-Every (IsDirected "input" c.ports) d.read c.ports
        (assign_port_names c.inputs) (initial_channel-IsDirected "input" c.ports) n.0;
  outputs_directed = n.1;
}

started-Outcome :
    (d : Driver) (c : Card) (r : Bool × Card)
    → Accepted d c.ports
    → Named c
    → Started (name_channels d c) r
    → Outcome d (some r.0, r.1)
started-Outcome d c (true, done) a n h = rw h.1 (running d c done.calls a n (rw⁻¹ h.1 h.0))
started-Outcome d c (false, done) a n h = h

name_channels-IsOpen : (d : Driver) (c : Card) → IsOpen c → IsOpen (name_channels d c)
unfolding name_channels
name_channels-IsOpen d c o = record { holds = o.holds; owes = o.owes }

name_channels-quiet :
    (d : Driver) (c : Card) → c.timer_running ≡ false → (name_channels d c).timer_running ≡ false
unfolding name_channels
name_channels-quiet d c q = q

configured-Outcome :
    (d : Driver) (c : Card) (r : Bool × Card)
    → Named c
    → c.timer_running ≡ false
    → Configured d c.ports c r
    → let next = if r.0 then start_polling d (name_channels d r.1) else (false, r.1) in
      Outcome d (some next.0, next.1)
configured-Outcome d c (true, done) n q h =
    let named : Named done = rw h.1 n in
    let accepted : Accepted d done.ports = rw h.1 h.0.0 in
    let quiet : done.timer_running ≡ false = rw h.1 q in
    started-Outcome d done (start_polling d (name_channels d done)) accepted named (
      start_polling-Started d (name_channels d done) (name_channels-IsOpen d done h.0.1)
        (name_channels-quiet d done quiet))
configured-Outcome d c (false, done) n q h = h

configure_card-Outcome :
    (d : Driver) (c : Card)
    → IsOpen c
    → Named c
    → c.timer_running ≡ false
    → Outcome d (some (configure_card d c).0, (configure_card d c).1)
unfolding configure_card
configure_card-Outcome d c o n q =
    configured-Outcome d c (configure_ports d c.ports c) n q
      (configure_ports-Configured d c.ports c o q)

outcome_known : (d : Driver) (r : Option Bool × Card) → Outcome d r → IsOpen r.1 ⊎ IsClosed r.1
outcome_known d (some true, c) h = inl h.opened
outcome_known d (some false, c) h = inr h
outcome_known d (none, c) h = inr h

module _ (T : JsonTree) (laws : IsTree T) where
  open T use {Value}

  -- The channels of a new card are those of the configuration.
  record IsNew (config : Value) (c : Card) : Type 0 where
    closed : IsClosed c
    inputs_read : get_inputs T config ≡ some c.inputs
    outputs_read : get_outputs T config ≡ some c.outputs

  make_card-IsNew : (config : Value) (c : Card) → make_card T config ≡ some c → IsNew config c
  unfolding make_card
  make_card-IsNew config c h =
      let (ins, (ins_read, h1)) = >>=-eq-some (get_inputs T config) _ c h in
      let (outs, (outs_read, h2)) = >>=-eq-some (get_outputs T config) _ c h1 in
      rw⁻¹ (some_inj _ c h2) (record {
        closed = record { free = refl; settled = refl; quiet = refl };
        inputs_read = ins_read;
        outputs_read = outs_read;
      })

  load_ports-Outcome :
      (config : Value) (d : Driver) (c : Card) (ports : Map String)
      → IsOpen c
      → c.timer_running ≡ false
      → get_pci7248_io_ports_configuration T config ≡ some ports
      → ((found : Map String)
          → get_pci7248_io_ports_configuration T config ≡ some found
          → Named (record c { ports = found }))
      → Outcome d (load_ports T config d c)
  unfolding load_ports
  load_ports-Outcome config d c ports o q loaded n =
      with_ports (get_pci7248_io_ports_configuration T config) refl
    where
      with_ports :
          (found : Option (Map String))
          → get_pci7248_io_ports_configuration T config ≡ found
          → Outcome d (elim found [
            | none ↦ (none, c)
            | some found ↦
                let (ok, done) = configure_card d (record c { ports = found }) in (some ok, done)
          ])
      with_ports none e = absurd (ground (arith, e, loaded))
      with_ports (some found) e =
          configure_card-Outcome d (record c { ports = found })
            (record { holds = o.holds; owes = o.owes }) (n found e) q

  register_card-Outcome :
      (config : Value) (d : Driver) (c : Card)
      → is_pci7248_configuration_valid T config ≡ some true
      → IsNew config c
      → Outcome d (register_card T config d c)
  unfolding register_card
  register_card-Outcome config d c valid new =
      let (ports, loaded) = valid-loads T config true valid in
      let named =
        λ (found : Map String) (e : get_pci7248_io_ports_configuration T config ≡ some found).
          valid-IsDirected T laws config found c.inputs c.outputs valid e new.inputs_read
            new.outputs_read in
      if_cases (Outcome d) (ltb_ℤ d.register (pos 0))
        (λ free. record { free = free; settled = new.closed.settled; quiet = new.closed.quiet })
        (λ holds.
          load_ports-Outcome config d
            (record c { card = d.register; calls = registered d.register ∷ c.calls }) ports
            (record { holds = holds; owes = ap suc new.closed.settled }) new.closed.quiet loaded
            named)

  initialize-Outcome :
      (config : Value) (d : Driver) (c : Card)
      → IsNew config c
      → Outcome d (initialize T config d c)
  unfolding initialize
  initialize-Outcome config d c new = checked (is_pci7248_configuration_valid T config) refl
    where
      checked :
          (valid : Option Bool)
          → is_pci7248_configuration_valid T config ≡ valid
          → Outcome d (elim valid [
            | none ↦ (none, c)
            | some valid ↦ if valid then register_card T config d c else (some false, c)
          ])
      checked none e = new.closed
      checked (some true) e = register_card-Outcome config d c e new
      checked (some false) e = new.closed

  -- Whatever the configuration and the answers of the driver: if `initialize` of a new object returns
  -- true, the card is held and polled, the driver has accepted each port in its direction, and each
  -- channel's pin lies on a port of its direction; if it returns false or throws, every registered card
  -- is released and nothing polls. After the destructor no card is held in any case.
  pub initialize-ends :
      (config : Value) (d : Driver) (c : Card)
      → make_card T config ≡ some c
      → Outcome d (initialize T config d c) × IsClosed (destroy d (initialize T config d c).1)
  initialize-ends config d c h =
      let outcome = initialize-Outcome config d c (make_card-IsNew config c h) in
      (
        outcome,
        destroy-IsClosed d (initialize T config d c).1
            (outcome_known d (initialize T config d c) outcome),
      )
