-- ===== src/IoCard/Life.antt =====
-- What the card's life keeps: each registration is released, and polling runs on directed channels.
use text.Mathlib.Text.{◌==◌ as str_eq}
use machine_controller.Base.{
  ℕ, suc, ◌≡◌, refl, Bool, true, false, not, List, [], ◌∷◌, String, Option, none, some, ◌⊎◌, inl,
  inr, if_cases, arith,
}
use machine_controller.Base.Int.{pos, ltb_ℤ, eqb_ℤ}
use machine_controller.Base.Maps.{Map}
use machine_controller.MachineCore.Types.{IoChannel}
use machine_controller.Config.Directed.{Every, IsDirected}
use machine_controller.IoCard.Ports.{pin_within_port}
use machine_controller.IoCard.Inputs.{
  belongs, initial_channel, initial_channels, read_initial_states,
}
use machine_controller.IoCard.Outputs.{reset_configured_output_ports}
use machine_controller.IoCard.Start.{
  Driver, DriverCall, registered, released, configured, wrote, Card, dask_port, release,
  configure_ports, start_polling, destroy,
}

abbrev pub registrations : List DriverCall → ℕ
registrations [] = 0
registrations (registered card ∷ calls) = suc (registrations calls)
registrations (call ∷ calls) = registrations calls

abbrev pub releases : List DriverCall → ℕ
releases [] = 0
releases (released card ∷ calls) = suc (releases calls)
releases (call ∷ calls) = releases calls

-- A card is held, and one registration is not released yet.
pub record IsOpen (c : Card) : Type 0 where
  pub holds : ltb_ℤ c.card (pos 0) ≡ false
  pub owes : registrations c.calls ≡ suc (releases c.calls)

-- No card is held, every registration is released, and nothing polls.
pub record IsClosed (c : Card) : Type 0 where
  pub free : ltb_ℤ c.card (pos 0) ≡ true
  pub settled : registrations c.calls ≡ releases c.calls
  pub quiet : c.timer_running ≡ false

-- The driver accepted every port in its direction.
abbrev pub Accepted : Driver → Map String → Type 0
Accepted d [] = Unit
Accepted d ((port, type) ∷ rest) =
    ((dask_port port ≡ true) × (eqb_ℤ (d.port_config port (str_eq type "output")) (pos 0) ≡ true))
    × Accepted d rest

pub release-IsClosed : (c : Card) → IsOpen c → c.timer_running ≡ false → IsClosed (release c)
unfolding release
release-IsClosed c o q = record { free = refl; settled = o.owes; quiet = q }

-- What the loop over the ports leaves, by its result.
abbrev pub Configured : Driver → Map String → Card → Bool × Card → Type 0
Configured d m c (true, done) =
    (Accepted d m × IsOpen done) × (done ≡ record c { calls = done.calls })
Configured d m c (false, done) = IsClosed done

abbrev logged : String → String → Card → Card
logged port type c = record c { calls = configured port (str_eq type "output") ∷ c.calls }

one-more :
    (d : Driver) (port type : String) (rest : Map String) (c : Card) (r : Bool × Card)
    → dask_port port ≡ true
    → eqb_ℤ (d.port_config port (str_eq type "output")) (pos 0) ≡ true
    → Configured d rest (logged port type c) r
    → Configured d ((port, type) ∷ rest) c r
one-more d port type rest c (true, done) known accepted h =
    ((((known, accepted), h.0.0), h.0.1), h.1)
one-more d port type rest c (false, done) known accepted h = h

pub configure_ports-Configured :
    (d : Driver) (m : Map String) (c : Card)
    → IsOpen c
    → c.timer_running ≡ false
    → Configured d m c (configure_ports d m c)
unfolding configure_ports
configure_ports-Configured d [] c o q = ((tt, o), refl)
configure_ports-Configured d ((port, type) ∷ rest) c o q =
    let next = logged port type c in
    let later =
      configure_ports-Configured d rest next (record { holds = o.holds; owes = o.owes }) q in
    if_cases (Configured d ((port, type) ∷ rest) c) (not (dask_port port))
      (λ _. release-IsClosed c o q)
      (λ known.
        if_cases (Configured d ((port, type) ∷ rest) c)
          (not (eqb_ℤ (d.port_config port (str_eq type "output")) (pos 0)))
          (λ _. release-IsClosed next (record { holds = o.holds; owes = o.owes }) q)
          (λ accepted.
            one-more d port type rest c (configure_ports d rest next) (ground (arith, known))
              (ground (arith, accepted)) later))

-- What the rest of `initialize` leaves, by its result.
abbrev pub Started : Card → Bool × Card → Type 0
Started c (true, done) =
    IsOpen done × (done ≡ record c { timer = true; timer_running = true; calls = done.calls })
Started c (false, done) = IsClosed done

pub start_polling-Started :
    (d : Driver) (c : Card) → IsOpen c → c.timer_running ≡ false → Started c (start_polling d c)
unfolding start_polling
start_polling-Started d c o q =
    let reset = record c {
      calls = wrote (reset_configured_output_ports d.write c.ports c.outputs).1 ∷ c.calls;
    } in
    let still : IsOpen reset = record { holds = o.holds; owes = o.owes } in
    if_cases (Started c) (not (reset_configured_output_ports d.write c.ports c.outputs).0)
      (λ _. release-IsClosed reset still q)
      (λ _.
        if_cases (Started c) (not d.caps) (λ _. release-IsClosed reset still q)
          (λ _.
            if_cases (Started c) (not d.timer)
              (λ _.
                release-IsClosed (record reset { timer = false })
                  (record { holds = o.holds; owes = o.owes }) q)
              (λ _. (record { holds = o.holds; owes = o.owes }, refl))))

-- The destructor releases a card that is held.
pub destroy-IsClosed : (d : Driver) (c : Card) → IsOpen c ⊎ IsClosed c → IsClosed (destroy d c)
unfolding destroy release
destroy-IsClosed d c (inl o) =
    if_cases IsClosed (ltb_ℤ c.card (pos 0)) (λ free. absurd (ground (arith, free, o.holds)))
      (λ holds. record { free = refl; settled = o.owes; quiet = refl })
destroy-IsClosed d c (inr k) =
    if_cases IsClosed (ltb_ℤ c.card (pos 0))
      (λ free. record { free = free; settled = k.settled; quiet = refl })
      (λ holds. absurd (ground (arith, holds, k.free)))

-- Reading the states keeps what the channels' pins and ports decide.
pub read_initial_states-Every :
    (P : IoChannel → Type 0) (read : String → Option ℕ) (ports : Map String) (m : Map IoChannel)
    → ((port : String) (value : ℕ) (ch : IoChannel) → P ch → P (initial_channel port value ch))
    → Every P m
    → Every P (read_initial_states read ports m)
unfolding read_initial_states initial_channels
read_initial_states-Every P read [] m keep h = h
read_initial_states-Every P read ((port, type) ∷ ports) m keep h =
    read_initial_states-Every P read ports _ keep
      (if_cases (Every P) (str_eq type "input") (λ _. read_one (read port)) (λ _. h))
  where
    all : (value : ℕ) (n : Map IoChannel) → Every P n → Every P (initial_channels port value n)
    all value [] k = tt
    all value ((name, ch) ∷ n) k = (keep port value ch k.0, all value n k.1)

    read_one :
        (found : Option ℕ)
        → Every P (elim found [ none ↦ m | some value ↦ initial_channels port value m ])
    read_one none = h
    read_one (some value) = all value m h

pub initial_channel-IsDirected :
    (want : String) (ports : Map String) (port : String) (value : ℕ) (ch : IoChannel)
    → IsDirected want ports ch
    → IsDirected want ports (initial_channel port value ch)
unfolding initial_channel pin_within_port
initial_channel-IsDirected want ports port value ch h =
    if_cases (IsDirected want ports) (belongs port ch)
      (λ _. record { configured = h.configured; within = h.within }) (λ _. h)
