-- ===== src/Logic/Running.antt =====
-- The invariant over every event and over the event loop.
use machine_controller.Base.{
  ℕ, zero, suc, Bool, true, false, ◌||◌, List, [], ◌∷◌, String, Bytes, Option, none, some, ◌==◌,
  length, if◌then◌else◌, if_cases,
}
use machine_controller.Base.Int.{ℤ, pos, leb_ℤ}
use machine_controller.Base.Maps.{Map}
use machine_controller.MachineCore.State.{
  DefaultMachineCore, set_master_in_file_check_enabled, set_master_in_file_extraction,
  set_master_file_reference_set,
}
use machine_controller.MachineCore.Invariant.{IsSized}
use machine_controller.Logic.State.{gui_message, open_port, close_port, Logic, act}
use machine_controller.Logic.Cycle.{has_port}
use machine_controller.Logic.Setup.{
  Setting, missing, wrong_type, given, CommSetting, init_timer, init_timer_list, init_timers,
  report_timers, open_entry, report_opened, close_all, close_all_ports, open_ports, report_ports,
  initialize_communication_ports,
}
use machine_controller.Logic.References.{FileCheck, refresh_references}
use machine_controller.Logic.Events.{
  Surroundings, reinit_ports, reinit_timers, mentions, parameter_change, send_message,
}
use machine_controller.Logic.Invariant.{IsSound, act-IsSound}
use text.Mathlib.Text.{◌==◌ as str_eq}

pub refresh-IsSized :
    (o : Option FileCheck) (c : DefaultMachineCore) → IsSized c → IsSized (refresh_references o c)
unfolding refresh_references set_master_in_file_check_enabled set_master_in_file_extraction
    set_master_file_reference_set
refresh-IsSized none c z = z
refresh-IsSized (some f) c z = z

module _ {J : Type 0} where
  init_timer-IsSound :
      (name : String) (s : Setting ℤ) (r : ℕ × Logic J)
      → IsSound r.1
      → IsSound (init_timer name s r).1
  unfolding init_timer act
  init_timer-IsSound name missing r s = record { card_outputs = s.card_outputs; sized = s.sized }
  init_timer-IsSound name wrong_type r s = record { card_outputs = s.card_outputs; sized = s.sized }
  init_timer-IsSound name (given ms) r s =
      if_cases (λ (x : ℕ × Logic J). IsSound x.1) (leb_ℤ ms (pos 0))
        (λ _. record { card_outputs = s.card_outputs; sized = s.sized })
        (λ _. record { card_outputs = s.card_outputs; sized = s.sized })

  init_timer_list-IsSound :
      (settings : Map (Setting ℤ)) (r : ℕ × Logic J)
      → IsSound r.1
      → IsSound (init_timer_list settings r).1
  unfolding init_timer_list
  init_timer_list-IsSound [] r s = s
  init_timer_list-IsSound ((name, x) ∷ rest) r s =
      init_timer_list-IsSound rest _ (init_timer-IsSound name x r s)

  report_timers-IsSound : (r : ℕ × Logic J) → IsSound r.1 → IsSound (report_timers r).1
  unfolding report_timers
  report_timers-IsSound (zero, l) s = act-IsSound _ l s
  report_timers-IsSound (suc n, l) s = act-IsSound _ l s

  pub init_timers-IsSound :
      (settings : Map (Setting ℤ)) (l : Logic J) → IsSound l → IsSound (init_timers settings l).1
  unfolding init_timers
  init_timers-IsSound settings l s =
      let cleared : IsSound (record l { timers = [] }) = record {
        card_outputs = s.card_outputs;
        sized = s.sized;
      } in
      if_cases (λ (x : Bool × Logic J). IsSound x.1) (length settings == 0) (λ _. act-IsSound _ l s)
        (λ _. report_timers-IsSound _ (init_timer_list-IsSound settings _ cleared))

  pub close_all-IsSound : (ps : List String) (l : Logic J) → IsSound l → IsSound (close_all ps l)
  unfolding close_all
  close_all-IsSound [] l s = s
  close_all-IsSound (p ∷ ps) l s = close_all-IsSound ps _ (act-IsSound (close_port p) l s)

  -- Both the state at the end and the one at an exception.
  abbrev PortsSound : Option (ℕ × ℕ × Logic J) × Logic J → Type 0
  PortsSound (none, l) = IsSound l
  PortsSound (some r, l) = IsSound r.2

  open_entry-PortsSound :
      (empty : Bool) (active : Setting Bool) (opens : Bool)
      (skip threw success failure : Option (ℕ × ℕ × Logic J) × Logic J)
      → PortsSound skip
      → PortsSound threw
      → PortsSound success
      → PortsSound failure
      → PortsSound (open_entry empty active opens skip threw success failure)
  unfolding open_entry
  open_entry-PortsSound true active opens skip threw success failure a b c d = a
  open_entry-PortsSound false missing opens skip threw success failure a b c d = a
  open_entry-PortsSound false wrong_type opens skip threw success failure a b c d = b
  open_entry-PortsSound false (given false) opens skip threw success failure a b c d = a
  open_entry-PortsSound false (given true) true skip threw success failure a b c d = c
  open_entry-PortsSound false (given true) false skip threw success failure a b c d = d

  open_ports-PortsSound :
      (opens : String → Bool) (settings : Map CommSetting) (r : ℕ × ℕ × Logic J)
      → IsSound r.2
      → PortsSound (open_ports opens settings r)
  unfolding open_ports
  open_ports-PortsSound opens [] r s = s
  open_ports-PortsSound opens ((name, x) ∷ rest) (active, opened, l) s =
      let a = act-IsSound (gui_message "comm_success") _ (act-IsSound (open_port name) l s) in
      open_entry-PortsSound (str_eq name "") x.active (opens name) _ _ _ _
        (open_ports-PortsSound opens rest _ s) s
        (open_ports-PortsSound opens rest _
          (record { card_outputs = a.card_outputs; sized = a.sized }))
        (open_ports-PortsSound opens rest _ (act-IsSound (gui_message "warning") l s))

  report_opened-IsSound :
      (active opened : ℕ) (ps : List String) (l : Logic J)
      → IsSound l
      → IsSound (report_opened active opened ps l).1
  unfolding report_opened
  report_opened-IsSound active opened [] l s = act-IsSound _ l s
  report_opened-IsSound active opened (p ∷ ps) l s = act-IsSound _ l s

  report_ports-IsSound :
      (r : Option (ℕ × ℕ × Logic J) × Logic J) → PortsSound r → IsSound (report_ports r).1
  unfolding report_ports
  report_ports-IsSound (none, l) s = s
  report_ports-IsSound (some (zero, opened, l), l') s = act-IsSound _ l s
  report_ports-IsSound (some (suc active, opened, l), l') s =
      report_opened-IsSound (suc active) opened l.active_ports l s

  pub initialize_ports-IsSound :
      (opens : String → Bool) (settings : Map CommSetting) (l : Logic J)
      → IsSound l
      → IsSound (initialize_communication_ports opens settings l).1
  unfolding initialize_communication_ports close_all_ports
  initialize_ports-IsSound opens settings l s =
      let c = close_all-IsSound l.active_ports l s in
      let closed : IsSound (record (close_all l.active_ports l) { active_ports = [] }) = record {
        card_outputs = c.card_outputs;
        sized = c.sized;
      } in
      if_cases (λ (x : Bool × Logic J). IsSound x.1) l.initializing_comms (λ _. s)
        (λ _.
          if_cases (λ (x : Bool × Logic J). IsSound x.1) (length settings == 0)
            (λ _. act-IsSound _ _ closed)
            (λ _. report_ports-IsSound _ (open_ports-PortsSound opens settings _ closed)))

  reinit_ports-IsSound : (w : Surroundings) (l : Logic J) → IsSound l → IsSound (reinit_ports w l)
  unfolding reinit_ports
  reinit_ports-IsSound w l s =
      let marked : IsSound (record l { initializing_comms = true }) = record {
        card_outputs = s.card_outputs;
        sized = s.sized;
      } in
      let i =
        initialize_ports-IsSound w.opens w.comm_settings (record l { initializing_comms = true })
          marked in
      if_cases IsSound l.initializing_comms (λ _. s) (λ _. settled _ _ i)
    where
      settled :
          (ok : Bool) (l' : Logic J)
          → IsSound l'
          → IsSound (record (if ok then l' else act (gui_message "error") l') {
            initializing_comms = false;
          })
      settled true l' i = record { card_outputs = i.card_outputs; sized = i.sized }
      settled false l' i =
          let a = act-IsSound (gui_message "error") l' i in
          record { card_outputs = a.card_outputs; sized = a.sized }

  reinit_timers-IsSound : (w : Surroundings) (l : Logic J) → IsSound l → IsSound (reinit_timers w l)
  unfolding reinit_timers
  reinit_timers-IsSound w l s =
      let i =
        init_timers-IsSound w.timer_settings (record l { timers_initialized = false })
          (record { card_outputs = s.card_outputs; sized = s.sized }) in
      record { card_outputs = i.card_outputs; sized = i.sized }

  pub parameter_change-IsSound :
      (target : String) (w : Surroundings) (l : Logic J)
      → IsSound l
      → IsSound (parameter_change target w l)
  unfolding parameter_change
  parameter_change-IsSound target w l s =
      let s1 =
        if_cases IsSound (mentions target "communication") (λ _. reinit_ports-IsSound w l s)
          (λ _. s) in
      let s2 =
        if_cases IsSound (mentions target "timer") (λ _. reinit_timers-IsSound w _ s1) (λ _. s1) in
      if_cases IsSound (str_eq target "tests" || str_eq target "datafile")
        (λ _. record {
          card_outputs = s2.card_outputs;
          sized = refresh-IsSized w.file_check _ s2.sized;
        })
        (λ _. s2)

  pub send_message-IsSound :
      (port : String) (text : Bytes) (l : Logic J) → IsSound l → IsSound (send_message port text l)
  unfolding send_message
  send_message-IsSound port text l s =
      if_cases IsSound (has_port port l.active_ports) (λ _. act-IsSound _ l s)
        (λ _. act-IsSound _ l s)
