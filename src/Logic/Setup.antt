-- ===== src/Logic/Setup.antt =====
-- `initTimers`, `initializeCommunicationPorts`, `closeAllPorts` and `initialize`.
use machine_controller.Base.{
  ℕ, zero, suc, Bool, true, false, List, [], ◌∷◌, ◌++◌, String, Option, none, some, ◌==◌, ltb,
  length, if◌then◌else◌,
}
use machine_controller.Base.Int.{ℤ, pos, leb_ℤ}
use machine_controller.Base.Maps.{Map, insert}
use machine_controller.MachineCore.Types.{none_edge}
use machine_controller.Logic.State.{Timer, gui_message, open_port, close_port, Logic, act}
use text.Mathlib.Text.{◌==◌ as str_eq}

-- A member of the configuration's JSON: not there, of another type (reading it throws), or a value.
pub data Setting {ℓ} (A : Type ℓ) : Type ℓ where
  missing : Setting A
  wrong_type : Setting A
  given : A → Setting A

-- `commSettings[name]`: its members `active` and `offset`.
pub record CommSetting : Type 0 where
  pub active : Setting Bool
  pub offset : Setting ℤ

-- The outcomes of one entry: a name that is empty or a port that is not active is skipped.
unfoldable pub open_entry {ℓ} : {R : Type ℓ} → Bool → Setting Bool → Bool → R → R → R → R → R
open_entry true active opens skip threw success failure = skip
open_entry false missing opens skip threw success failure = skip
open_entry false wrong_type opens skip threw success failure = threw
open_entry false (given false) opens skip threw success failure = skip
open_entry false (given true) true skip threw success failure = success
open_entry false (given true) false skip threw success failure = failure

module _ {J : Type 0} where
  -- One entry of the timer settings; the result counts the timers that were set up.
  unfoldable pub init_timer : String → Setting ℤ → ℕ × Logic J → ℕ × Logic J
  init_timer name missing (n, l) = (n, act (gui_message "timer_warning") l)
  init_timer name wrong_type (n, l) = (n, act (gui_message "timer_error") l)
  init_timer name (given ms) (n, l) =
      if leb_ℤ ms (pos 0)
      then (n, act (gui_message "timer_warning") l)
      else (let t : Timer = record {
        state = pos 0;
        event_type = none_edge;
        name = name;
        duration = ms;
      } in
          (suc n, act (gui_message "timer_success") (record l { timers = insert name t l.timers })))

  unfoldable pub init_timer_list : Map (Setting ℤ) → ℕ × Logic J → ℕ × Logic J
  init_timer_list [] r = r
  init_timer_list ((name, s) ∷ rest) r = init_timer_list rest (init_timer name s r)

  -- The reports at the end of the setup of the timers.
  unfoldable pub report_timers : ℕ × Logic J → Bool × Logic J
  report_timers (zero, l) = (false, act (gui_message "timer_error") l)
  report_timers (suc n, l) = (true, act (gui_message "info") l)

  -- The settings are the durations of the configured timers.
  unfoldable pub init_timers : Map (Setting ℤ) → Logic J → Bool × Logic J
  init_timers settings l =
      if length settings == 0
      then (false, act (gui_message "timer_error") l)
      else report_timers (init_timer_list settings (0, record l { timers = [] }))

  unfoldable pub close_all : List String → Logic J → Logic J
  close_all [] l = l
  close_all (p ∷ ps) l = close_all ps (act (close_port p) l)

  -- `closeAllPorts`: the map keeps its entries.
  unfoldable pub close_all_ports : Logic J → Logic J
  close_all_ports l = close_all l.active_ports l

  -- `opens` tells of each port if it can be opened. The result counts the active ports and those that
  -- were opened; `none` is the exception of a setting of another type.
  unfoldable pub open_ports :
      (String → Bool) → Map CommSetting → ℕ × ℕ × Logic J → Option (ℕ × ℕ × Logic J) × Logic J
  open_ports opens [] r = (some r, r.2)
  open_ports opens ((name, s) ∷ rest) (active, opened, l) =
      open_entry (str_eq name "") s.active (opens name) (open_ports opens rest (active, opened, l))
        (none, l)
        (open_ports opens rest (
          suc active,
          suc opened,
          record (act (gui_message "comm_success") (act (open_port name) l)) {
            active_ports = l.active_ports ++ (name ∷ []);
          },
        ))
        (open_ports opens rest (suc active, opened, act (gui_message "warning") l))

  -- The reports at the end of the setup of the ports.
  unfoldable pub report_opened : ℕ → ℕ → List String → Logic J → Bool × Logic J
  report_opened active opened [] l = (false, act (gui_message "error") l)
  report_opened active opened (p ∷ ps) l =
      (true, act (gui_message (if ltb opened active then "warning" else "info")) l)

  unfoldable pub report_ports : Option (ℕ × ℕ × Logic J) × Logic J → Bool × Logic J
  report_ports (none, l) = (false, l)
  report_ports (some (zero, opened, l), l') = (true, act (gui_message "warning") l)
  report_ports (some (suc active, opened, l), l') =
      report_opened (suc active) opened l.active_ports l

  unfoldable pub initialize_communication_ports :
      (String → Bool) → Map CommSetting → Logic J → Bool × Logic J
  initialize_communication_ports opens settings l =
      if l.initializing_comms
      then (true, l)
      else (let closed : Logic J = record (close_all_ports l) { active_ports = [] } in
          if length settings == 0
          then (false, act (gui_message "error") closed)
          else report_ports (open_ports opens settings (0, 0, closed)))

  unfoldable pub initialize_timers : Map (Setting ℤ) → Logic J → Logic J
  initialize_timers settings l =
      if l.timers_initialized
      then l
      else (let (ok, l') = init_timers settings l in
          if ok then record l' { timers_initialized = true } else l')

  unfoldable pub initialize :
      Map (Setting ℤ) → (String → Bool) → Map CommSetting → Logic J → Logic J
  initialize timer_settings opens settings l0 =
      let l : Logic J = initialize_timers timer_settings l0 in
      if l.comms_initialized
      then l
      else (let (ok, l') = initialize_communication_ports opens settings l in
          if ok
          then record (act (gui_message "info") l') { comms_initialized = true }
          else act (gui_message "error") l')
