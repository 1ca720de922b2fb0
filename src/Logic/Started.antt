-- ===== src/Logic/Started.antt =====
-- The invariant of the event loop holds when the program starts.
use machine_controller.Base.{◌≡◌, refl, Bool, List, Option, none, some, if_cases, arith}
use machine_controller.Base.Int.{ℤ, pos_part}
use machine_controller.Base.Maps.{Map}
use machine_controller.Base.Options.{some_inj}
use machine_controller.MachineCore.Types.{JsonValue, IoChannel}
use machine_controller.MachineCore.State.{
  DefaultMachineCore, set_master_sequence_enabled, set_master_sequence_config,
  reset_master_sequence, set_match_test_enabled, set_match_test_config, reset_match_test,
  set_master_in_file_check_enabled, set_master_in_file_extraction,
}
use machine_controller.MachineCore.Invariant.{IsSized, set_store_capacity-IsSized}
use machine_controller.Logic.State.{gui_message, Logic, Fresh}
use machine_controller.Logic.Setup.{
  Setting, init_timers, initialize_timers, initialize, initialize_communication_ports,
}
use machine_controller.Logic.References.{FileCheck}
use machine_controller.Logic.Events.{Event, Surroundings}
use machine_controller.Logic.Invariant.{IsSound, EventSound, act-IsSound}
use machine_controller.Logic.Running.{
  refresh-IsSized, init_timers-IsSound, initialize_ports-IsSound,
}
use machine_controller.Logic.EventLoop.{run_events-EventSound}
use machine_controller.Logic.Start.{
  SequenceSettings, MatchSettings, FileSettings, StartSettings, new_core, configure_file,
  configure_matching, configure_tests, configured_core, cells_at_least_0, with_cells, new_logic,
  start_run, run,
}

configure_file-IsSized :
    (check : Option FileCheck) (f : Option FileSettings) (c : DefaultMachineCore)
    → IsSized c
    → IsSized (configure_file check f c)
unfolding configure_file set_master_in_file_check_enabled set_master_in_file_extraction
configure_file-IsSized check none c z = z
configure_file-IsSized check (some f) c z =
    if_cases IsSized f.enabled (λ _. refresh-IsSized check _ z) (λ _. z)

configure_matching-IsSized :
    (s : StartSettings) (m : Option MatchSettings) (c : DefaultMachineCore)
    → IsSized c
    → IsSized (configure_matching s m c)
unfolding configure_matching reset_match_test set_match_test_config set_match_test_enabled
configure_matching-IsSized s none c z = z
configure_matching-IsSized s (some m) c z = configure_file-IsSized s.file_check s.in_file _ z

configure_tests-IsSized :
    (s : StartSettings) (q : Option SequenceSettings) (c : DefaultMachineCore)
    → IsSized c
    → IsSized (configure_tests s q c)
unfolding configure_tests reset_master_sequence set_master_sequence_config
    set_master_sequence_enabled
configure_tests-IsSized s none c z = z
configure_tests-IsSized s (some q) c z = configure_matching-IsSized s s.matching _ z

configured_core-IsSized : (s : StartSettings) (cells : ℤ) → IsSized (configured_core s cells)
unfolding configured_core
configured_core-IsSized s cells =
    configure_tests-IsSized s s.sequence _
      (set_store_capacity-IsSized (pos_part (cells_at_least_0 cells)) new_core)

module _ {J : Type 0} where
  with_cells-IsSound :
      (s : StartSettings) (ready : Bool) (snapshot : Map IoChannel) (cells : Option ℤ) (l : Logic J)
      → with_cells s ready snapshot cells ≡ some l
      → IsSound l
  unfolding with_cells
  with_cells-IsSound s ready snapshot none l h = absurd (ground arith)
  with_cells-IsSound s ready snapshot (some cells) l h =
      rw⁻¹ (some_inj _ l h)
        (record { card_outputs = λ _ _. refl; sized = configured_core-IsSized s cells })

  new_logic-IsSound :
      (s : StartSettings) (ready : Bool) (snapshot : Map IoChannel) (l : Logic J)
      → new_logic s ready snapshot ≡ some l
      → IsSound l
  unfolding new_logic
  new_logic-IsSound s ready snapshot l h = with_cells-IsSound s ready snapshot s.cells l h

  initialize_timers-IsSound :
      (settings : Map (Setting ℤ)) (l : Logic J)
      → IsSound l
      → IsSound (initialize_timers settings l)
  unfolding initialize_timers
  initialize_timers-IsSound settings l s =
      let i = init_timers-IsSound settings l s in
      if_cases IsSound l.timers_initialized (λ _. s)
        (λ _.
          if_cases IsSound (init_timers settings l).0
            (λ _. record { card_outputs = i.card_outputs; sized = i.sized }) (λ _. i))

  initialize-IsSound :
      (settings : Map (Setting ℤ)) (w : Surroundings) (l : Logic J)
      → IsSound l
      → IsSound (initialize settings w.opens w.comm_settings l)
  unfolding initialize
  initialize-IsSound settings w l s =
      let t = initialize_timers-IsSound settings l s in
      let timed = initialize_timers settings l in
      let p = initialize_ports-IsSound w.opens w.comm_settings timed t in
      let ported = (initialize_communication_ports w.opens w.comm_settings timed).1 in
      let informed = act-IsSound (gui_message "info") ported p in
      if_cases IsSound timed.comms_initialized (λ _. t)
        (λ _.
          if_cases IsSound (initialize_communication_ports w.opens w.comm_settings timed).0
            (λ _. record { card_outputs = informed.card_outputs; sized = informed.sized })
            (λ _. act-IsSound (gui_message "error") ported p))

  start_run-IsSound :
      (w : Surroundings) (outputs : Map IoChannel) (l : Logic J)
      → IsSound l
      → IsSound (start_run w outputs l)
  unfolding start_run
  start_run-IsSound w outputs l s =
      let i = initialize-IsSound w.timer_settings w l s in
      record { card_outputs = λ _ _. refl; sized = i.sized }

-- From the constructor on, with any settings and outputs of the card, and whatever events come in
-- whatever order, if the GUI's two slots are not called meanwhile: as long as no exception ends the
-- constructor or the event loop, every port's vector keeps `capacity` cells, and output channels that are
-- not marked as changed are those that the card last accepted or, before the first write, gave when `run`
-- began, unless the card refused the last write.
pub run-EventSound :
    (JS : JsonValue) (fresh : Fresh) (s : StartSettings) (ready : Bool)
    (snapshot outputs : Map IoChannel) (w : Surroundings) (es : List (Event × Surroundings))
    (l : Logic JS.Value)
    → new_logic s ready snapshot ≡ some l
    → EventSound JS fresh (run JS fresh w outputs es l)
unfolding run
run-EventSound JS fresh s ready snapshot outputs w es l h =
    run_events-EventSound JS fresh es (start_run w outputs l)
      (start_run-IsSound w outputs l (new_logic-IsSound s ready snapshot l h))
