-- ===== src/Gui/Setup.antt =====
-- The setup messages that the window sends to the glue controllers: sendControllerSetupToController,
-- sendSetupToAllEnabledControllers and sendControllerSetupToActiveController of
-- src/gui/SettingsWindow.cpp. An exception is caught in the function, so that nothing is sent.
pub mod Same
pub mod Sent
use machine_controller.Base.{
  ℕ, zero, suc, Bool, true, false, List, [], ◌∷◌, String, Bytes, Option, none, some, if◌then◌else◌,
  ◌&&◌, not,
}
use machine_controller.Base.Int.{ℤ, pos}
use machine_controller.Base.Options.{◌>>=◌}
use machine_controller.Config.Defaults.{has}
use machine_controller.Gui.Json.{GuiJson, value_or, each, index, value}
use machine_controller.Logic.Events.{Event}
use machine_controller.Protocol.{
  MmRow, Message, SetupValues, create_controller_setup_message, dumped, send_message,
}
use text.Mathlib.Text.{◌==◌ as str_eq}

abbrev pub given : String → Option String
given s = if str_eq s "" then none else some s

module _ {D : Type 0} (J : GuiJson D) where
  open J use {editor, ratio, entries, is_array, elements, get_text, get_flag, get_int, get_double}
  open editor use {Value, member, is_object}

  -- An array that is missing, or no array, has no elements.
  abbrev pub elements_of : Option Value → List Value
  elements_of none = []
  elements_of (some v) = if is_array v then elements v else []

  unfoldable pub glue_row : Value → Option (MmRow D)
  glue_row row = do
    from ← value J get_int row "from" (pos 0)
    to ← value J get_int row "to" (pos 100)
    space ← value J get_double row "space" (ratio 5 1)
    some (record { from = from; to = to; space = space })

  unfoldable pub gun_setup : Value → Option (Bool × List (MmRow D))
  gun_setup gun = do
    enabled ← value J get_flag gun "enabled" true
    rows ← each glue_row (elements_of (member gun "rows"))
    some (enabled, rows)

  -- The plan of a controller, if there is one.
  abbrev pub plan_at : Value → String → Option Value
  plan_at controller plan = member controller "plans" >>= λ plans. member plans plan

  abbrev pub guns_of : Option Value → List Value
  guns_of none = []
  guns_of (some plan) = elements_of (member plan "guns")

  -- Cut to `n` entries, or filled up with guns that are off.
  unfoldable pub exactly : ℕ → List (Bool × List (MmRow D)) → List (Bool × List (MmRow D))
  exactly zero guns = []
  exactly (suc n) [] = (false, []) ∷ exactly n []
  exactly (suc n) (gun ∷ guns) = gun ∷ exactly n guns

  -- On, unless a Boolean says otherwise.
  unfoldable pub controller_enabled : Value → Bool
  controller_enabled controller = value_or true (member controller "enabled" >>= get_flag)

  -- The guns of the active plan, if one is set.
  unfoldable pub plan_guns : Value → Option (List (Bool × List (MmRow D)))
  plan_guns controller = do
    plan ← value J get_text controller "activePlan" "" >>= given
    each gun_setup (guns_of (plan_at controller plan))

  -- The rest of the arguments.
  unfoldable pub setup_with :
      Value
      → String
      → D
      → ℤ
      → String
      → List (Bool × List (MmRow D))
      → Option (String × SetupValues D)
  setup_with controller type resolution offset port guns = do
    start_current ← value J get_double controller "startCurrent" (ratio 1 1)
    start_duration ← value J get_double controller "startDurationMS" (ratio 5 10)
    hold_current ← value J get_double controller "holdCurrent" (ratio 5 10)
    dot_size ← value J get_text controller "dotSize" "small"
    some (
      port,
      record {
        controller_type = type;
        encoder_resolution = resolution;
        sensor_offset = offset;
        controller_enabled = true;
        guns = exactly 4 guns;
        start_current = start_current;
        start_duration_ms = start_duration;
        hold_current = hold_current;
        dot_size = dot_size;
      },
    )

  -- The port and the arguments of the message, or none if nothing is sent.
  unfoldable pub setup_of : Value → Option (String × SetupValues D)
  setup_of controller =
      if controller_enabled controller
      then (do
        type ← value J get_text controller "type" "glue"
        resolution ← value J get_double controller "encoder" (ratio 1 1)
        offset ← value J get_int controller "sensorOffset" (pos 10)
        port ← value J get_text controller "communication" "" >>= given
        guns ← plan_guns controller
        setup_with controller type resolution offset port guns)
      else none

  -- The controller that `activeController` names.
  unfoldable pub active_controller : Value → Option Value
  active_controller glue = do
    active ← member glue "activeController"
    controllers ← member glue "controllers"
    name ← get_text active
    member controllers name

  module _ (dump : Message D → Option Bytes) where
    unfoldable pub send_prepared : Option (String × SetupValues D) → List Event → List Event
    send_prepared none queue = queue
    send_prepared (some (port, setup)) queue =
        send_message queue port (dumped (dump (create_controller_setup_message setup)))

    unfoldable pub send_setup_to_controller : Value → List Event → List Event
    send_setup_to_controller controller = send_prepared (setup_of controller)

    unfoldable pub send_to_each : List (String × Value) → List Event → List Event
    send_to_each [] queue = queue
    send_to_each ((name, controller) ∷ rest) queue =
        send_to_each rest (
          if controller_enabled controller
          then send_setup_to_controller controller queue
          else queue)

    abbrev pub send_to_controllers : Option Value → List Event → List Event
    send_to_controllers none queue = queue
    send_to_controllers (some controllers) queue =
        if is_object controllers then send_to_each (entries controllers) queue else queue

    unfoldable pub send_setup_to_all : Value → List Event → List Event
    send_setup_to_all glue = send_to_controllers (member glue "controllers")

    unfoldable pub send_to_active : Option Value → List Event → List Event
    send_to_active none queue = queue
    send_to_active (some controller) queue = send_setup_to_controller controller queue

    unfoldable pub send_setup_to_active : Value → List Event → List Event
    send_setup_to_active glue = send_to_active (active_controller glue)
