-- ===== src/Gui/Setup/Sent.antt =====
-- From the settings to the firmware: what the setup that the window sends makes the firmware do.
use machine_controller.Base.{
  ℕ, zero, suc, ◌≡◌, refl, sym, ap, ◌∙◌, Bool, true, false, List, [], ◌∷◌, length, String, some,
  if_cases, if◌then◌else◌, arith, ◌==◌,
}
use machine_controller.Base.Int.{ℤ, pos}
use machine_controller.Base.Options.{◌>>=◌, >>=-eq-some, some_inj}
use machine_controller.Firmware.Platform.{Reals, Json}
use machine_controller.Firmware.State.{GlueRow, Gun, GunInput, for_guns}
use machine_controller.Firmware.Controller.{
  Controller, Clock, update_speed, zone_pass, fire_pass, line_targets, speed_too_low,
  shutdown_all_guns,
}
use machine_controller.Firmware.Lines.{line_gun}
use machine_controller.Gui.Window.{nth}
use machine_controller.Firmware.Dots.{dots_gun}
use machine_controller.Firmware.Messages.{clear_rings, handle_message}
use machine_controller.Gui.Json.{GuiJson, value}
use machine_controller.Gui.Json.Laws.{guarded}
use machine_controller.Gui.Setup.{
  controller_enabled, exactly, given, plan_guns, setup_with, setup_of,
}
use machine_controller.Protocol.{MmRow, SetupValues, create_controller_setup_message}
use machine_controller.Protocol.Reading.{Rounding, ReadsMessage}
use machine_controller.Protocol.Setup.{setup-taken, taken_config, take_gun, zip_from}
use text.Mathlib.Text.{◌==◌ as str_eq}

module _ {D : Type 0} (J : GuiJson D) where
  open J use {editor, get_text, get_double, get_int, ratio}
  open editor use {Value, member}

  -- Where the parts of a setup come from.
  pub record Parts (controller : Value) (port : String) (s : SetupValues D) : Type 0 where
    pub is_on : controller_enabled J controller ≡ true
    pub enabled : s.controller_enabled ≡ true
    pub type : value J get_text controller "type" "glue" ≡ some s.controller_type
    pub port_given : (value J get_text controller "communication" "" >>= given) ≡ some port
    pub gun_list : List (Bool × List (MmRow D))
    pub guns_read : plan_guns J controller ≡ some gun_list
    pub guns : s.guns ≡ exactly J 4 gun_list

  setup_with-parts :
      (controller : Value) (type : String) (resolution : D) (offset : ℤ) (port : String)
      (guns : List (Bool × List (MmRow D))) (port' : String) (s : SetupValues D)
      → setup_with J controller type resolution offset port guns ≡ some (port', s)
      → (port ≡ port')
        × ((type ≡ s.controller_type)
            × ((s.controller_enabled ≡ true) × (s.guns ≡ exactly J 4 guns)))
  unfolding setup_with
  setup_with-parts controller type resolution offset port guns port' s h =
      let (start, (c, h1)) =
        >>=-eq-some (value J get_double controller "startCurrent" (ratio 1 1)) _ (port', s) h in
      let (duration, (d, h2)) =
        >>=-eq-some (value J get_double controller "startDurationMS" (ratio 5 10)) _ (port', s)
          h1 in
      let (hold, (e, h3)) =
        >>=-eq-some (value J get_double controller "holdCurrent" (ratio 5 10)) _ (port', s) h2 in
      let (size, (f, h4)) =
        >>=-eq-some (value J get_text controller "dotSize" "small") _ (port', s) h3 in
      let same = some_inj _ (port', s) h4 in
      (
        ap (λ r. r.0) same,
        (
          ap (λ r. r.1.controller_type) same,
          (ap (λ r. r.1.controller_enabled) (sym same), ap (λ r. r.1.guns) (sym same)),
        ),
      )

  pub setup_of-Parts :
      (controller : Value) (port : String) (s : SetupValues D)
      → setup_of J controller ≡ some (port, s)
      → Parts controller port s
  unfolding setup_of
  setup_of-Parts controller port s h =
      let (on, h1) = guarded (controller_enabled J controller) _ (port, s) h in
      let (type, (type_read, h2)) =
        >>=-eq-some (value J get_text controller "type" "glue") _ (port, s) h1 in
      let (resolution, (a, h3)) =
        >>=-eq-some (value J get_double controller "encoder" (ratio 1 1)) _ (port, s) h2 in
      let (offset, (b, h4)) =
        >>=-eq-some (value J get_int controller "sensorOffset" (pos 10)) _ (port, s) h3 in
      let (port', (port_read, h5)) =
        >>=-eq-some (value J get_text controller "communication" "" >>= given) _ (port, s) h4 in
      let (gs, (guns_read, h6)) = >>=-eq-some (plan_guns J controller) _ (port, s) h5 in
      let (same_port, (same_type, (on_sent, same_guns))) =
        setup_with-parts controller type resolution offset port' gs port s h6 in
      record {
        is_on = on;
        enabled = on_sent;
        type = type_read ∙ ap some same_type;
        port_given = port_read ∙ ap some same_port;
        gun_list = gs;
        guns_read = guns_read;
        guns = same_guns;
      }

  -- The gun of an index, or one that is off.
  abbrev pub entry_at : List (Bool × List (MmRow D)) → ℕ → Bool × List (MmRow D)
  entry_at [] i = (false, [])
  entry_at (e ∷ es) zero = e
  entry_at (e ∷ es) (suc i) = entry_at es i

  abbrev four : List (Bool × List (MmRow D)) → List (Bool × List (MmRow D))
  four es = entry_at es 0 ∷ entry_at es 1 ∷ entry_at es 2 ∷ entry_at es 3 ∷ []

  exactly-four : (es : List (Bool × List (MmRow D))) → exactly J 4 es ≡ four es
  unfolding exactly
  exactly-four [] = refl
  exactly-four (a ∷ []) = refl
  exactly-four (a ∷ b ∷ []) = refl
  exactly-four (a ∷ b ∷ c ∷ []) = refl
  exactly-four (a ∷ b ∷ c ∷ d ∷ es) = refl

-- The types that the window's combo box offers: glueTypeComboBox of src/gui/SettingsWindow.ui.
abbrev pub glue_types : List String
glue_types = "dots" ∷ "line" ∷ []

module _ (R : Reals) (J : GuiJson R.Double) (F : Json R.Double) (sort : List GlueRow → List GlueRow)
    (r : Rounding R.Double) where
  open R use {Double}
  open J use {editor, get_text}
  open editor use {Value, member}

  -- The controller's setup as the window sends it, read by the firmware, which has four guns.
  pub record Delivered (controller : Value) (port : String) (s : SetupValues Double) (v : F.Value)
      (c : Controller Double) : Type 0 where
    pub sent : setup_of J controller ≡ some (port, s)
    pub read : ReadsMessage F r v (create_controller_setup_message s)
    pub has_four : length c.guns ≡ 4

  -- The gun that the firmware has after the plan's guns `es` were taken.
  abbrev pub guns_taken :
      SetupValues Double → List (Bool × List (MmRow Double)) → List Gun → List Gun
  guns_taken s es (g0 ∷ g1 ∷ g2 ∷ g3 ∷ gs) =
      let take = take_gun R F sort r (taken_config R F sort r s) in
      g0 ∷ take (entry_at J es 0) g1 ∷ take (entry_at J es 1) g2 ∷ take (entry_at J es 2) g3 ∷ []
  guns_taken s es gs = gs

  zip_from-taken :
      (s : SetupValues Double) (es : List (Bool × List (MmRow Double))) (gs : List Gun)
      → length gs ≡ 4
      → zip_from (take_gun R F sort r (taken_config R F sort r s)) 1 (four J es) gs
        ≡ guns_taken s es gs
  zip_from-taken s es [] h = refl
  zip_from-taken s es (a ∷ []) h = absurd (omega arith)
  zip_from-taken s es (a ∷ b ∷ []) h = absurd (omega arith)
  zip_from-taken s es (a ∷ b ∷ c ∷ []) h = absurd (omega arith)
  zip_from-taken s es (a ∷ b ∷ c ∷ d ∷ []) h = refl
  zip_from-taken s es (a ∷ b ∷ c ∷ d ∷ e ∷ gs) h = absurd (omega arith)

  -- When the firmware has handled the setup that the window sent for a controller of its settings, it is
  -- enabled and has the controller's type. Its guns have no zones; the first has its rows and enabling
  -- as before; the second to fourth have those of the first to third gun of the controller's active
  -- plan, or are off with no rows where the plan has fewer guns. A fourth gun of the plan is lost.
  pub setup_of_arrives :
      (controller : Value) (port : String) (s : SetupValues Double) (v : F.Value)
      (c : Controller Double)
      → Delivered controller port s v c
      → let c' = handle_message R F sort v c in
        (es : List (Bool × List (MmRow Double))) × ((plan_guns J controller ≡ some es)
          × ((c'.guns ≡ clear_rings (guns_taken s es c.guns))
              × ((c'.config.enabled ≡ true)
                  × (value J get_text controller "type" "glue" ≡ some c'.config.type))))
  setup_of_arrives controller port s v c d =
      let p = setup_of-Parts J controller port s d.sent in
      let (config, guns) = setup-taken R F sort r v s c d.has_four d.read in
      (
        p.gun_list,
        (
          p.guns_read,
          (
            guns
                ∙ ap clear_rings (
                    ap
                      (λ es. zip_from (take_gun R F sort r (taken_config R F sort r s)) 1 es c.guns)
                      (p.guns ∙ exactly-four J p.gun_list)
                    ∙ zip_from-taken s p.gun_list c.guns d.has_four),
            (ap (λ g. g.enabled) config ∙ p.enabled, p.type ∙ ap (λ g. some g.type) (sym config)),
          ),
        ),
      )

  abbrev lines_pass : (ℕ → GunInput) → Controller Double → Controller Double
  lines_pass inp c = record c {
    guns =
        for_guns (λ i. line_gun (line_targets R c) (speed_too_low R c) c.current_position (inp i)) 0
          c.guns;
  }

  -- The pass over the zones in dots mode.
  abbrev pub dots_pass : (ℕ → GunInput) → Controller Double → Controller Double
  dots_pass inp c = record c {
    guns = for_guns (λ i. dots_gun c.current_position c.current_threshold (inp i)) 0 c.guns;
  }

  update_speed-config : (us : ℕ) (c : Controller Double) → (update_speed R us c).config ≡ c.config
  unfolding update_speed
  update_speed-config us c =
      if_cases (λ (x : Controller Double). x.config ≡ c.config) (c.sp_last_us == 0) (λ _. refl)
        (λ _. if_cases (λ (x : Controller Double). x.config ≡ c.config) _ (λ _. refl) (λ _. refl))

  offered-ne-lines : (i : ℕ) (t : String) → nth glue_types i ≡ some t → str_eq t "lines" ≡ false
  offered-ne-lines zero t h = rw (some_inj t "dots" (sym h)) refl
  offered-ne-lines (suc zero) t h = rw (some_inj t "line" (sym h)) refl
  offered-ne-lines (suc (suc i)) t h = absurd (ground (arith, h))

  -- Whichever type of the window's combo box a controller has, dots or line, the firmware that handled its
  -- setup fires in dots mode once the guns' pass goes beyond test mode.
  pub offered_type-dots :
      (controller : Value) (port : String) (s : SetupValues Double) (v : F.Value)
      (c : Controller Double) (i : ℕ) (t : String) (inp : ℕ → GunInput) (clock : Clock)
      → Delivered controller port s v c
      → nth glue_types i ≡ some t
      → value J get_text controller "type" "glue" ≡ some t
      → fire_pass R inp clock (handle_message R F sort v c)
        ≡ dots_pass inp (update_speed R clock.us_speed (handle_message R F sort v c))
  unfolding fire_pass zone_pass
  offered_type-dots controller port s v c i t inp clock d offered stored =
      let (es, (read, (guns, (on, type)))) = setup_of_arrives controller port s v c d in
      let c' = handle_message R F sort v c in
      let moved = update_speed R clock.us_speed c' in
      let not_lines : str_eq moved.config.type "lines" ≡ false =
        ap (λ g. str_eq g.type "lines") (update_speed-config clock.us_speed c')
        ∙ (ap (λ x. str_eq x "lines") (some_inj _ t (sym type ∙ stored))
            ∙ offered-ne-lines i t offered) in
      ap (λ b. if b then zone_pass R inp moved else shutdown_all_guns c') on
      ∙ ap (λ b. if b then lines_pass inp moved else dots_pass inp moved) not_lines
