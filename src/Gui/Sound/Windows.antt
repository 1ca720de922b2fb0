-- ===== src/Gui/Sound/Windows.antt =====
-- A stored change of the glue settings, in the window.
use machine_controller.Base.{◌≡◌, refl, sym, ◌∙◌, true, String, Option, none, some}
use machine_controller.Base.Options.{◌>>=◌, >>=-eq-some, some_inj}
use machine_controller.Config.Defaults.{has, update_settings}
use machine_controller.Gui.Json.{GuiJson, IsGuiJson}
use machine_controller.Gui.Loading.{or_same}
use machine_controller.Gui.Sound.Keys.{IsActiveThere, Next}
use machine_controller.Gui.Store.Kept.{controller_of}
use machine_controller.Gui.Window.{
  Window, glue_settings, save_to_file, update_glue, updated, stored,
}
use machine_controller.Gui.Window.Stored.{glue_settings-update}
use mathlib.Core.Path.{subst}

module _ {D : Type 0} (J : GuiJson D) where
  open J use {editor}
  open editor use {Value}

  abbrev pub ActiveIn : Value → Type 0
  ActiveIn config = (glue : Value) → glue_settings J config ≡ some glue → IsActiveThere J glue

  abbrev pub KnownIn : Value → String → Type 0
  KnownIn config key =
      (glue : Value) → glue_settings J config ≡ some glue → has (controller_of J glue key) ≡ true

  pub record Follows (config config' : Value) : Type 0 where
    pub active : ActiveIn config → ActiveIn config'
    pub keys : (key : String) → KnownIn config key → KnownIn config' key

  -- The settings are followed, and the box of controllers is as it was.
  pub record FollowsTab (w w' : Window Value D) : Type 0 where
    pub settings : Follows w.settings w'.settings
    pub box : w'.tab.controllers ≡ w.tab.controllers

  pub FollowsTab-refl : (w : Window Value D) → FollowsTab w w
  FollowsTab-refl w = record {
    settings = record { active = λ a. a; keys = λ key k. k };
    box = refl;
  }

  pub FollowsTab-trans : (a b c : Window Value D) → FollowsTab a b → FollowsTab b c → FollowsTab a c
  FollowsTab-trans a b c p q = record {
    settings = record {
      active = λ h. q.settings.active (p.settings.active h);
      keys = λ key h. q.settings.keys key (p.settings.keys key h);
    };
    box = q.box ∙ p.box;
  }

  module _ (laws : IsGuiJson J) where
    -- A change of these settings.
    abbrev pub KeepsAt : Value → (Value → Option Value) → Type 0
    KeepsAt config change =
        (glue glue' : Value)
        → glue_settings J config ≡ some glue
        → change glue ≡ some glue'
        → Next J glue glue'

    pub update-Follows :
        (config glue glue' : Value)
        → glue_settings J config ≡ some glue
        → Next J glue glue'
        → Follows config (update_settings editor "glue" glue' config)
    update-Follows config glue glue' r n =
        let read = glue_settings-update J laws config glue' glue r n.object in
        record {
          active = λ a v e.
              subst (IsActiveThere J) (some_inj glue' v (sym read ∙ e)) (n.active (a glue r));
          keys = λ key k v e.
              subst (λ g. has (controller_of J g key) ≡ true) (some_inj glue' v (sym read ∙ e))
                (n.keys key (k glue r));
        }

    pub updated-FollowsTab :
        (change : Value → Option Value) (w w' : Window Value D)
        → KeepsAt w.settings change
        → updated J change w ≡ some w'
        → FollowsTab w w'
    unfolding updated update_glue
    updated-FollowsTab change w w' k h =
        let (glue', (e, made)) =
          >>=-eq-some (glue_settings J w.settings >>= change) (λ g. some (update_glue J g w)) w'
            h in
        let (glue, (r, changed)) = >>=-eq-some (glue_settings J w.settings) change glue' e in
        subst (FollowsTab w) (some_inj (update_glue J glue' w) w' made) (record {
          settings = update-Follows w.settings glue glue' r (k glue glue' r changed);
          box = refl;
        })

    pub stored-FollowsTab :
        (change : Value → Option Value) (w w' : Window Value D)
        → KeepsAt w.settings change
        → stored J change w ≡ some w'
        → FollowsTab w w'
    unfolding stored save_to_file
    stored-FollowsTab change w w' k h =
        let (v, (e, made)) = >>=-eq-some (updated J change w) (λ u. some (save_to_file J u)) w' h in
        let f = updated-FollowsTab change w v k e in
        subst (FollowsTab w) (some_inj (save_to_file J v) w' made)
          (record { settings = f.settings; box = f.box })

    -- A slot that does nothing if the change fails.
    pub or_same-FollowsTab :
        (change : Value → Option Value) (w : Window Value D)
        → KeepsAt w.settings change
        → FollowsTab w (or_same w (stored J change w))
    or_same-FollowsTab change w k = split (stored J change w) refl
      where
        split : (m : Option (Window Value D)) → stored J change w ≡ m → FollowsTab w (or_same w m)
        split none e = FollowsTab-refl w
        split (some v) e = stored-FollowsTab change w v k e
