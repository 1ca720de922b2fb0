-- ===== src/Gui/Window/Stored.antt =====
-- What is stored is what the window reads next.
use machine_controller.Base.{◌≡◌, refl, ap, true, Option, none, some}
use machine_controller.Config.Defaults.{update_settings}
use machine_controller.Gui.Json.{GuiJson, IsGuiJson, value_or}
use machine_controller.Gui.Json.Laws.{guarded, put_member_self, put_member_other}
use machine_controller.Gui.Store.Kept.{OthersKept}
use machine_controller.Gui.Window.{
  Window, glue_settings, save_to_file, update_glue, updated, stored,
}

module _ {D : Type 0} (J : GuiJson D) (laws : IsGuiJson J) where
  open J use {editor}
  open editor use {Value, object, member, is_object, settable, put}

  pub glue_settings-is_object :
      (config glue : Value) → glue_settings J config ≡ some glue → is_object config ≡ true
  unfolding glue_settings
  glue_settings-is_object config glue h =
      (guarded (is_object config) (some (value_or object (member config "glue"))) glue h).0

  glue_settings-put :
      (config glue : Value)
      → settable config ≡ true
      → glue_settings J (put config "glue" glue) ≡ some glue
  unfolding glue_settings
  glue_settings-put config glue s =
      rw (laws.editor_laws.put_is_object config "glue" glue s)
        (ap (λ m. some (value_or object m)) (put_member_self J laws config "glue" glue s))

  -- Settings that are an object are read back.
  pub glue_settings-update :
      (config glue old : Value)
      → glue_settings J config ≡ some old
      → is_object glue ≡ true
      → glue_settings J (update_settings editor "glue" glue config) ≡ some glue
  unfolding update_settings
  glue_settings-update config glue old h o =
      let s = laws.editor_laws.object_settable config (glue_settings-is_object config old h) in
      rw o (rw s (glue_settings-put config glue s))

  pub update-OthersKept :
      (config glue old : Value)
      → glue_settings J config ≡ some old
      → is_object glue ≡ true
      → OthersKept J config (update_settings editor "glue" glue config)
  unfolding update_settings
  update-OthersKept config glue old h o key apart =
      let s = laws.editor_laws.object_settable config (glue_settings-is_object config old h) in
      rw o (rw s (put_member_other J laws config "glue" key glue s apart))

  pub stored-updated :
      (change : Value → Option Value) (w : Window Value D) (old glue : Value)
      → glue_settings J w.settings ≡ some old
      → change old ≡ some glue
      → stored J change w ≡ some (save_to_file J (update_glue J glue w))
  unfolding stored updated
  stored-updated change w old glue h e = rw h (rw e refl)

  pub saved_settings :
      (w : Window Value D) (old glue : Value)
      → glue_settings J w.settings ≡ some old
      → is_object glue ≡ true
      → glue_settings J (save_to_file J (update_glue J glue w)).settings ≡ some glue
  unfolding save_to_file update_glue
  saved_settings w old glue h o = glue_settings-update w.settings glue old h o

  pub stored-none :
      (change : Value → Option Value) (w : Window Value D) (old : Value)
      → glue_settings J w.settings ≡ some old
      → change old ≡ none
      → stored J change w ≡ none
  unfolding stored updated
  stored-none change w old h e = rw h (rw e refl)
