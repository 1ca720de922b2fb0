-- ===== src/Config/Filled.antt =====
-- The settings after the defaults were ensured: those of the tests, the machine and the two readers.
use text.Mathlib.Text.{◌==◌ as str_eq}
use machine_controller.Base.{◌≡◌, refl, sym, ap, ◌∙◌, true, false, List, String}
use machine_controller.Base.Maps.{lookup}
use machine_controller.Config.Defaults.{
  JsonEditor, IsEditor, object_or_new, section, ensure_members, in_section, tests_defaults,
  machine_defaults, port_defaults, ensure_ports, ensure_default_tests_settings,
  ensure_default_machine_settings, ensure_default_communication_settings,
}
use machine_controller.Config.Kept.{
  or_else, ensure_members-is_object, ensure_members-member, ensure_members_twice, section-is_object,
  section-in_section, member-in_section, member-in_section_other, in_section-is_object,
  in_section_settled, in_section_twice,
}

pub data Place : Type 0 where
  tests machine reader1 reader2 : Place

-- The section of the configuration.
abbrev pub top : Place → String
top tests = "tests"
top machine = "machine"
top reader1 = "communication"
top reader2 = "communication"

module _ (E : JsonEditor) where
  open E use {Value}

  abbrev pub defaults_at : Place → List (String × Value)
  defaults_at tests = tests_defaults E
  defaults_at machine = machine_defaults E
  defaults_at reader1 = port_defaults E "COM1" "reader1"
  defaults_at reader2 = port_defaults E "COM2" "reader2"

  abbrev pub settings_at : Place → Value → Value
  settings_at tests root = section E root "tests"
  settings_at machine root = section E root "machine"
  settings_at reader1 root = section E (section E root "communication") "communication1"
  settings_at reader2 root = section E (section E root "communication") "communication2"

  abbrev pub ensured : Place → Value → Value
  ensured tests = ensure_default_tests_settings E
  ensured machine = ensure_default_machine_settings E
  ensured reader1 = ensure_default_communication_settings E
  ensured reader2 = ensure_default_communication_settings E

-- A function that changes one section.
module _ (E : JsonEditor) (laws : IsEditor E) where
  open E use {Value, member, is_object, settable}

  -- The defaults in a section, once and twice.
  flat-filled :
      (name : String) (ds : List (String × Value)) (root : Value) (key : String)
      → settable root ≡ true
      → member (section E (in_section E name (ensure_members E ds) root) name) key
        ≡ or_else (member (section E root name) key) (lookup key ds)
  flat-filled name ds root key s =
      let object = section-is_object E laws root name in
      ap (λ v. member v key)
        (section-in_section E laws name (ensure_members E ds) root s
          (ensure_members-is_object E laws ds (section E root name) object))
      ∙ ensure_members-member E laws ds (section E root name) key object

  flat_twice :
      (name : String) (ds : List (String × Value)) (root : Value)
      → settable root ≡ true
      → in_section E name (ensure_members E ds) (in_section E name (ensure_members E ds) root)
        ≡ in_section E name (ensure_members E ds) root
  flat_twice name ds root s =
      let object = section-is_object E laws root name in
      in_section_twice E laws name (ensure_members E ds) root s
        (ensure_members-is_object E laws ds (section E root name) object)
        (ensure_members_twice E laws ds (section E root name) object)

  abbrev first : Value → Value
  first = in_section E "communication1" (ensure_members E (port_defaults E "COM1" "reader1"))

  abbrev second : Value → Value
  second = in_section E "communication2" (ensure_members E (port_defaults E "COM2" "reader2"))

  first-settable : (c : Value) → is_object c ≡ true → settable (first c) ≡ true
  first-settable c h =
      laws.object_settable (first c)
        (in_section-is_object E laws "communication1" _ c (laws.object_settable c h))

  ensure_ports-is_object : (c : Value) → is_object c ≡ true → is_object (ensure_ports E c) ≡ true
  ensure_ports-is_object c h =
      in_section-is_object E laws "communication2" _ (first c) (first-settable c h)

  ports-filled :
      (c : Value) (key : String)
      → is_object c ≡ true
      → (member (section E (ensure_ports E c) "communication1") key
          ≡ or_else
              (member (section E c "communication1") key)
              (lookup key (port_defaults E "COM1" "reader1")))
        × (member (section E (ensure_ports E c) "communication2") key
            ≡ or_else
                (member (section E c "communication2") key)
                (lookup key (port_defaults E "COM2" "reader2")))
  ports-filled c key h =
      let ds = port_defaults E "COM1" "reader1" in
      let s = laws.object_settable c h in
      let s1 = first-settable c h in
      (
        ap (λ m. member (object_or_new E m) key)
              (member-in_section_other E laws "communication2" "communication1"
                (ensure_members E (port_defaults E "COM2" "reader2")) (first c) s1 refl)
            ∙ flat-filled "communication1" ds c key s,
        flat-filled "communication2" (port_defaults E "COM2" "reader2") (first c) key s1
            ∙ ap
                (λ m.
                  or_else (member (object_or_new E m) key)
                    (lookup key (port_defaults E "COM2" "reader2")))
                (member-in_section_other E laws "communication1" "communication2"
                  (ensure_members E ds) c s refl),
      )

  ports_twice :
      (c : Value) → is_object c ≡ true → ensure_ports E (ensure_ports E c) ≡ ensure_ports E c
  ports_twice c h =
      let ds = port_defaults E "COM1" "reader1" in
      let s = laws.object_settable c h in
      let s1 = first-settable c h in
      let object = section-is_object E laws c "communication1" in
      let settled : first (ensure_ports E c) ≡ ensure_ports E c =
        in_section_settled E laws "communication1" (ensure_members E ds) (ensure_ports E c)
          (ensure_members E ds (section E c "communication1"))
          (member-in_section_other E laws "communication2" "communication1"
              (ensure_members E (port_defaults E "COM2" "reader2")) (first c) s1 refl
            ∙ member-in_section E laws "communication1" (ensure_members E ds) c s)
          (ensure_members-is_object E laws ds (section E c "communication1") object)
          (ensure_members_twice E laws ds (section E c "communication1") object) in
      ap second settled
      ∙ flat_twice "communication2" (port_defaults E "COM2" "reader2") (first c) s1

  -- What a change of the section `communication` does to the ports.
  communication-filled :
      (root : Value) (key : String)
      → settable root ≡ true
      → section E (in_section E "communication" (ensure_ports E) root) "communication"
        ≡ ensure_ports E (section E root "communication")
  communication-filled root key s =
      section-in_section E laws "communication" (ensure_ports E) root s (
        ensure_ports-is_object (section E root "communication")
          (section-is_object E laws root "communication"))

  communication_twice :
      (root : Value)
      → settable root ≡ true
      → in_section E "communication"
          (ensure_ports E)
          (in_section E "communication" (ensure_ports E) root)
        ≡ in_section E "communication" (ensure_ports E) root
  communication_twice root s =
      let c = section E root "communication" in
      let object = section-is_object E laws root "communication" in
      in_section_twice E laws "communication" (ensure_ports E) root s
        (ensure_ports-is_object c object) (ports_twice c object)

  settings_at-ensured :
      (p : Place) (root : Value) (key : String)
      → settable root ≡ true
      → member (settings_at E p (ensured E p root)) key
        ≡ or_else (member (settings_at E p root) key) (lookup key (defaults_at E p))
  unfolding ensure_default_tests_settings ensure_default_machine_settings
      ensure_default_communication_settings
  settings_at-ensured tests root key s = rw s (flat-filled "tests" (tests_defaults E) root key s)
  settings_at-ensured machine root key s =
      rw s (flat-filled "machine" (machine_defaults E) root key s)
  settings_at-ensured reader1 root key s =
      let c = section E root "communication" in
      rw s (
        ap (λ v. member (section E v "communication1") key) (communication-filled root key s)
        ∙ (ports-filled c key (section-is_object E laws root "communication")).0)
  settings_at-ensured reader2 root key s =
      let c = section E root "communication" in
      rw s (
        ap (λ v. member (section E v "communication2") key) (communication-filled root key s)
        ∙ (ports-filled c key (section-is_object E laws root "communication")).1)

  -- The change that a place stands for.
  abbrev change_at : Place → Value → Value
  change_at tests = ensure_members E (tests_defaults E)
  change_at machine = ensure_members E (machine_defaults E)
  change_at reader1 = ensure_ports E
  change_at reader2 = ensure_ports E

  ensured-change_at :
      (p : Place) (root : Value)
      → settable root ≡ true
      → ensured E p root ≡ in_section E (top p) (change_at p) root
  unfolding ensure_default_tests_settings ensure_default_machine_settings
      ensure_default_communication_settings
  ensured-change_at tests root s = rw s refl
  ensured-change_at machine root s = rw s refl
  ensured-change_at reader1 root s = rw s refl
  ensured-change_at reader2 root s = rw s refl

  change_at_twice :
      (p : Place) (root : Value)
      → settable root ≡ true
      → in_section E (top p) (change_at p) (in_section E (top p) (change_at p) root)
        ≡ in_section E (top p) (change_at p) root
  change_at_twice tests root s = flat_twice "tests" (tests_defaults E) root s
  change_at_twice machine root s = flat_twice "machine" (machine_defaults E) root s
  change_at_twice reader1 root s = communication_twice root s
  change_at_twice reader2 root s = communication_twice root s

  ensured_twice :
      (p : Place) (root : Value)
      → settable root ≡ true
      → ensured E p (ensured E p root) ≡ ensured E p root
  ensured_twice p root s =
      let done = in_section E (top p) (change_at p) root in
      let still =
        laws.object_settable done (in_section-is_object E laws (top p) (change_at p) root s) in
      ap (ensured E p) (ensured-change_at p root s)
      ∙ (ensured-change_at p done still
          ∙ (change_at_twice p root s ∙ sym (ensured-change_at p root s)))

  -- If the configuration is an object or null, ensuring the defaults of the tests, the machine or the
  -- readers keeps the value of every setting that is there, gives a missing one its default, if it has
  -- one, leaves every other section as it is, and does nothing when it is done again.
  pub defaults_filled :
      (p : Place) (root : Value) (key other : String)
      → settable root ≡ true
      → str_eq (top p) other ≡ false
      → ((member (settings_at E p (ensured E p root)) key
            ≡ or_else (member (settings_at E p root) key) (lookup key (defaults_at E p)))
          × (member (ensured E p root) other ≡ member root other))
        × (ensured E p (ensured E p root) ≡ ensured E p root)
  defaults_filled p root key other s apart = (
    (
      settings_at-ensured p root key s,
      ap (λ v. member v other) (ensured-change_at p root s)
          ∙ member-in_section_other E laws (top p) other (change_at p) root s apart,
    ),
    ensured_twice p root s,
  )
