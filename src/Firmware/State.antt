-- ===== src/Firmware/State.antt =====
-- The globals of GlueController.cpp as one record. What the source keeps in arrays over the four
-- guns stands in one `Gun` each, with the level of the gun's output pin.
use machine_controller.Base.{
  ℕ, suc, ◌+◌, ◌-◌, ◌%◌, ◌^◌, Bool, List, [], ◌∷◌, String, ltb, if◌then◌else◌,
}
use machine_controller.Base.Int.{ℤ}
use machine_controller.Firmware.Ring.{ZoneRing}

pub record GlueRow : Type 0 where
  pub from : ℤ
  pub to : ℤ
  pub space : ℤ

pub record ControllerConfig (D : Type 0) : Type 0 where
  pub type : String
  pub enabled : Bool
  pub encoder_pulses_per_mm : D
  pub sensor_offset : ℤ
  pub sensor_offset_in_pulses : ℤ
  pub start_current : D
  pub start_duration : D
  pub hold_current : D
  pub minimum_speed : D
  pub dot_size : String

pub record Gun : Type 0 where
  pub enabled : Bool
  pub rows : List GlueRow
  pub zones : ZoneRing
  pub gun_state : Bool
  pub line_active : Bool
  pub line_in_hold : Bool
  pub line_phase_ms : ℕ
  pub line_pwm_on : Bool
  pub test_requested : Bool
  pub test_dot_active : Bool
  pub test_next_dot_ms : ℕ
  pub pin : Bool

-- What one pass over the guns reads for a gun, in the order of the reads: the test input of the scan
-- and of the pass, two current samples and two readings of the clock.
pub record GunInput : Type 0 where
  pub phys_scan : Bool
  pub phys_run : Bool
  pub adc_first : ℕ
  pub adc_second : ℕ
  pub ms_first : ℕ
  pub ms_second : ℕ

abbrev pub adc_max : ℕ
adc_max = 4095

abbrev pub adc_mid : ℕ
adc_mid = 2047

-- `INITIATION_DEADBAND_COUNTS`: (int)(80.0 / 1023.0 * 4095)
abbrev pub initiation_deadband_counts : ℕ
initiation_deadband_counts = 320

abbrev pub hysteresis : ℕ
hysteresis = 63

-- `unsigned long` subtraction wraps.
abbrev pub sub32 : ℕ → ℕ → ℕ
sub32 a b = (a + 2 ^ 32 - b) % 2 ^ 32

-- `abs(adcNow - adcMid) < deadband`
abbrev pub in_deadband : ℕ → Bool
in_deadband adc =
    ltb (if ltb adc adc_mid then adc_mid - adc else adc - adc_mid) initiation_deadband_counts

-- `setGun`
abbrev pub set_gun : Bool → Gun → Gun
set_gun on g = record g { pin = on }

-- `for (int i = 0; i < 4; i++)` over the guns.
module _ {ℓ κ} {A : Type ℓ} {B : Type κ} where
  unfoldable pub for_guns : (ℕ → A → B) → ℕ → List A → List B
  for_guns f i [] = []
  for_guns f i (g ∷ gs) = f i g ∷ for_guns f (suc i) gs

-- A predicate on every gun, and one that knows the gun's index.
abbrev pub All {ℓ κ} : {A : Type ℓ} → (A → Type κ) → List A → Type κ
All P [] = Unit
All P (x ∷ xs) = P x × All P xs

abbrev pub AllAt {ℓ κ} : {A : Type ℓ} → (ℕ → A → Type κ) → ℕ → List A → Type κ
AllAt P i [] = Unit
AllAt P i (x ∷ xs) = P i x × AllAt P (suc i) xs

module _ {ℓ κ} {A : Type ℓ} where
  pub All-for_guns_keep :
      (P : A → Type κ) (f : ℕ → A → A) (i : ℕ) (gs : List A)
      → ((j : ℕ) (g : A) → P g → P (f j g))
      → All P gs
      → All P (for_guns f i gs)
  unfolding for_guns
  All-for_guns_keep P f i [] keep h = tt
  All-for_guns_keep P f i (g ∷ gs) keep h =
      (keep i g h.0, All-for_guns_keep P f (suc i) gs keep h.1)

  pub All-for_guns :
      (P : A → Type κ) (f : ℕ → A → A) (i : ℕ) (gs : List A)
      → ((j : ℕ) (g : A) → P (f j g))
      → All P (for_guns f i gs)
  unfolding for_guns
  All-for_guns P f i [] make = tt
  All-for_guns P f i (g ∷ gs) make = (make i g, All-for_guns P f (suc i) gs make)

  pub AllAt-for_guns :
      (P : ℕ → A → Type κ) (f : ℕ → A → A) (i : ℕ) (gs : List A)
      → ((j : ℕ) (g : A) → P j (f j g))
      → AllAt P i (for_guns f i gs)
  unfolding for_guns
  AllAt-for_guns P f i [] make = tt
  AllAt-for_guns P f i (g ∷ gs) make = (make i g, AllAt-for_guns P f (suc i) gs make)
