-- ===== src/Firmware/Encoder.antt =====
-- The encoder: the interrupt's wrapping 32-bit counter and the position that `loop` keeps of it.
use machine_controller.Base.{
  ℕ, zero, suc, ◌+◌, ◌%◌, ◌^◌, ◌<◌, ◌≡◌, refl, ap, ◌∙◌, List, [], ◌∷◌, arith,
}
use machine_controller.Firmware.State.{sub32}

-- `position_accum` never falls below 0 and is kept unbounded.
pub record Encoder : Type 0 where
  pub encoder_count : ℕ
  pub last_encoder_raw : ℕ
  pub position_accum : ℕ

unfoldable pub encoder_isr : Encoder → Encoder
encoder_isr e = record e { encoder_count = (e.encoder_count + 1) % 2 ^ 32 }

-- What `loop` does first: the pulses since the last look are added to the position.
unfoldable pub sample : Encoder → Encoder
sample e = record e {
  last_encoder_raw = e.encoder_count;
  position_accum = e.position_accum + sub32 e.encoder_count e.last_encoder_raw;
}

-- The reset at the start of a calibration page.
unfoldable pub reset : Encoder → Encoder
reset e = record { encoder_count = 0; last_encoder_raw = 0; position_accum = 0 }

-- `n` pulses arrive.
unfoldable pub pulses : ℕ → Encoder → Encoder
pulses zero e = e
pulses (suc n) e = pulses n (encoder_isr e)

-- What the sensor does in an iteration of `loop`, with the pulses that come between the look at its start
-- and the edge: a falling edge during a calibration resets the counts, a rising one looks again.
pub data Edge : Type 0 where
  no_edge : Edge
  falls rises : ℕ → Edge

unfoldable pub edge : Edge → Encoder → Encoder
edge no_edge e = e
edge (falls m) e = reset (pulses m e)
edge (rises m) e = sample (pulses m e)

-- The iterations of `loop`, each with the number of pulses that came before it.
unfoldable pub run : List (ℕ × Edge) → Encoder → Encoder
run [] e = e
run ((n, x) ∷ its) e = run its (edge x (sample (pulses n e)))

-- What the position is to be, from what it was: the pulses that came since the last reset.
unfoldable pub counted_edge : Edge → ℕ → ℕ
counted_edge no_edge p = p
counted_edge (falls m) p = 0
counted_edge (rises m) p = p + m

unfoldable pub counted : List (ℕ × Edge) → ℕ → ℕ
counted [] p = p
counted ((n, x) ∷ its) p = counted its (counted_edge x (p + n))

abbrev pub EdgeFits : Edge → Type 0
EdgeFits no_edge = Unit {0}
EdgeFits (falls m) = Unit {0}
EdgeFits (rises m) = m < 2 ^ 32

abbrev pub Fits : List (ℕ × Edge) → Type 0
Fits [] = Unit {0}
Fits ((n, x) ∷ its) = (n < 2 ^ 32) × EdgeFits x × Fits its

-- The last reading equals a counter in range.
abbrev pub IsRead : Encoder → Type 0
IsRead e = (e.encoder_count < 2 ^ 32) × (e.last_encoder_raw ≡ e.encoder_count)

pulses_lem :
    (n : ℕ) (e : Encoder)
    → e.encoder_count < 2 ^ 32
    → ((pulses n e).encoder_count ≡ (e.encoder_count + n) % 2 ^ 32)
      × ((pulses n e).last_encoder_raw ≡ e.last_encoder_raw)
      × ((pulses n e).position_accum ≡ e.position_accum)
unfolding pulses encoder_isr
pulses_lem zero e h = omega arith
pulses_lem (suc n) e h = omega (arith, pulses_lem n (encoder_isr e) (omega arith))

sample-pulses :
    (n : ℕ) (e : Encoder)
    → IsRead e
    → n < 2 ^ 32
    → ((sample (pulses n e)).position_accum ≡ e.position_accum + n) × IsRead (sample (pulses n e))
unfolding sample
sample-pulses n e h fits = omega (arith, pulses_lem n e h.0)

edge_lem :
    (x : Edge) (e : Encoder)
    → IsRead e
    → EdgeFits x
    → ((edge x e).position_accum ≡ counted_edge x e.position_accum) × IsRead (edge x e)
unfolding edge counted_edge reset
edge_lem no_edge e h fits = (refl, h)
edge_lem (falls m) e h fits = omega arith
edge_lem (rises m) e h fits = sample-pulses m e h fits

-- From a state in which the last reading equals a counter below 2 ^ 32, and if fewer than 2 ^ 32 pulses
-- come between two looks at the counter: after any iterations of `loop` the position is what it was plus
-- the pulses that came or, if a falling edge during a calibration reset it, exactly the pulses that came
-- since the last such edge, however often the counter wrapped.
pub run-counts-pulses :
    (its : List (ℕ × Edge)) (e : Encoder)
    → IsRead e
    → Fits its
    → (run its e).position_accum ≡ counted its e.position_accum
unfolding run counted
run-counts-pulses [] e h fits = refl
run-counts-pulses ((n, x) ∷ its) e h fits =
    let seen = sample-pulses n e h fits.0 in
    let next = edge_lem x (sample (pulses n e)) seen.1 fits.1 in
    run-counts-pulses its (edge x (sample (pulses n e))) next.1 fits.2
    ∙ ap (counted its) (next.0 ∙ ap (counted_edge x) seen.0)
