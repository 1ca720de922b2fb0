-- ===== src/Firmware/Tests/Streams.antt =====
-- The theorems on the encoder and the serial input at concrete inputs.
use machine_controller.Base.{◌≡◌, refl, [], ◌∷◌, arith}
use machine_controller.Firmware.Serial.{Framer, read_bytes}
use machine_controller.Firmware.Serial.Framing.{stream, read_bytes-stream, read_bytes-unframed}
use machine_controller.Firmware.Encoder.{
  no_edge, falls, rises, run, counted, counted_edge, run-counts-pulses,
}
use machine_controller.Firmware.Tests.Data.{encoder}

-- A buffer with the rest of a message that was cut off.
abbrev framer : Framer
framer = record { input_buffer = 0x41 ∷ []; frames = [] }

-- A calibration: the page passes between the two edges.
run-counts-pulses_example :
    (run ((3, no_edge) ∷ (1, falls 2) ∷ (7, no_edge) ∷ (4, rises 2) ∷ []) encoder).position_accum
    ≡ 13
unfolding counted counted_edge
run-counts-pulses_example =
    run-counts-pulses ((3, no_edge) ∷ (1, falls 2) ∷ (7, no_edge) ∷ (4, rises 2) ∷ []) encoder
      (omega arith, refl)
      (omega arith, tt, (omega arith, tt, (omega arith, tt, (omega arith, omega arith, tt))))

read_bytes-stream_example :
    (read_bytes framer (stream ((0x42 ∷ 0x43 ∷ []) ∷ (0x44 ∷ []) ∷ []))).frames
    ≡ (0x42 ∷ 0x43 ∷ []) ∷ (0x44 ∷ []) ∷ []
read_bytes-stream_example =
    read_bytes-stream ((0x42 ∷ 0x43 ∷ []) ∷ (0x44 ∷ []) ∷ []) framer (ground arith)

-- A message as `RS232Communication::send` writes it.
read_bytes-unframed_example : (read_bytes framer (0x7B ∷ 0x7D ∷ [])).frames ≡ []
read_bytes-unframed_example = read_bytes-unframed (0x7B ∷ 0x7D ∷ []) framer (ground arith)
