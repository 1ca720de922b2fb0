-- ===== src/Firmware/Serial.antt =====
-- `processSerial`: the framing of the messages from the PC.
pub mod Framing
use machine_controller.Base.{ℕ, List, [], ◌∷◌, ◌++◌, Bytes, ◌==◌, if◌then◌else◌}

abbrev pub stx : ℕ
stx = 0x02

abbrev pub etx : ℕ
etx = 0x03

-- The text between two delimiters so far, and the frames completed.
pub record Framer : Type 0 where
  pub input_buffer : Bytes
  pub frames : List Bytes

abbrev close_frame : Framer → Framer
close_frame f = elim f.input_buffer [
  | [] ↦ f
  | c ∷ cs ↦ record { input_buffer = []; frames = f.frames ++ ((c ∷ cs) ∷ []) }
]

unfoldable pub read_byte : Framer → ℕ → Framer
read_byte f c =
    if c == stx
    then record f { input_buffer = [] }
    else if c == etx
    then close_frame f
    else record f { input_buffer = f.input_buffer ++ (c ∷ []) }

unfoldable pub read_bytes : Framer → Bytes → Framer
read_bytes f [] = f
read_bytes f (c ∷ cs) = read_bytes (read_byte f c) cs
