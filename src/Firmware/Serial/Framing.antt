-- ===== src/Firmware/Serial/Framing.antt =====
-- Which messages the firmware receives.
use mathlib.Core.List.{append_assoc, append-nil}
use machine_controller.Base.{◌≡◌, ◌≢◌, refl, ◌∙◌, List, [], ◌∷◌, ◌++◌, Bytes, arith}
use machine_controller.Firmware.Serial.{stx, etx, Framer, read_byte, read_bytes}

-- A text without delimiters.
abbrev pub IsPlain : Bytes → Type 0
IsPlain [] = Unit {0}
IsPlain (c ∷ cs) = (c ≢ stx) × (c ≢ etx) × IsPlain cs

abbrev pub frame : Bytes → Bytes
frame m = stx ∷ (m ++ (etx ∷ []))

abbrev pub stream : List Bytes → Bytes
stream [] = []
stream (m ∷ ms) = frame m ++ stream ms

abbrev pub AllPlain : List Bytes → Type 0
AllPlain [] = Unit {0}
AllPlain (m ∷ ms) = IsPlain m × (m ≢ []) × AllPlain ms

pub read_bytes-append :
    (cs ds : Bytes) (f : Framer) → read_bytes f (cs ++ ds) ≡ read_bytes (read_bytes f cs) ds
unfolding read_bytes
read_bytes-append [] ds f = refl
read_bytes-append (c ∷ cs) ds f = read_bytes-append cs ds (read_byte f c)

pub read_bytes-plain :
    (m : Bytes) (f : Framer)
    → IsPlain m
    → read_bytes f m ≡ record f { input_buffer = f.input_buffer ++ m }
unfolding read_bytes read_byte
read_bytes-plain [] f h = rw append-nil
read_bytes-plain (c ∷ cs) f h = ground (
  arith,
  read_bytes-plain cs (record f { input_buffer = f.input_buffer ++ (c ∷ []) }) h.2,
  append_assoc f.input_buffer (c ∷ []) cs,
)

close_nonempty :
    (m : Bytes) (f : Framer)
    → m ≢ []
    → f.input_buffer ≡ m
    → read_byte f etx ≡ record { input_buffer = []; frames = f.frames ++ (m ∷ []) }
unfolding read_byte
close_nonempty m f h e = ground arith

read_frame :
    (m : Bytes) (f : Framer)
    → IsPlain m
    → m ≢ []
    → read_bytes f (frame m) ≡ record { input_buffer = []; frames = f.frames ++ (m ∷ []) }
unfolding read_bytes read_byte
read_frame m f h ne =
    read_bytes-append m (etx ∷ []) (read_byte f stx)
    ∙ rw (read_bytes-plain m (read_byte f stx) h)
        (close_nonempty m (record f { input_buffer = m }) ne refl)

-- From any state, a stream of non-empty messages that hold no delimiter, each between an STX and an
-- ETX, delivers exactly these messages, in order.
pub read_bytes-stream :
    (ms : List Bytes) (f : Framer)
    → AllPlain ms
    → (read_bytes f (stream ms)).frames ≡ f.frames ++ ms
unfolding read_bytes
read_bytes-stream [] f h = rw append-nil
read_bytes-stream (m ∷ ms) f h =
    rw (read_bytes-append (frame m) (stream ms) f, read_frame m f h.0 h.1)
      (read_bytes-stream ms (record { input_buffer = []; frames = f.frames ++ (m ∷ []) }) h.2
        ∙ append_assoc f.frames (m ∷ []) ms)

abbrev pub NoEtx : Bytes → Type 0
NoEtx [] = Unit {0}
NoEtx (c ∷ cs) = (c ≢ etx) × NoEtx cs

-- A stream without an ETX delivers nothing.
pub read_bytes-unframed : (cs : Bytes) (f : Framer) → NoEtx cs → (read_bytes f cs).frames ≡ f.frames
unfolding read_bytes read_byte
read_bytes-unframed [] f h = refl
read_bytes-unframed (c ∷ cs) f h = read_bytes-unframed cs (read_byte f c) h.1 ∙ ground arith
