-- ===== src/Rs232/Framing.antt =====
-- The framing of received bytes in `receiveLoop`.
use machine_controller.Base.{
  ℕ, zero, suc, ◌+◌, ◌-◌, List, [], ◌∷◌, ◌++◌, Bytes, Option, none, some, ltb, ◌==◌, length, take,
  drop, if◌then◌else◌,
}

-- `std::find`: the place of the first `c`.
unfoldable pub find_byte : ℕ → Bytes → Option ℕ
find_byte c [] = none
find_byte c (d ∷ ds) =
    if d == c then some 0 else elim (find_byte c ds) [ none ↦ none | some i ↦ some (suc i) ]

-- The delimiters; 0 stands for none. `stx` and `etx` are those with which the port was opened, and
-- `stx_now` and `etx_now` those that the configuration holds when a message is delivered.
pub record Delimiters : Type 0 where
  pub stx : ℕ
  pub etx : ℕ
  pub stx_now : ℕ
  pub etx_now : ℕ

-- The bytes from place `from` up to place `to`.
abbrev pub slice : ℕ → ℕ → Bytes → Bytes
slice from to buf = take (to - from) (drop from buf)

-- What is delivered of a message that stands from `start` up to `end`.
unfoldable pub message_of : Delimiters → ℕ → ℕ → Bytes → Bytes
message_of d start end buf =
    if d.stx_now == 0
    then (if d.etx_now == 0
        then slice 0 end buf
        else if ltb 0 end
        then slice 0 (end - 1) buf
        else [])
    else (if d.etx_now == 0
        then (if ltb (start + 1) end then slice (start + 1) end buf else [])
        else if ltb (start + 1) end
        then slice (start + 1) (end - 1) buf
        else [])

-- One round of the loop: it stops with a buffer, or delivers a message and leaves the rest.
pub data Round : Type 0 where
  stop : Bytes → Round
  deliver : Bytes → Bytes → Round

abbrev pub delivered : Delimiters → ℕ → ℕ → Bytes → Round
delivered d start end buf = deliver (message_of d start end buf) (drop end buf)

unfoldable pub round_from : Delimiters → ℕ → Bytes → Round
round_from d start buf =
    if d.etx == 0
    then delivered d start (length buf) buf
    else elim (find_byte d.etx (drop start buf)) [
      | none ↦ stop buf
      | some i ↦ delivered d start (start + i + 1) buf
    ]

unfoldable pub round : Delimiters → Bytes → Round
round d buf =
    if d.stx == 0
    then round_from d 0 buf
    else elim (find_byte d.stx buf) [ none ↦ stop [] | some i ↦ round_from d i buf ]

-- The loop on fuel: the messages in order and the buffer that is left; `none` if the fuel runs out.
unfoldable pub drain : Delimiters → ℕ → Bytes → Option (List Bytes × Bytes)
drain d fuel [] = some ([], [])
drain d zero (c ∷ cs) = none
drain d (suc fuel) (c ∷ cs) =
    let rest = λ (left : Bytes). drain d fuel left in
    elim (round d (c ∷ cs)) [
      | stop left ↦ some ([], left)
      | deliver m left ↦ elim (rest left) [ none ↦ none | some (ms, end) ↦ some (m ∷ ms, end) ]
    ]

-- One read: the bytes are appended and the loop runs. Each message takes a byte, so the length of
-- the buffer is fuel enough.
unfoldable pub receive : Delimiters → Bytes → Bytes → Option (List Bytes × Bytes)
receive d buf bytes = drain d (length (buf ++ bytes)) (buf ++ bytes)
