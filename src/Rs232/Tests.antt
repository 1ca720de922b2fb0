-- ===== src/Rs232/Tests.antt =====
-- The theorems on the serial ports at concrete inputs.
use machine_controller.Rs232.Port.{
  Port, Opening, missing, signalled, pending, PortCall, opens, sends, no_thread, enters,
  enters_loop, no_mask, after_all, close, start_receiving,
}
use machine_controller.Rs232.Port.Life.{IsTidy, IsShut, calls_then_close}
use machine_controller.Base.{◌≡◌, true, false, refl, List, [], ◌∷◌, Bytes, some, arith}
use machine_controller.Base.Int.{pos}
use machine_controller.Rs232.Settings.{PortSettings}
use machine_controller.Rs232.Framing.{Delimiters, receive}
use machine_controller.Rs232.Scan.{outside, scan, feed, feed-scan, feed-stream}
use machine_controller.Rs232.Delivery.{IsFramed, AreFrames, receive-ends}

abbrev delimiters : Delimiters
delimiters = record { stx = 2; etx = 3; stx_now = 2; etx_now = 3 }

delimiters-IsFramed : IsFramed delimiters
delimiters-IsFramed = record {
  stx_set = omega arith;
  etx_set = omega arith;
  distinct = omega arith;
  stx_same = refl;
  etx_same = refl;
}

-- A message behind a stray byte, then an empty one.
abbrev frames : List (Bytes × Bytes)
frames = (65 ∷ [], 66 ∷ 67 ∷ []) ∷ ([], []) ∷ []

frames-AreFrames : AreFrames delimiters frames
frames-AreFrames = ground arith

receive-ends_example :
    (x : List Bytes × Bytes) × (receive delimiters (2 ∷ []) (66 ∷ 3 ∷ 65 ∷ []) ≡ some x)
receive-ends_example = receive-ends delimiters (2 ∷ []) (66 ∷ 3 ∷ 65 ∷ [])

abbrev settings : PortSettings
settings = record {
  port = 67 ∷ 79 ∷ 77 ∷ 49 ∷ [];
  baud_rate = 115200;
  parity = b'N';
  data_bits = pos 8;
  stop_bits = pos 1;
}

-- The two messages, with the first one split over three reads.
abbrev reads : List Bytes
reads = (65 ∷ 2 ∷ []) ∷ (66 ∷ []) ∷ (67 ∷ 3 ∷ 2 ∷ 3 ∷ []) ∷ []

feed-stream_example : feed delimiters [] reads ≡ (66 ∷ 67 ∷ []) ∷ [] ∷ []
feed-stream_example = feed-stream delimiters frames reads delimiters-IsFramed frames-AreFrames refl

feed-scan_example :
    feed delimiters [] reads ≡ (scan delimiters outside (65 ∷ 2 ∷ 66 ∷ 67 ∷ 3 ∷ 2 ∷ 3 ∷ [])).0
feed-scan_example = feed-scan delimiters reads delimiters-IsFramed

abbrev com1 : PortSettings
com1 = record {
  port = b'C' ∷ [];
  baud_rate = 115200;
  parity = b'N';
  data_bits = pos 8;
  stop_bits = pos 1;
}

abbrev closed_port : Port
closed_port = record {
  has_handle = false;
  receiving = false;
  stop_requested = false;
  thread = no_thread;
  buffer = [];
  settings = com1;
  opened = 0;
  closed = 0;
}

abbrev opening : Opening
opening = record {
  config = missing;
  create = true;
  get_state = true;
  set_state = true;
  set_timeouts = true;
  set_mask = true;
  joined = enters_loop;
  thread_starts = true;
}

-- The port is opened, a message of two bytes is sent, and the thread enters its loop.
abbrev open_and_send : List PortCall
open_and_send =
    opens opening
    ∷ sends (record { event = true; write = pending (signalled (some 2)); flush = true })
        (65 ∷ 66 ∷ [])
    ∷ enters enters_loop
    ∷ []

calls_then_close_example :
    let end = after_all open_and_send closed_port in
    IsTidy end
    × (IsShut (close no_mask end) × (start_receiving (close no_mask end) ≡ close no_mask end))
calls_then_close_example =
    calls_then_close open_and_send closed_port no_mask (refl, (tt, (tt, tt))) refl
