-- ===== src/Rs232/Port.antt =====
-- The port's life: `initialize`, `send`, `close`, `startReceiving`, and the start and the end of the
-- receiving thread. What Windows answers is an argument; the handles and events that were opened and
-- closed are counted.
pub mod Life
use machine_controller.Base.{
  ℕ, suc, ◌+◌, Bool, true, false, not, ◌&&◌, List, [], ◌∷◌, Bytes, Option, none, some, ◌==◌, length,
  if◌then◌else◌,
}
use machine_controller.Rs232.Settings.{PortSettings, validate_settings}

-- `receiveThread_`: none, one that is not yet in its loop, one in it, or one that has returned. All but
-- the first are joinable.
pub data Phase : Type 0 where
  no_thread created looping returned : Phase

abbrev pub joinable : Phase → Bool
joinable no_thread = false
joinable _ = true

-- `has_handle` tells if `hSerial_` is valid.
pub record Port : Type 0 where
  pub has_handle : Bool
  pub receiving : Bool
  pub stop_requested : Bool
  pub thread : Phase
  pub buffer : Bytes
  pub settings : PortSettings
  pub opened : ℕ
  pub closed : ℕ

-- What reading the configuration leaves in the settings: it has no entry for the port, a value throws
-- behind those that were read, or all are read.
pub data ConfigRead : Type 0 where
  missing : ConfigRead
  throws reads : PortSettings → ConfigRead

-- What Windows answers to the first calls of the thread: no event, no mask, or neither fails.
pub data Entered : Type 0 where
  no_event no_mask enters_loop : Entered

-- `receiveLoop` up to its loop.
abbrev pub enter_loop : Entered → Port → Port
enter_loop no_event p = record p { thread = returned }
enter_loop no_mask p = record p { thread = returned; opened = suc p.opened; closed = suc p.closed }
enter_loop enters_loop p = record p { thread = looping; opened = suc p.opened }

-- The end of `receiveLoop`, which closes the event.
abbrev pub leave_loop : Port → Port
leave_loop p = record p { thread = returned; closed = suc p.closed }

-- The steps of the thread, if it is where they begin.
abbrev pub thread_enters : Phase → Entered → Port → Port
thread_enters created w p = enter_loop w p
thread_enters _ w p = p

abbrev pub thread_leaves : Phase → Port → Port
thread_leaves looping p = leave_loop p
thread_leaves _ p = p

-- `join`, which lets the thread run to its end.
unfoldable pub join : Entered → Port → Port
join w p =
    let entered : Port = thread_enters p.thread w p in
    record (thread_leaves entered.thread entered) { thread = no_thread }

-- The configuration and the results of the calls, in their order. `joined` is what a previous thread
-- gets that is not in its loop yet.
pub record Opening : Type 0 where
  pub config : ConfigRead
  pub create : Bool
  pub get_state : Bool
  pub set_state : Bool
  pub set_timeouts : Bool
  pub set_mask : Bool
  pub joined : Entered
  pub thread_starts : Bool

abbrev pub close_handle : Port → Port
close_handle p = record p { has_handle = false; closed = suc p.closed }

-- From the call of `GetCommState` on. The first three errors leave the handle to `close`; a previous
-- thread is joined.
unfoldable pub set_up : Opening → Port → Bool × Port
set_up w p =
    if not (w.get_state && w.set_state && w.set_timeouts)
    then (false, p)
    else if not w.set_mask
    then (false, close_handle p)
    else (let free : Port = join w.joined p in
        if w.thread_starts
        then (true, record free { receiving = true; thread = created })
        else (false, close_handle (record free { receiving = false })))

unfoldable pub open_handle : Opening → Port → Bool × Port
open_handle w p =
    if not (validate_settings p.settings)
    then (false, p)
    else if not w.create
    then (false, record p { receiving = false; has_handle = false })
    else set_up w (record p { receiving = false; has_handle = true; opened = suc p.opened })

-- `none` is an exception.
unfoldable pub read_then_open : Opening → ConfigRead → Port → Option Bool × Port
read_then_open w missing p = let (ok, r) = open_handle w p in (some ok, r)
read_then_open w (throws s) p = (none, record p { settings = s })
read_then_open w (reads s) p =
    let (ok, r) = open_handle w (record p { settings = s }) in (some ok, r)

unfoldable pub initialize : Opening → Port → Option Bool × Port
initialize w p = read_then_open w w.config p

-- `WaitForSingleObject`, with the number of bytes of `GetOverlappedResult` or its failure.
pub data Waited : Type 0 where
  signalled : Option ℕ → Waited
  timed_out wait_failed : Waited

pub data Written : Type 0 where
  at_once : ℕ → Written
  pending : Waited → Written
  write_failed : Written

pub record Sending : Type 0 where
  pub event : Bool
  pub write : Written
  pub flush : Bool

-- The bytes written, or an error.
abbrev pub bytes_written : Written → Option ℕ
bytes_written (at_once n) = some n
bytes_written (pending (signalled n)) = n
bytes_written (pending timed_out) = none
bytes_written (pending wait_failed) = none
bytes_written write_failed = none

-- Each return behind the creation of the event closes it.
abbrev pub with_event : Port → Port
with_event p = record p { opened = suc p.opened; closed = suc p.closed }

unfoldable pub send_result : Sending → Bytes → Option ℕ → Bool
send_result w message none = false
send_result w message (some n) = w.flush && (n == length message)

unfoldable pub send : Sending → Bytes → Port → Bool × Port
send w message p =
    if not p.has_handle
    then (false, p)
    else if not w.event
    then (false, p)
    else (send_result w message (bytes_written w.write), with_event p)

unfoldable pub close : Entered → Port → Port
close w p =
    let stopped : Port = record p { stop_requested = true } in
    if not p.has_handle && not p.receiving && not (joinable p.thread)
    then stopped
    else record (join w (record stopped {
      receiving = false;
      has_handle = false;
      closed = if p.has_handle then suc p.closed else p.closed;
    })) { buffer = [] }

unfoldable pub start_receiving : Port → Port
start_receiving p =
    if not p.receiving && not p.stop_requested && not (joinable p.thread)
    then record p { receiving = true; stop_requested = false; thread = created }
    else p

-- A call on a port, or a step of its thread.
pub data PortCall : Type 0 where
  opens : Opening → PortCall
  sends : Sending → Bytes → PortCall
  starts : PortCall
  closes : Entered → PortCall
  enters : Entered → PortCall
  leaves : PortCall

abbrev pub after : PortCall → Port → Port
after (opens w) p = (initialize w p).1
after (sends w message) p = (send w message p).1
after starts p = start_receiving p
after (closes w) p = close w p
after (enters w) p = thread_enters p.thread w p
after leaves p = thread_leaves p.thread p

abbrev pub after_all : List PortCall → Port → Port
after_all [] p = p
after_all (call ∷ calls) p = after_all calls (after call p)
