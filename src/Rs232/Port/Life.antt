-- ===== src/Rs232/Port/Life.antt =====
-- What any sequence of calls leaves of a port.
use machine_controller.Base.{
  ℕ, suc, ◌+◌, ◌≡◌, refl, ap, ◌∙◌, if◌then◌else◌, ◌↔◌, Bool, true, false, not, ◌&&◌, List, [], ◌∷◌,
  Bytes, Option, none, some, arith, length, if_cases,
}
use machine_controller.Rs232.Settings.{validate_settings}
use machine_controller.Rs232.Port.{
  Port, Opening, set_up, open_handle, ConfigRead, missing, throws, reads, read_then_open,
  initialize, Sending, bytes_written, send_result, send, close, start_receiving, PortCall, opens,
  sends, starts, closes, enters, leaves, after, after_all, Phase, no_thread, created, looping,
  returned, joinable, Entered, no_event, no_mask, enters_loop, enter_loop, thread_enters,
  thread_leaves, join,
}

abbrev pub held : Bool → ℕ
held true = 1
held false = 0

abbrev pub is_looping : Phase → Bool
is_looping looping = true
is_looping _ = false

-- What was opened was closed, but for the handle of the port and the event of its thread.
abbrev pub IsTidy : Port → Type 0
IsTidy p = p.opened ≡ p.closed + (held p.has_handle + held (is_looping p.thread))

-- A port is opened only when its handle is not.
abbrev pub MayCall : PortCall → Port → Type 0
MayCall (opens w) p = p.has_handle ≡ false
MayCall (sends w message) p = Unit
MayCall starts p = Unit
MayCall (closes w) p = Unit
MayCall (enters w) p = Unit
MayCall leaves p = Unit

abbrev pub MayCallAll : List PortCall → Port → Type 0
MayCallAll [] p = Unit
MayCallAll (call ∷ calls) p = MayCall call p × MayCallAll calls (after call p)

-- The thread's steps, from each of its phases.
enters-IsTidy : (w : Entered) (p : Port) → IsTidy p → IsTidy (thread_enters p.thread w p)
enters-IsTidy w p t = split p.thread refl
  where
    from_created : (v : Entered) → p.thread ≡ created → IsTidy (enter_loop v p)
    from_created no_event e = ground (arith, t, e)
    from_created no_mask e = ground (arith, t, e)
    from_created enters_loop e = ground (arith, t, e)

    split : (x : Phase) → p.thread ≡ x → IsTidy (thread_enters x w p)
    split no_thread e = t
    split created e = from_created w e
    split looping e = t
    split returned e = t

leaves-IsTidy : (p : Port) → IsTidy p → IsTidy (thread_leaves p.thread p)
leaves-IsTidy p t = split p.thread refl
  where
    split : (x : Phase) → p.thread ≡ x → IsTidy (thread_leaves x p)
    split no_thread e = t
    split created e = t
    split looping e = ground (arith, t, e)
    split returned e = t

leaves_loop : (p : Port) → is_looping (thread_leaves p.thread p).thread ≡ false
leaves_loop p = split p.thread refl
  where
    split : (x : Phase) → p.thread ≡ x → is_looping (thread_leaves x p).thread ≡ false
    split no_thread e = ap is_looping e
    split created e = ap is_looping e
    split looping e = refl
    split returned e = ap is_looping e

join-IsTidy : (w : Entered) (p : Port) → IsTidy p → IsTidy (join w p)
unfolding join
join-IsTidy w p t =
    let entered : Port = thread_enters p.thread w p in
    ground (arith, leaves-IsTidy entered (enters-IsTidy w p t), leaves_loop entered)

enters-handle :
    (x : Phase) (w : Entered) (p : Port) → (thread_enters x w p).has_handle ≡ p.has_handle
enters-handle no_thread w p = refl
enters-handle created no_event p = refl
enters-handle created no_mask p = refl
enters-handle created enters_loop p = refl
enters-handle looping w p = refl
enters-handle returned w p = refl

leaves-handle : (x : Phase) (p : Port) → (thread_leaves x p).has_handle ≡ p.has_handle
leaves-handle no_thread p = refl
leaves-handle created p = refl
leaves-handle looping p = refl
leaves-handle returned p = refl

join-handle : (w : Entered) (p : Port) → (join w p).has_handle ≡ p.has_handle
unfolding join
join-handle w p =
    let entered : Port = thread_enters p.thread w p in
    leaves-handle entered.thread entered ∙ enters-handle p.thread w p

set_up-IsTidy : (w : Opening) (p : Port) → p.has_handle ≡ true → IsTidy p → IsTidy (set_up w p).1
unfolding set_up
set_up-IsTidy w p h t =
    let free : Port = join w.joined p in
    let tidy : IsTidy free = join-IsTidy w.joined p t in
    let held_still : free.has_handle ≡ true = join-handle w.joined p ∙ h in
    let idle : free.thread ≡ no_thread = unfold join in refl in
    if_cases (λ (r : Bool × Port). IsTidy r.1) (not (w.get_state && w.set_state && w.set_timeouts))
      (λ _. t)
      (λ _.
        if_cases (λ (r : Bool × Port). IsTidy r.1) (not w.set_mask) (λ _. ground (arith, h, t))
          (λ _.
            if_cases (λ (r : Bool × Port). IsTidy r.1) w.thread_starts
              (λ _. ground (arith, tidy, held_still, idle))
              (λ _. ground (arith, tidy, held_still, idle))))

open_handle-IsTidy :
    (w : Opening) (p : Port) → p.has_handle ≡ false → IsTidy p → IsTidy (open_handle w p).1
unfolding open_handle
open_handle-IsTidy w p h t =
    let opening : Port = record p { receiving = false; has_handle = true; opened = suc p.opened } in
    let made : IsTidy opening = ground arith in
    if_cases (λ (r : Bool × Port). IsTidy r.1) (not (validate_settings p.settings)) (λ _. t)
      (λ _.
        if_cases (λ (r : Bool × Port). IsTidy r.1) (not w.create) (λ _. ground arith)
          (λ _. set_up-IsTidy w opening refl made))

read_then_open-IsTidy :
    (w : Opening) (c : ConfigRead) (p : Port)
    → p.has_handle ≡ false
    → IsTidy p
    → IsTidy (read_then_open w c p).1
unfolding read_then_open
read_then_open-IsTidy w missing p h t = open_handle-IsTidy w p h t
read_then_open-IsTidy w (throws s) p h t = t
read_then_open-IsTidy w (reads s) p h t = open_handle-IsTidy w (record p { settings = s }) h t

send-IsTidy : (w : Sending) (message : Bytes) (p : Port) → IsTidy p → IsTidy (send w message p).1
unfolding send
send-IsTidy w message p t = ground arith

-- The port of `close` before it joins the thread.
abbrev closing : Port → Port
closing p = record p {
  stop_requested = true;
  receiving = false;
  has_handle = false;
  closed = if p.has_handle then suc p.closed else p.closed;
}

closing-IsTidy : (p : Port) → IsTidy p → IsTidy (closing p)
closing-IsTidy p t = ground arith

close-IsTidy : (w : Entered) (p : Port) → IsTidy p → IsTidy (close w p)
unfolding close
close-IsTidy w p t =
    let joined : IsTidy (join w (closing p)) = join-IsTidy w (closing p) (closing-IsTidy p t) in
    if_cases IsTidy (not p.has_handle && not p.receiving && not (joinable p.thread)) (λ _. t)
      (λ _. joined)

idle_phase : (x : Phase) → joinable x ≡ false → is_looping x ≡ false
idle_phase no_thread e = refl
idle_phase created e = refl
idle_phase looping e = absurd (ground (arith, e))
idle_phase returned e = refl

start_receiving-IsTidy : (p : Port) → IsTidy p → IsTidy (start_receiving p)
unfolding start_receiving
start_receiving-IsTidy p t =
    if_cases IsTidy (not p.receiving && not p.stop_requested && not (joinable p.thread))
      (λ free. ground (arith, t, free, idle_phase p.thread)) (λ _. t)

after-IsTidy : (call : PortCall) (p : Port) → MayCall call p → IsTidy p → IsTidy (after call p)
unfolding initialize
after-IsTidy (opens w) p h t = read_then_open-IsTidy w w.config p h t
after-IsTidy (sends w message) p h t = send-IsTidy w message p t
after-IsTidy starts p h t = start_receiving-IsTidy p t
after-IsTidy (closes w) p h t = close-IsTidy w p t
after-IsTidy (enters w) p h t = enters-IsTidy w p t
after-IsTidy leaves p h t = leaves-IsTidy p t

after_all-IsTidy :
    (calls : List PortCall) (p : Port) → MayCallAll calls p → IsTidy p → IsTidy (after_all calls p)
after_all-IsTidy [] p h t = t
after_all-IsTidy (call ∷ calls) p h t =
    after_all-IsTidy calls (after call p) h.1 (after-IsTidy call p h.0 t)

-- No handle, no thread, and nothing is left open.
pub record IsShut (p : Port) : Type 0 where
  pub no_handle : p.has_handle ≡ false
  pub joined : joinable p.thread ≡ false
  pub stopped : p.stop_requested ≡ true
  pub balanced : p.opened ≡ p.closed

thread_enters-stopped :
    (x : Phase) (w : Entered) (p : Port) → (thread_enters x w p).stop_requested ≡ p.stop_requested
thread_enters-stopped no_thread w p = refl
thread_enters-stopped created no_event p = refl
thread_enters-stopped created no_mask p = refl
thread_enters-stopped created enters_loop p = refl
thread_enters-stopped looping w p = refl
thread_enters-stopped returned w p = refl

join-stopped : (w : Entered) (p : Port) → (join w p).stop_requested ≡ p.stop_requested
unfolding join
join-stopped w p =
    let entered : Port = thread_enters p.thread w p in
    leaves entered.thread entered ∙ thread_enters-stopped p.thread w p
  where
    leaves : (x : Phase) (q : Port) → (thread_leaves x q).stop_requested ≡ q.stop_requested
    leaves no_thread q = refl
    leaves created q = refl
    leaves looping q = refl
    leaves returned q = refl

close-IsShut : (w : Entered) (p : Port) → IsTidy p → IsShut (close w p)
unfolding close
close-IsShut w p t =
    let joined : IsTidy (join w (closing p)) = join-IsTidy w (closing p) (closing-IsTidy p t) in
    let handle = join-handle w (closing p) in
    if_cases IsShut (not p.has_handle && not p.receiving && not (joinable p.thread))
      (λ shut. record {
        no_handle = ground (arith, shut);
        joined = ground (arith, shut);
        stopped = refl;
        balanced = ground (arith, t, shut, idle_phase p.thread);
      })
      (λ _. record {
        no_handle = handle;
        joined = unfold join in refl;
        stopped = join-stopped w (closing p);
        balanced = unfold join in ground (arith, joined, handle);
      })

start_receiving_stopped : (p : Port) → p.stop_requested ≡ true → start_receiving p ≡ p
unfolding start_receiving
start_receiving_stopped p h =
    if_cases (λ q. q ≡ p) (not p.receiving && not p.stop_requested && not (joinable p.thread))
      (λ starts. absurd (ground (arith, starts, h))) (λ _. refl)

-- Whatever is called on a port, whatever its receiving thread does between, and whatever Windows answers,
-- as long as the port is opened only when it has no handle: each handle and each event that was opened has
-- been closed, but for the handle that the port holds and the event of a thread in its loop, if this held
-- at first. After `close` nothing is left open, no thread is there to be joined, and `startReceiving`
-- starts none.
pub calls_then_close :
    (calls : List PortCall) (p : Port) (w : Entered)
    → MayCallAll calls p
    → IsTidy p
    → let end = after_all calls p in
      IsTidy end × (IsShut (close w end) × (start_receiving (close w end) ≡ close w end))
calls_then_close calls p w h t =
    let tidy = after_all-IsTidy calls p h t in
    let shut = close-IsShut w (after_all calls p) tidy in
    (tidy, (shut, start_receiving_stopped (close w (after_all calls p)) shut.stopped))

send_result_iff :
    (w : Sending) (message : Bytes) (n : Option ℕ)
    → (send_result w message n ≡ true) ↔ ((w.flush ≡ true) × (n ≡ some (length message)))
unfolding send_result
send_result_iff w message none = ground arith
send_result_iff w message (some n) = ground arith

-- `send` reports success exactly if the port has a handle, the event is created, the write ends without
-- an error, the buffers are flushed, and as many bytes as the message has are written.
pub send_iff :
    (w : Sending) (message : Bytes) (p : Port)
    → ((send w message p).0 ≡ true) ↔ (
        (p.has_handle ≡ true)
        × ((w.event ≡ true) × ((w.flush ≡ true) × (bytes_written w.write ≡ some (length message)))))
unfolding send
send_iff w message p = ground (arith, send_result_iff w message (bytes_written w.write))
