-- ===== src/EventQueue/Order.antt =====
-- No event is lost, doubled or overtaken, and each is handled in its turn.
use mathlib.Core.List.{append-nil, append_assoc}
use machine_controller.Base.{
  ℕ, suc, ◌<◌, ◌≡◌, refl, sym, ap, ◌∙◌, List, [], ◌∷◌, ◌++◌, some, arith, length, length-append,
}
use machine_controller.EventQueue.{push, try_pop, Traffic, Run, here, next_push, next_pop}

-- What was pushed is what was handled, followed by what is queued.
abbrev pub IsOrdered {ℓ} : {A : Type ℓ} → Traffic A → Type ℓ
IsOrdered s = s.pushed ≡ s.handled ++ s.queue

module _ {ℓ} {A : Type ℓ} where
  push-IsOrdered :
      (e : A) (s : Traffic A) → IsOrdered s → s.pushed ++ (e ∷ []) ≡ s.handled ++ push e s.queue
  unfolding push
  push-IsOrdered e s h = rw h (append_assoc s.handled s.queue (e ∷ []))

  popped : (l : List A) (e : A) (q : List A) → try_pop l ≡ some (e, q) → l ≡ e ∷ q
  unfolding try_pop
  popped [] e q h = ground arith
  popped (x ∷ l) e q h = ground arith

  pop-IsOrdered :
      (e : A) (q : List A) (s : Traffic A)
      → try_pop s.queue ≡ some (e, q)
      → IsOrdered s
      → s.pushed ≡ (s.handled ++ (e ∷ [])) ++ q
  pop-IsOrdered e q s h o =
      o
      ∙ (ap (λ x. s.handled ++ x) (popped s.queue e q h) ∙ sym (append_assoc s.handled (e ∷ []) q))

  Run-IsOrdered : {s : Traffic A} {k : ℕ} {t : Traffic A} → Run s k t → IsOrdered s → IsOrdered t
  Run-IsOrdered here o = o
  Run-IsOrdered (next_push {t} e r h) o = rw h (push-IsOrdered e t (Run-IsOrdered r o))
  Run-IsOrdered (next_pop {t} e q r p h) o = rw h (pop-IsOrdered e q t p (Run-IsOrdered r o))

  -- Handled after `k` pops: the first `k` of what was queued and came later.
  record IsServed (s t : Traffic A) (k : ℕ) : Type ℓ where
    served : List A
    arrived : List A
    count : length served ≡ k
    hands : t.handled ≡ s.handled ++ served
    splits : s.queue ++ arrived ≡ served ++ t.queue

  here-IsServed : (s : Traffic A) → IsServed s s 0
  here-IsServed s = record {
    served = [];
    arrived = [];
    count = refl;
    hands = sym (append-nil s.handled);
    splits = append-nil s.queue;
  }

  push-IsServed :
      {k : ℕ} (s t : Traffic A) (e : A)
      → IsServed s t k
      → IsServed s (record t { queue = push e t.queue; pushed = t.pushed ++ (e ∷ []) }) k
  unfolding push
  push-IsServed s t e i = record {
    served = i.served;
    arrived = i.arrived ++ (e ∷ []);
    count = i.count;
    hands = i.hands;
    splits =
        sym (append_assoc s.queue i.arrived (e ∷ []))
        ∙ (ap (λ x. x ++ (e ∷ [])) i.splits ∙ append_assoc i.served t.queue (e ∷ []));
  }

  pop-IsServed :
      {k : ℕ} (s t : Traffic A) (e : A) (q : List A)
      → try_pop t.queue ≡ some (e, q)
      → IsServed s t k
      → IsServed s (record t { queue = q; handled = t.handled ++ (e ∷ []) }) (suc k)
  pop-IsServed s t e q h i = record {
    served = i.served ++ (e ∷ []);
    arrived = i.arrived;
    count = omega (arith, length-append i.served (e ∷ []), i.count);
    hands = ap (λ x. x ++ (e ∷ [])) i.hands ∙ append_assoc s.handled i.served (e ∷ []);
    splits =
        i.splits
        ∙ (ap (λ x. i.served ++ x) (popped t.queue e q h) ∙ sym (append_assoc i.served (e ∷ []) q));
  }

  Run-IsServed : {s : Traffic A} {k : ℕ} {t : Traffic A} → Run s k t → IsServed s t k
  Run-IsServed {s} here = here-IsServed s
  Run-IsServed {s} {k} (next_push {t} e r h) = rw h (push-IsServed s t e (Run-IsServed r))
  Run-IsServed {s} {k = suc k} (next_pop {t} e q r p h) =
      rw h (pop-IsServed s t e q p (Run-IsServed r))

  reaches :
      (e : A) (before rest served q : List A)
      → (before ++ (e ∷ rest)) ≡ served ++ q
      → length before < length served
      → (l : List A) × (served ≡ before ++ (e ∷ l))
  reaches e before rest [] q h lt = ground arith
  reaches e [] rest (x ∷ l) q h lt = (l, ground arith)
  reaches e (b ∷ before) rest (x ∷ l) q h lt =
      let r = reaches e before rest l q (ground arith) (omega arith) in (r.0, ground arith)

  -- However pushes and pops interleave, no event is lost, doubled or overtaken: if this held at first,
  -- the events pushed are those handled and then those queued. An event is handled in its turn: as soon
  -- as the logic thread has taken more events than stood before it, the thread has handled those, in
  -- order, and then this event, whatever is pushed meanwhile.
  pub Run-handles :
      {s : Traffic A} {k : ℕ} {t : Traffic A} (before : List A) (e : A) (behind : List A)
      → IsOrdered s
      → s.queue ≡ before ++ (e ∷ behind)
      → Run s k t
      → length before < k
      → IsOrdered t × ((rest : List A) × (t.handled ≡ s.handled ++ (before ++ (e ∷ rest))))
  Run-handles {s} {k} {t} before e behind o h r lt =
      let i = Run-IsServed r in
      let turn =
        reaches e before (behind ++ i.arrived) i.served t.queue
          (sym (append_assoc before (e ∷ behind) i.arrived)
            ∙ (sym (ap (λ x. x ++ i.arrived) h) ∙ i.splits))
          (omega (arith, lt, i.count)) in
      (Run-IsOrdered r o, (turn.0, i.hands ∙ ap (λ x. s.handled ++ x) turn.1))
