-- ===== src/Rs232/Scan.antt =====
-- The framing of a port against an automaton that reads one byte at a time: how the bytes are split
-- into reads makes no difference.
use mathlib.Core.Path.{subst}
use mathlib.Core.List.{append-nil, append_assoc}
use machine_controller.Base.{
  ℕ, zero, suc, ◌≤◌, ◌<◌, ◌≡◌, refl, ap, sym, ◌∙◌, ◌⊎◌, inl, inr, List, [], ◌∷◌, ◌++◌, Bytes, none,
  some, arith, ◌==◌, length, length-append, drop, if◌then◌else◌, Bool-cases,
}
use machine_controller.Rs232.Framing.{
  find_byte, Delimiters, stop, round_from, round, drain, receive,
}
use machine_controller.Rs232.Delivery.{
  Without, find_byte-append, drop_past, IsFramed, round_frame, drain-deliver, AreFrames, stream,
  messages, receive-stream,
}

-- Between two messages, or inside of one with the bytes that came so far.
pub data Place : Type 0 where
  outside : Place
  inside : Bytes → Place

unfoldable pub scan : Delimiters → Place → Bytes → List Bytes × Place
scan d p [] = ([], p)
scan d outside (c ∷ cs) = if c == d.stx then scan d (inside []) cs else scan d outside cs
scan d (inside m) (c ∷ cs) =
    let closed = scan d outside cs in
    if c == d.etx then (m ∷ closed.0, closed.1) else scan d (inside (m ++ (c ∷ []))) cs

scan-append :
    (d : Delimiters) (p : Place) (x y : Bytes)
    → scan d p (x ++ y)
      ≡ ((scan d p x).0 ++ (scan d (scan d p x).1 y).0, (scan d (scan d p x).1 y).1)
unfolding scan
scan-append d p [] y = refl
scan-append d outside (c ∷ x) y =
    ground (arith, scan-append d (inside []) x y, scan-append d outside x y)
scan-append d (inside m) (c ∷ x) y =
    ground (arith, scan-append d outside x y, scan-append d (inside (m ++ (c ∷ []))) x y)

scan-junk : (d : Delimiters) (j : Bytes) → Without d.stx j → scan d outside j ≡ ([], outside)
unfolding scan
scan-junk d [] h = refl
scan-junk d (c ∷ j) h = ground (arith, scan-junk d j h.1)

scan-text :
    (d : Delimiters) (a m : Bytes) → Without d.etx m → scan d (inside a) m ≡ ([], inside (a ++ m))
unfolding scan
scan-text d a [] h = rw append-nil
scan-text d a (c ∷ m) h =
    ground (arith, scan-text d (a ++ (c ∷ [])) m h.1, append_assoc a (c ∷ []) m)

scan-open :
    (d : Delimiters) (j r : Bytes)
    → Without d.stx j
    → scan d outside (j ++ (d.stx ∷ r)) ≡ scan d (inside []) r
unfolding scan
scan-open d [] r h = ground arith
scan-open d (c ∷ j) r h = ground (arith, scan-open d j r h.1)

scan-close :
    (d : Delimiters) (a m rest : Bytes)
    → Without d.etx m
    → scan d (inside a) (m ++ (d.etx ∷ rest))
      ≡ ((a ++ m) ∷ (scan d outside rest).0, (scan d outside rest).1)
unfolding scan
scan-close d a [] rest h = rw append-nil (ground arith)
scan-close d a (c ∷ m) rest h =
    ground (arith, scan-close d (a ++ (c ∷ [])) m rest h.1, append_assoc a (c ∷ []) m)

-- The first `c` in a text.
record Found (c : ℕ) (b : Bytes) : Type 0 where
  before : Bytes
  after : Bytes
  parts : b ≡ before ++ (c ∷ after)
  clear : Without c before

find_first : (c : ℕ) (b : Bytes) → Without c b ⊎ Found c b
find_first c [] = inl tt
find_first c (d ∷ ds) = elim (Bool-cases (d == c)) [
  | inl same ↦ inr (record { before = []; after = ds; parts = ground arith; clear = tt })
  | inr other ↦ elim (find_first c ds) [
    | inl w ↦ inl (ground arith, w)
    | inr f ↦ inr (record {
      before = d ∷ f.before;
      after = f.after;
      parts = ap (◌∷◌ d) f.parts;
      clear = (ground arith, f.clear);
    })
  ]
]

find_byte-none : (c : ℕ) (b : Bytes) → Without c b → find_byte c b ≡ none
unfolding find_byte
find_byte-none c [] h = refl
find_byte-none c (d ∷ ds) h = ground (arith, find_byte-none c ds h.1)

round-junk : (d : Delimiters) (b : Bytes) → IsFramed d → Without d.stx b → round d b ≡ stop []
unfolding round
round-junk d b f h = ground (arith, f.stx_set, find_byte-none d.stx b h)

-- A message that has begun waits for its end.
round-partial :
    (d : Delimiters) (j r : Bytes)
    → IsFramed d
    → Without d.stx j
    → Without d.etx r
    → round d (j ++ (d.stx ∷ r)) ≡ stop (j ++ (d.stx ∷ r))
unfolding round round_from
round-partial d j r f hj hr =
    let e1 : drop (length j) (j ++ (d.stx ∷ r)) ≡ d.stx ∷ r =
      drop_past j (d.stx ∷ r) (length j) 0 (omega arith) in
    let e2 = find_byte-append d.stx j r hj in
    let e3 = find_byte-none d.etx (d.stx ∷ r) (f.distinct, hr) in
    ground (arith, f.stx_set, f.etx_set, e1, e2, e3)

drain-stop :
    (d : Delimiters) (fuel : ℕ) (buf left : Bytes)
    → 0 < length buf
    → round d buf ≡ stop left
    → drain d (suc fuel) buf ≡ some ([], left)
unfolding drain
drain-stop d fuel [] left h e = absurd (omega arith)
drain-stop d fuel (c ∷ cs) left h e = rw (drain, e)

-- The loop delivers what the automaton delivers, and the automaton comes from the bytes that are left
-- to the place where it stands after all of them.
record Agrees (d : Delimiters) (fuel : ℕ) (buf : Bytes) : Type 0 where
  left : Bytes
  drained : drain d fuel buf ≡ some ((scan d outside buf).0, left)
  resumes : scan d outside left ≡ ([], (scan d outside buf).1)

junk-Agrees :
    (d : Delimiters) (fuel : ℕ) (b : Bytes)
    → IsFramed d
    → 0 < length b
    → Without d.stx b
    → Agrees d (suc fuel) b
junk-Agrees d fuel b f h w =
    let s = scan-junk d b w in
    record {
      left = [];
      drained = rw s (drain-stop d fuel b [] h (round-junk d b f w));
      resumes = unfold scan in rw s refl;
    }

partial-Agrees :
    (d : Delimiters) (fuel : ℕ) (j r : Bytes)
    → IsFramed d
    → Without d.stx j
    → Without d.etx r
    → Agrees d (suc fuel) (j ++ (d.stx ∷ r))
partial-Agrees d fuel j r f hj hr =
    let b = j ++ (d.stx ∷ r) in
    let s = scan-open d j r hj ∙ scan-text d [] r hr in
    let n = length-append {0} j (d.stx ∷ r) in
    record {
      left = b;
      drained = rw s (drain-stop d fuel b b (omega (arith, n)) (round-partial d j r f hj hr));
      resumes = rw s refl;
    }

frame-Agrees :
    (d : Delimiters) (fuel : ℕ) (j m rest : Bytes)
    → IsFramed d
    → Without d.stx j
    → Without d.etx m
    → Agrees d fuel rest
    → Agrees d (suc fuel) (j ++ (d.stx ∷ (m ++ (d.etx ∷ rest))))
frame-Agrees d fuel j m rest f hj hm a =
    let b = j ++ (d.stx ∷ (m ++ (d.etx ∷ rest))) in
    let s = scan-open d j (m ++ (d.etx ∷ rest)) hj ∙ scan-close d [] m rest hm in
    let n = length-append {0} j (d.stx ∷ (m ++ (d.etx ∷ rest))) in
    record {
      left = a.left;
      drained = rw s (
          drain-deliver d fuel b m rest a.left (scan d outside rest).0 (omega (arith, n))
            (round_frame d j m rest f hj hm) a.drained);
      resumes = rw s a.resumes;
    }

drain-Agrees :
    (d : Delimiters) (fuel : ℕ) (buf : Bytes) → IsFramed d → length buf ≤ fuel → Agrees d fuel buf
unfolding drain scan
drain-Agrees d zero [] f le = record { left = []; drained = refl; resumes = refl }
drain-Agrees d (suc fuel) [] f le = record { left = []; drained = refl; resumes = refl }
drain-Agrees d zero (c ∷ cs) f le = absurd (omega arith)
drain-Agrees d (suc fuel) (c ∷ cs) f le = elim (find_first d.stx (c ∷ cs)) [
  | inl w ↦ junk-Agrees d fuel (c ∷ cs) f (omega arith) w
  | inr s ↦ subst (Agrees d (suc fuel)) (sym s.parts) (elim (find_first d.etx s.after) [
    | inl w ↦ partial-Agrees d fuel s.before s.after f s.clear w
    | inr e ↦
        subst (λ r. Agrees d (suc fuel) (s.before ++ (d.stx ∷ r))) (sym e.parts)
          (frame-Agrees d fuel s.before e.before e.after f s.clear e.clear (
            drain-Agrees d fuel e.after f (
              omega (
                arith,
                le,
                ap length s.parts,
                ap length e.parts,
                length-append {0} s.before (d.stx ∷ s.after),
                length-append {0} e.before (d.etx ∷ e.after),
              ))))
  ])
]

-- The messages that a port delivers when the bytes come in several reads.
unfoldable pub feed : Delimiters → Bytes → List Bytes → List Bytes
feed d buf [] = []
feed d buf (x ∷ xs) = elim (receive d buf x) [ none ↦ [] | some (ms, left) ↦ ms ++ feed d left xs ]

abbrev pub all_bytes : List Bytes → Bytes
all_bytes [] = []
all_bytes (x ∷ xs) = x ++ all_bytes xs

-- From a buffer that leads to a place, the reads deliver what the automaton delivers from there.
feed_from :
    (d : Delimiters) (p : Place) (buf : Bytes) (xs : List Bytes)
    → IsFramed d
    → scan d outside buf ≡ ([], p)
    → feed d buf xs ≡ (scan d p (all_bytes xs)).0
unfolding feed receive
feed_from d p buf [] f e = unfold scan in refl
feed_from d p buf (x ∷ xs) f e =
    let a = drain-Agrees d (length (buf ++ x)) (buf ++ x) f (omega arith) in
    let s : scan d outside (buf ++ x) ≡ scan d p x = scan-append d outside buf x ∙ rw e refl in
    let ih = feed_from d (scan d p x).1 a.left xs f (a.resumes ∙ rw s refl) in
    rw (feed, receive, a.drained, s, ih, scan-append d p x (all_bytes xs)) refl

-- With both delimiters set, different and unchanged in the configuration, the messages that a port
-- delivers from an empty buffer on are those that the automaton finds in all the bytes that came: how they
-- are split into reads makes no difference.
pub feed-scan :
    (d : Delimiters) (xs : List Bytes)
    → IsFramed d
    → feed d [] xs ≡ (scan d outside (all_bytes xs)).0
unfolding scan
feed-scan d xs f = feed_from d outside [] xs f refl

-- If both delimiters are set, differ and stay as configured, and the buffer is empty at first: framed
-- messages between pieces of junk are delivered exactly, each once, in order, without its delimiters and
-- the junk, however the bytes are split into reads.
pub feed-stream :
    (d : Delimiters) (fs : List (Bytes × Bytes)) (xs : List Bytes)
    → IsFramed d
    → AreFrames d fs
    → all_bytes xs ≡ stream d fs
    → feed d [] xs ≡ messages fs
unfolding feed
feed-stream d fs xs f h e =
    let whole : feed d [] (stream d fs ∷ []) ≡ messages fs =
      rw (feed, receive-stream d fs f h) (append-nil (messages fs)) in
    feed-scan d xs f
    ∙ (ap (λ bs. (scan d outside bs).0) (e ∙ sym (append-nil (stream d fs)))
        ∙ (sym (feed-scan d (stream d fs ∷ []) f) ∙ whole))
