-- ===== src/Rs232/Delivery.antt =====
-- What the framing delivers.
use machine_controller.Base.{
  ℕ, zero, suc, ◌+◌, ◌-◌, ◌≤◌, ◌<◌, ◌≡◌, ◌≢◌, refl, ap, ◌∙◌, List, [], ◌∷◌, ◌++◌, Bytes, Option,
  none, some, arith, ◌==◌, length, length-append, length-drop, take, drop, if_cases,
}
use machine_controller.Rs232.Framing.{
  find_byte, Delimiters, message_of, delivered, Round, stop, deliver, round_from, round, drain,
  receive,
}

-- A round that delivers leaves fewer bytes.
Shorter : Bytes → Round → Type 0
Shorter buf (stop left) = Unit {0}
Shorter buf (deliver m left) = length left < length buf

drop-lt : (n c : ℕ) (cs : Bytes) → 0 < n → length (drop n (c ∷ cs)) < length (c ∷ cs)
drop-lt n c cs h = omega (arith, length-drop {0} n (c ∷ cs))

round_from-Shorter :
    (d : Delimiters) (start c : ℕ) (cs : Bytes) → Shorter (c ∷ cs) (round_from d start (c ∷ cs))
unfolding round_from Shorter
round_from-Shorter d start c cs =
    if_cases (Shorter (c ∷ cs)) (d.etx == 0) (λ _. drop-lt (length (c ∷ cs)) c cs (omega arith))
      (λ _. found (find_byte d.etx (drop start (c ∷ cs))))
  where
    found :
        (o : Option ℕ)
        → Shorter
            (c ∷ cs)
            (elim o [ none ↦ stop (c ∷ cs) | some i ↦ delivered d start (start + i + 1) (c ∷ cs) ])
    found none = tt
    found (some i) = drop-lt (start + i + 1) c cs (omega arith)

round-Shorter : (d : Delimiters) (c : ℕ) (cs : Bytes) → Shorter (c ∷ cs) (round d (c ∷ cs))
unfolding round Shorter
round-Shorter d c cs =
    if_cases (Shorter (c ∷ cs)) (d.stx == 0) (λ _. round_from-Shorter d 0 c cs)
      (λ _. found (find_byte d.stx (c ∷ cs)))
  where
    found :
        (o : Option ℕ)
        → Shorter (c ∷ cs) (elim o [ none ↦ stop [] | some i ↦ round_from d i (c ∷ cs) ])
    found none = tt
    found (some i) = round_from-Shorter d i c cs

abbrev Ends : Option (List Bytes × Bytes) → Type 0
Ends r = (x : List Bytes × Bytes) × (r ≡ some x)

drain-Ends : (d : Delimiters) (fuel : ℕ) (buf : Bytes) → length buf ≤ fuel → Ends (drain d fuel buf)
unfolding drain Shorter
drain-Ends d zero [] h = (([], []), refl)
drain-Ends d (suc fuel) [] h = (([], []), refl)
drain-Ends d zero (c ∷ cs) h = absurd (omega arith)
drain-Ends d (suc fuel) (c ∷ cs) h =
    after (round d (c ∷ cs)) (round-Shorter d c cs)
      (λ left lt. drain-Ends d fuel left (omega arith))
  where
    after :
        (r : Round)
        → Shorter (c ∷ cs) r
        → ((left : Bytes) → length left < length (c ∷ cs) → Ends (drain d fuel left))
        → Ends (elim r [
          | stop left ↦ some ([], left)
          | deliver m left ↦ elim (drain d fuel left) [
            | none ↦ none
            | some (ms, end) ↦ some (m ∷ ms, end)
          ]
        ])
    after (stop left) s ih = (([], left), refl)
    after (deliver m left) s ih = let (x, e) = ih left s in ((m ∷ x.0, x.1), rw e)

-- The framing loop ends on every input: with the length of the buffer as fuel it never runs out.
pub receive-ends :
    (d : Delimiters) (buf bytes : Bytes) → (x : List Bytes × Bytes) × (receive d buf bytes ≡ some x)
unfolding receive
receive-ends d buf bytes = drain-Ends d (length (buf ++ bytes)) (buf ++ bytes) (omega arith)

-- A text in which `c` does not occur.
abbrev pub Without : ℕ → Bytes → Type 0
Without c [] = Unit {0}
Without c (d ∷ ds) = (d ≢ c) × Without c ds

pub find_byte-append :
    (c : ℕ) (j x : Bytes) → Without c j → find_byte c (j ++ c ∷ x) ≡ some (length j)
unfolding find_byte
find_byte-append c [] x h = ground arith
find_byte-append c (d ∷ j) x h = ground (arith, find_byte-append c j x h.1)

pub drop_past : (j x : Bytes) (n k : ℕ) → n ≡ length j + k → drop n (j ++ x) ≡ drop k x
drop_past [] x n k e = let e' : n ≡ k = omega arith in rw e'
drop_past (c ∷ j) x zero k e = absurd (omega arith)
drop_past (c ∷ j) x (suc n) k e = drop_past j x n k (omega arith)

take_past : (m x : Bytes) (n : ℕ) → n ≡ length m → take n (m ++ x) ≡ m
take_past [] x zero e = refl
take_past [] x (suc n) e = absurd (omega arith)
take_past (c ∷ m) x zero e = absurd (omega arith)
take_past (c ∷ m) x (suc n) e = ap (◌∷◌ c) (take_past m x n (omega arith))

-- Both delimiters are in use, they differ, and the configuration has not changed.
pub record IsFramed (d : Delimiters) : Type 0 where
  pub stx_set : d.stx ≢ 0
  pub etx_set : d.etx ≢ 0
  pub distinct : d.stx ≢ d.etx
  pub stx_same : d.stx_now ≡ d.stx
  pub etx_same : d.etx_now ≡ d.etx

abbrev pub frame : Delimiters → Bytes → Bytes
frame d m = d.stx ∷ (m ++ (d.etx ∷ []))

round_from-frame :
    (d : Delimiters) (j m rest : Bytes)
    → IsFramed d
    → Without d.etx m
    → round_from d (length j) (j ++ (d.stx ∷ (m ++ (d.etx ∷ rest)))) ≡ deliver m rest
unfolding round_from message_of find_byte
round_from-frame d j m rest f hm =
    let all = d.stx ∷ (m ++ (d.etx ∷ rest)) in
    let e1 : drop (length j) (j ++ all) ≡ all = drop_past j all (length j) 0 (omega arith) in
    let e2 : drop (length j + 1) (j ++ all) ≡ m ++ (d.etx ∷ rest) =
      drop_past j all (length j + 1) 1 (omega arith) in
    let e3 : find_byte d.etx all ≡ some (suc (length m)) =
      ground (arith, f.distinct, find_byte-append d.etx m rest hm) in
    let e4 : drop (length j + suc (length m) + 1) (j ++ all) ≡ rest =
      drop_past j all (length j + suc (length m) + 1) (length m + 2) (omega arith)
      ∙ drop_past (d.stx ∷ m) (d.etx ∷ rest) (length m + 2) 1 (omega arith) in
    let e5 : take (length j + suc (length m) + 1 - 1 - (length j + 1)) (m ++ (d.etx ∷ rest)) ≡ m =
      take_past m (d.etx ∷ rest) (length j + suc (length m) + 1 - 1 - (length j + 1))
        (omega arith) in
    ground (arith, f.stx_same, f.etx_same, f.stx_set, f.etx_set, e1, e2, e3, e4, e5)

pub round_frame :
    (d : Delimiters) (j m rest : Bytes)
    → IsFramed d
    → Without d.stx j
    → Without d.etx m
    → round d (j ++ (d.stx ∷ (m ++ (d.etx ∷ rest)))) ≡ deliver m rest
unfolding round
round_frame d j m rest f hj hm = ground (
  arith,
  f.stx_set,
  find_byte-append d.stx j (m ++ (d.etx ∷ rest)) hj,
  round_from-frame d j m rest f hm,
)

-- The bytes of pieces of junk, each with a framed message behind it.
abbrev pub stream : Delimiters → List (Bytes × Bytes) → Bytes
stream d [] = []
stream d ((j, m) ∷ fs) = j ++ (d.stx ∷ (m ++ (d.etx ∷ stream d fs)))

abbrev pub messages : List (Bytes × Bytes) → List Bytes
messages [] = []
messages ((j, m) ∷ fs) = m ∷ messages fs

-- No junk holds the start mark, and no message the end mark.
abbrev pub AreFrames : Delimiters → List (Bytes × Bytes) → Type 0
AreFrames d [] = Unit {0}
AreFrames d ((j, m) ∷ fs) = Without d.stx j × Without d.etx m × AreFrames d fs

pub drain-deliver :
    (d : Delimiters) (fuel : ℕ) (buf m rest left : Bytes) (ms : List Bytes)
    → 0 < length buf
    → round d buf ≡ deliver m rest
    → drain d fuel rest ≡ some (ms, left)
    → drain d (suc fuel) buf ≡ some (m ∷ ms, left)
unfolding drain
drain-deliver d fuel [] m rest left ms h e ih = absurd (omega arith)
drain-deliver d fuel (c ∷ cs) m rest left ms h e ih = rw (drain, e, ih)

drain-stream :
    (d : Delimiters) (fs : List (Bytes × Bytes)) (fuel : ℕ)
    → IsFramed d
    → AreFrames d fs
    → length (stream d fs) ≤ fuel
    → drain d fuel (stream d fs) ≡ some (messages fs, [])
unfolding drain
drain-stream d [] zero f h le = refl
drain-stream d [] (suc fuel) f h le = refl
drain-stream d ((j, m) ∷ fs) zero f h le =
    absurd (omega (arith, length-append {0} j (d.stx ∷ (m ++ (d.etx ∷ stream d fs)))))
drain-stream d ((j, m) ∷ fs) (suc fuel) f (hj, hm, hs) le =
    let n1 = length-append {0} j (d.stx ∷ (m ++ (d.etx ∷ stream d fs))) in
    let n2 = length-append {0} m (d.etx ∷ stream d fs) in
    drain-deliver d fuel (stream d ((j, m) ∷ fs)) m (stream d fs) [] (messages fs)
      (omega (arith, n1)) (round_frame d j m (stream d fs) f hj hm)
      (drain-stream d fs fuel f hs (omega (arith, n1, n2)))

-- Framed messages between pieces of junk that come in one read into an empty buffer, with both delimiters
-- set, different and as configured, are delivered exactly: each message once, in order, without its
-- delimiters and the junk, and nothing is left in the buffer.
pub receive-stream :
    (d : Delimiters) (fs : List (Bytes × Bytes))
    → IsFramed d
    → AreFrames d fs
    → receive d [] (stream d fs) ≡ some (messages fs, [])
unfolding receive
receive-stream d fs f h = drain-stream d fs (length (stream d fs)) f h (omega arith)
