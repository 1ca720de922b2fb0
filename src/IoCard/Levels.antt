-- ===== src/IoCard/Levels.antt =====
-- Which pins `writeOutputs` drives.
use Prim.Native.Nat.{bit_or}
use text.Mathlib.Text.{◌==◌ as str_eq}
use text.Mathlib.TextEquality.{eq_iff}
use machine_controller.Base.{
  ℕ, zero, suc, ◌-◌, ◌^◌, ◌<◌, ◌≡◌, ◌≢◌, refl, ap, ◌∙◌, Bool, true, false, not, ◌&&◌, ◌||◌, [], ◌∷◌,
  String, Option, none, some, arith, ltb, ltb→lt, ◌==◌, ==_iff, if◌then◌else◌, if_cases, Bool-cases,
  Option-cases, inl, inr,
}
use machine_controller.Base.Int.{ℤ, pos, eqb_ℤ, pos_part}
use machine_controller.Base.Maps.{Map, lookup, lookup-insert}
use machine_controller.MachineCore.Types.{IoChannel}
use machine_controller.IoCard.Ports.{pin_within_port, in_port, bit}
use machine_controller.IoCard.Outputs.{
  output_ports, is_output, aggregate, set_bit, switch_on, add_output, add_outputs, port_value,
  write_ports, write_outputs,
}

-- A test of all numbers below a bound, which a table checks by computing.
table : (ℕ → Bool) → ℕ → Bool
table test zero = true
table test (suc k) = table test k && test k

table_entry : (test : ℕ → Bool) (k i : ℕ) → i < k → table test k ≡ true → test i ≡ true
unfolding table
table_entry test zero i below checked = absurd (omega arith)
table_entry test (suc k) i below checked = ground (arith, table_entry test k i)

-- Setting bit `q` of a byte, for all bytes and bits.
or_table :
    table
      (λ a.
        table
          (λ q.
            ltb (bit_or a (2 ^ q)) 256
            && table (λ p. bit (bit_or a (2 ^ q)) p == (if p == q then 1 else bit a p)) 8)
          8)
      256
    ≡ true
unfolding table
or_table = refl

not_table : table (λ a. table (λ p. bit (port_value a) p == 1 - bit a p) 8) 256 ≡ true
unfolding table
not_table = refl

and_split : (a b : Bool) → (a && b) ≡ true → (a ≡ true) × (b ≡ true)
and_split a b h = ground arith

or_byte :
    (a q : ℕ)
    → a < 256
    → q < 8
    → (bit_or a (2 ^ q) < 256)
      × ((p : ℕ) → p < 8 → bit (bit_or a (2 ^ q)) p ≡ (if p == q then 1 else bit a p))
or_byte a q ha hq =
    let both = and_split _ _ (table_entry _ 8 q hq (table_entry _ 256 a ha or_table)) in
    (ltb→lt (bit_or a (2 ^ q)) 256 both.0, λ p hp. (==_iff _ _).0 (table_entry _ 8 p hp both.1))

not_byte : (a p : ℕ) → a < 256 → p < 8 → bit (port_value a) p ≡ 1 - bit a p
not_byte a p ha hp = (==_iff _ _).0 (table_entry _ 8 p hp (table_entry _ 256 a ha not_table))

-- Does the channel, in the desired state, ask for bit `p` of the port?
abbrev pub drives : Map String → String → ℕ → ℤ → IoChannel → Bool
drives ports port p state ch =
    (is_output (lookup ch.io_port ports)
      && in_port (pin_within_port ch)
      && not (eqb_ℤ state (pos 0)))
    && (str_eq ch.io_port port && (p == pos_part (pin_within_port ch)))

abbrev pub drives_some : Map String → String → ℕ → ℤ → Option IoChannel → Bool
drives_some ports port p state none = false
drives_some ports port p state (some ch) = drives ports port p state ch

-- Does one of the desired outputs ask for bit `p` of the port?
unfoldable pub wanted : Map String → Map IoChannel → Map IoChannel → String → ℕ → Bool
wanted ports configured [] port p = false
wanted ports configured ((name, want) ∷ wants) port p =
    drives_some ports port p want.state (lookup name configured)
    || wanted ports configured wants port p

-- Every aggregate is a byte.
abbrev Small : Map ℕ → Type 0
Small m = (port : String) → aggregate (lookup port m) < 256

-- What one step leaves of a port: a byte, present if it was, with bit `p` set if it is asked for.
record Stepped (port : String) (p : ℕ) (asked : Bool) (m m' : Map ℕ) : Type 0 where
  small : Small m'
  present : (a : ℕ) → lookup port m ≡ some a → lookup port m' ≢ none
  value :
      bit (aggregate (lookup port m')) p ≡ (if asked then 1 else bit (aggregate (lookup port m)) p)

module _ (port : String) (p : ℕ) (hp : p < 8) where
  set_bit-Small :
      (ch : IoChannel) (m : Map ℕ)
      → in_port (pin_within_port ch) ≡ true
      → Small m
      → Small (set_bit ch m)
  unfolding set_bit
  set_bit-Small ch m inside small other =
      let q : ℕ = pos_part (pin_within_port ch) in
      rw (lookup-insert ch.io_port other (bit_or (aggregate (lookup ch.io_port m)) (2 ^ q)) m) (
        if_cases (λ (o : Option ℕ). aggregate o < 256) (str_eq ch.io_port other)
          (λ _. (or_byte (aggregate (lookup ch.io_port m)) q (small ch.io_port) (ground arith)).0)
          (λ _. small other))

  set_bit-value :
      (ch : IoChannel) (m : Map ℕ)
      → in_port (pin_within_port ch) ≡ true
      → Small m
      → bit (aggregate (lookup port (set_bit ch m))) p ≡ (
          if str_eq ch.io_port port && (p == pos_part (pin_within_port ch))
          then 1
          else bit (aggregate (lookup port m)) p)
  unfolding set_bit
  set_bit-value ch m inside small =
      let q : ℕ = pos_part (pin_within_port ch) in
      rw (lookup-insert ch.io_port port (bit_or (aggregate (lookup ch.io_port m)) (2 ^ q)) m)
        (elim (Bool-cases (str_eq ch.io_port port)) [
          | inl e ↦
              let same : ch.io_port ≡ port = (eq_iff ch.io_port port).0 e in
              rw e (
                (or_byte (aggregate (lookup ch.io_port m)) q (small ch.io_port) (ground arith)).1 p
                  hp
                ∙ ap (λ (s : String). if p == q then 1 else bit (aggregate (lookup s m)) p) same)
          | inr e ↦ rw e
        ])

  set_bit-present :
      (ch : IoChannel) (m : Map ℕ) (a : ℕ)
      → lookup port m ≡ some a
      → lookup port (set_bit ch m) ≢ none
  unfolding set_bit
  set_bit-present ch m a h =
      let q : ℕ = pos_part (pin_within_port ch) in
      ground
        (arith, lookup-insert ch.io_port port (bit_or (aggregate (lookup ch.io_port m)) (2 ^ q)) m)

  same_Stepped : (m : Map ℕ) → Small m → Stepped port p false m m
  same_Stepped m small = record { small = small; present = λ a e. cc; value = refl }

  switch_on-Stepped :
      (ports : Map String) (state : ℤ) (ch : IoChannel) (m : Map ℕ)
      → Small m
      → Stepped port p (drives ports port p state ch) m (switch_on ports state ch m)
  unfolding switch_on
  switch_on-Stepped ports state ch m small =
      elim (Bool-cases (
        is_output (lookup ch.io_port ports)
        && in_port (pin_within_port ch)
        && not (eqb_ℤ state (pos 0)))) [
          | inl e ↦ rw e (record {
            small = set_bit-Small ch m (ground arith) small;
            present = set_bit-present ch m;
            value = set_bit-value ch m (ground arith) small;
          })
          | inr e ↦ rw e (same_Stepped m small)
        ]

  add_output-Stepped :
      (ports : Map String) (state : ℤ) (o : Option IoChannel) (m : Map ℕ)
      → Small m
      → Stepped port p (drives_some ports port p state o) m (add_output ports state o m)
  unfolding add_output
  add_output-Stepped ports state none m small = same_Stepped m small
  add_output-Stepped ports state (some ch) m small = switch_on-Stepped ports state ch m small

  -- Two steps, one after the other.
  both_Stepped :
      (a b : Bool) (m n o : Map ℕ)
      → Stepped port p a m n
      → Stepped port p b n o
      → Stepped port p (a || b) m o
  both_Stepped a b m n o s t = record {
    small = t.small;
    present = λ v e. elim (Option-cases (lookup port n)) [
      | inl h ↦ absurd (s.present v e h)
      | inr (w, h) ↦ t.present w h
    ];
    value = ground (arith, s.value, t.value);
  }

  add_outputs-Stepped :
      (ports : Map String) (configured wants : Map IoChannel) (m : Map ℕ)
      → Small m
      → Stepped port p
          (wanted ports configured wants port p)
          m
          (add_outputs ports configured wants m)
  unfolding add_outputs wanted
  add_outputs-Stepped ports configured [] m small = same_Stepped m small
  add_outputs-Stepped ports configured ((name, want) ∷ wants) m small =
      let first = add_output-Stepped ports want.state (lookup name configured) m small in
      both_Stepped _ _ m (add_output ports want.state (lookup name configured) m) _ first
        (add_outputs-Stepped ports configured wants _ first.small)

-- All ports start with no bit set, and every configured output port is there.
output_ports-zero :
    (ports : Map String) (port : String) → aggregate (lookup port (output_ports ports)) ≡ 0
unfolding output_ports lookup
output_ports-zero [] port = refl
output_ports-zero ((name, type) ∷ ports) port =
    ground (arith, output_ports-zero ports port, lookup-insert name port 0 (output_ports ports))

output_ports-present :
    (ports : Map String) (port : String)
    → lookup port ports ≡ some "output"
    → lookup port (output_ports ports) ≡ some 0
unfolding output_ports lookup
output_ports-present [] port h = absurd (cc)
output_ports-present ((name, type) ∷ ports) port h = ground (
  arith,
  eq_iff type "output",
  lookup-insert name port 0 (output_ports ports),
  output_ports-present ports port,
)

bit_zero : (p : ℕ) → p < 8 → bit 0 p ≡ 0
unfolding table
bit_zero p h = (==_iff _ _).0 (table_entry (λ q. bit 0 q == 0) 8 p h refl)

lookup-write_ports :
    (write : String → ℕ → Bool) (m : Map ℕ) (port : String) (agg : ℕ)
    → lookup port m ≡ some agg
    → lookup port (write_ports write m).1 ≡ some (port_value agg)
unfolding write_ports lookup
lookup-write_ports write [] port agg h = cc
lookup-write_ports write ((name, a) ∷ m) port agg h =
    ground (arith, lookup-write_ports write m port agg)

-- A port that is configured as an output is written; the value is a byte in which bit `p` is 0 (the
-- pin is on) exactly if one of the desired outputs, in a state other than 0, is configured on bit `p`
-- of this port.
pub write_outputs-levels :
    (write : String → ℕ → Bool) (ports : Map String) (configured wants : Map IoChannel)
    (port : String) (p : ℕ)
    → lookup port ports ≡ some "output"
    → p < 8
    → (v : ℕ) × (lookup port (write_outputs write ports configured wants).1 ≡ some v)
      × (v < 256)
      × (bit v p ≡ (if wanted ports configured wants port p then 0 else 1))
unfolding write_outputs
write_outputs-levels write ports configured wants port p out hp =
    let start : Map ℕ = output_ports ports in
    let s =
      add_outputs-Stepped port p hp ports configured wants start
        (λ other. rw (output_ports-zero ports other) (omega arith)) in
    let m : Map ℕ = add_outputs ports configured wants start in
    elim (Option-cases (lookup port m)) [
      | inl e ↦ absurd (s.present 0 (output_ports-present ports port out) e)
      | inr (agg, e) ↦
          let low : agg < 256 = rw e at (s.small port) in
          let zero_start : bit (aggregate (lookup port start)) p ≡ 0 =
            rw (output_ports-zero ports port) (bit_zero p hp) in
          let set : bit agg p ≡ (if wanted ports configured wants port p then 1 else 0) =
            rw zero_start at (rw e at s.value) in
          (
            port_value agg,
            lookup-write_ports write m port agg e,
            omega arith,
            not_byte agg p low hp ∙ ground arith,
          )
    ]
