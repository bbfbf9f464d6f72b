-- ===== src/Ids/Order.antt =====
-- The order of the identifiers that `uuidV7` makes, as texts.
use Prim.Native.Nat.{bit_and, bit_and-bitwise, bit_or, min, ◌/◌, ◌%◌, ◌^◌}
use memoar.Prelude.{
  ℕ, zero, suc, ◌+◌, ◌<◌, ◌≤◌, ◌≡◌, ◌∙◌, refl, ap, sym, inl, inr, Bool, true, false, not, ◌&&◌,
  List, [], ◌∷◌, ◌++◌, arith,
}
use memoar.Prelude.Tests.{Bool-cases, nat_eq, nat_eq_iff, if◌then◌else◌, ltb}
use memoar.Prelude.Lists.{drop, take}
use memoar.Prelude.Str.{Str, str_lt}
use memoar.Ids.{
  dashed, hex_digit, next_state, set_byte, timestamp_bytes, to_hex, uuid_text, uuid_v7, v7_bytes,
  V7State,
}
use memoar.Ids.Sequence.{sequence-next_state, up_to, up_to-passes}

str_lt-less : (c d : ℕ) (s t : Str) → c < d → str_lt (c ∷ s) (d ∷ t) ≡ true
unfolding str_lt
str_lt-less c d s t h = ground (arith, h)

str_lt-greater : (c d : ℕ) (s t : Str) → d < c → str_lt (c ∷ s) (d ∷ t) ≡ false
unfolding str_lt
str_lt-greater c d s t h = ground (arith, h)

str_lt-same : (c : ℕ) (s t : Str) → str_lt (c ∷ s) (c ∷ t) ≡ str_lt s t
unfolding str_lt
str_lt-same c s t = ground arith

str_lt-prefix : (p s t : Str) → str_lt (p ++ s) (p ++ t) ≡ str_lt s t
str_lt-prefix [] s t = refl
str_lt-prefix (c ∷ p) s t = str_lt-same c (p ++ s) (p ++ t) ∙ str_lt-prefix p s t

hex_digit_mono : (m n : ℕ) → m < n → n < 16 → hex_digit m < hex_digit n
unfolding hex_digit
hex_digit_mono m n h small = ground (arith, h, small)

abbrev digits : ℕ → Str
digits b = hex_digit (b / 16) ∷ hex_digit (b % 16) ∷ []

-- Of two bytes the smaller has the smaller digits, whatever follows.
digits-order :
    (a b : ℕ) (s t : Str)
    → a < b
    → b < 256
    → (str_lt (digits a ++ s) (digits b ++ t) ≡ true)
      × (str_lt (digits b ++ t) (digits a ++ s) ≡ false)
digits-order a b s t h small = elim (Bool-cases (ltb (a / 16) (b / 16))) [
  | inl l ↦
      let first = hex_digit_mono (a / 16) (b / 16) (ground (arith, l)) (omega (arith, small)) in
      (
        str_lt-less (hex_digit (a / 16)) (hex_digit (b / 16)) _ _ first,
        str_lt-greater (hex_digit (b / 16)) (hex_digit (a / 16)) _ _ first,
      )
  | inr l ↦
      let least : b / 16 ≤ a / 16 = ground (arith, l) in
      let same : a / 16 ≡ b / 16 = omega (arith, h, least) in
      let second = hex_digit_mono (a % 16) (b % 16) (omega (arith, h, same)) (omega arith) in
      rw same (
        str_lt-same (hex_digit (b / 16)) _ _
            ∙ str_lt-less (hex_digit (a % 16)) (hex_digit (b % 16)) _ _ second,
        str_lt-same (hex_digit (b / 16)) _ _
            ∙ str_lt-greater (hex_digit (b % 16)) (hex_digit (a % 16)) _ _ second,
      )
]

-- The bytes that hold the counter.
abbrev high : ℕ → ℕ
high sequence = bit_or 0x70 (bit_and (sequence / 2 ^ 8) 0x0f)

abbrev low : ℕ → ℕ
low sequence = bit_and sequence 0xff

holds_at : ℕ → Bool
holds_at k = nat_eq (high k) (112 + k / 256) && nat_eq (low k) (k % 256)

held : up_to holds_at 4095 ≡ true
unfolding up_to holds_at
held = refl

counter_bytes : (k : ℕ) → k < 4096 → (high k ≡ 112 + k / 256) × (low k ≡ k % 256)
unfolding holds_at
counter_bytes k small =
    let table = up_to-passes holds_at 4095 k (omega (arith, small)) held in
    ((nat_eq_iff _ _).0 (ground (arith, table)), (nat_eq_iff _ _).0 (ground (arith, table)))

-- A mask is an upper bound of what it lets through.
masked_digits : (n a b : ℕ) → Prim.Native.Nat.digits (λ b. zero) min n a b ≤ b
masked_digits zero a b = omega arith
masked_digits (suc n) zero b = omega arith
masked_digits (suc n) (suc a) b = omega (arith, masked_digits n (suc a / 2) (b / 2))

bit_and_le : (a b : ℕ) → bit_and a b ≤ b
bit_and_le a b = rw (bit_and-bitwise a b) (masked_digits a a b)

next_state_small : (s : V7State) (now seed : ℕ) → (next_state s now seed).sequence < 4096
unfolding next_state
next_state_small s now seed = elim (Bool-cases (nat_eq now s.last_ms)) [
  | inl e ↦ rw e (omega (arith, bit_and_le (s.sequence + 1) 0x0fff))
  | inr e ↦ rw e (omega (arith, bit_and_le seed 0x0fff))
]

-- The parts of an identifier: the time, the counter with the version, and what is random.
abbrev time_text : ℕ → Str
time_text now =
    digits (now / 2 ^ 40 % 256)
    ++ (digits (now / 2 ^ 32 % 256)
        ++ (digits (now / 2 ^ 24 % 256)
            ++ (digits (now / 2 ^ 16 % 256)
                ++ (b'-' ∷ (digits (now / 2 ^ 8 % 256) ++ (digits (now % 256) ++ (b'-' ∷ [])))))))

random_text : List ℕ → Str
random_text random =
    let rest = to_hex (set_byte 0 (λ b. bit_or 0x80 (bit_and b 0x3f)) (drop 8 random)) in
    b'-' ∷ (take 4 rest ++ (b'-' ∷ drop 4 rest))

parts :
    (now sequence : ℕ) (random : List ℕ)
    → uuid_text (v7_bytes now sequence random)
      ≡ time_text now ++ (digits (high sequence) ++ (digits (low sequence) ++ random_text random))
unfolding uuid_text v7_bytes dashed to_hex timestamp_bytes random_text
parts now sequence random = refl

abbrev counter_text : ℕ → List ℕ → Str
counter_text sequence random =
    digits (high sequence) ++ (digits (low sequence) ++ random_text random)

-- Of two counters the smaller has the smaller text.
counter_order :
    (m n : ℕ) (r q : List ℕ)
    → m < n
    → n < 4096
    → (str_lt (counter_text m r) (counter_text n q) ≡ true)
      × (str_lt (counter_text n q) (counter_text m r) ≡ false)
counter_order m n r q h small =
    let (mh, ml) = counter_bytes m (omega (arith, h, small)) in
    let (nh, nl) = counter_bytes n small in
    elim (Bool-cases (ltb (m / 256) (n / 256))) [
      | inl l ↦
          digits-order (high m) (high n) _ _ (ground (arith, l, mh, nh)) (omega (arith, nh, small))
      | inr l ↦
          let least : n / 256 ≤ m / 256 = ground (arith, l) in
          let quotients : m / 256 ≡ n / 256 = omega (arith, h, least) in
          let same : high m ≡ high n = mh ∙ (ap (112 +◌) quotients ∙ sym nh) in
          let (less, more) =
            digits-order (low m) (low n) (random_text r) (random_text q)
              (omega (arith, h, quotients, ml, nl)) (omega (arith, nl)) in
          rw same
            (str_lt-prefix (digits (high n)) _ _ ∙ less, str_lt-prefix (digits (high n)) _ _ ∙ more)
    ]

module _ (s0 : V7State) (now seed0 seed : ℕ) (random0 random : List ℕ) where
  abbrev first : V7State × Str
  first = uuid_v7 s0 now seed0 random0

  abbrev second : V7State × Str
  second = uuid_v7 first.0 now seed random

  first-now : first.0.last_ms ≡ now
  unfolding uuid_v7 next_state
  first-now = elim (Bool-cases (nat_eq now s0.last_ms)) [
    | inl e ↦ rw e (sym ((nat_eq_iff now s0.last_ms).0 e))
    | inr e ↦ rw e refl
  ]

  small : first.0.sequence < 4096
  unfolding uuid_v7
  small = next_state_small s0 now seed0

  second-sequence :
      (next_state first.0 now seed).sequence
      ≡ (if nat_eq first.0.sequence 4095 then 0 else first.0.sequence + 1)
  second-sequence =
      ap (λ (t : ℕ). (next_state first.0 t seed).sequence) (sym first-now)
      ∙ sequence-next_state first.0 seed small

  texts :
      str_lt first.1 second.1
      ≡ str_lt
          (counter_text first.0.sequence random0)
          (counter_text (next_state first.0 now seed).sequence random)
  unfolding uuid_v7
  texts =
      rw
        (
          parts now (next_state s0 now seed0).sequence random0,
          parts now (next_state (next_state s0 now seed0) now seed).sequence random,
        )
        (str_lt-prefix (time_text now) _ _)

  -- Of two identifiers that are made one after the other in the same millisecond the text of the
  -- first comes before that of the second exactly if the counter did not stand at 4095, whatever
  -- the state before and the random bytes are.
  pub uuid_v7-order : str_lt first.1 second.1 ≡ not (nat_eq first.0.sequence 4095)
  uuid_v7-order = elim (Bool-cases (nat_eq first.0.sequence 4095)) [
    | inl e ↦
        let full : first.0.sequence ≡ 4095 = (nat_eq_iff first.0.sequence 4095).0 e in
        let next : (next_state first.0 now seed).sequence ≡ 0 = rw e at second-sequence in
        let order = counter_order 0 first.0.sequence random random0 (omega (arith, full)) small in
        rw e (
          texts
          ∙ (ap (λ (k : ℕ). str_lt (counter_text first.0.sequence random0) (counter_text k random))
                next
              ∙ order.1))
    | inr e ↦
        let next : (next_state first.0 now seed).sequence ≡ first.0.sequence + 1 =
          rw e at second-sequence in
        let order =
          counter_order first.0.sequence (first.0.sequence + 1) random0 random (omega arith)
            (ground (arith, e, small)) in
        rw e (
          texts
          ∙ (ap (λ (k : ℕ). str_lt (counter_text first.0.sequence random0) (counter_text k random))
                next
              ∙ order.0))
  ]
