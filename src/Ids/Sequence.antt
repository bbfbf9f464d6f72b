-- ===== src/Ids/Sequence.antt =====
-- The counter of `uuidV7` within one millisecond.
use Prim.Native.Nat.{bit_and, ◌%◌}
use memoar.Prelude.{
  ℕ, zero, suc, ◌+◌, ◌<◌, ◌≡◌, ◌≤◌, ◌∙◌, refl, ap, sym, inl, inr, Bool, true, false, arith,
}
use memoar.Prelude.Tests.{Bool-cases, nat_eq, nat_eq_iff, if◌then◌else◌}
use memoar.Ids.{V7State, next_state}

-- A test that passes for all numbers up to a bound, by running it.
unfoldable pub up_to : (ℕ → Bool) → ℕ → Bool
up_to test zero = test 0
up_to test (suc k) = if up_to test k then test (suc k) else false

pub up_to-passes :
    (test : ℕ → Bool) (bound k : ℕ) → k ≤ bound → up_to test bound ≡ true → test k ≡ true
unfolding up_to
up_to-passes test zero k small table =
    let least : 0 ≡ k = omega arith in ap test (sym least) ∙ table
up_to-passes test (suc bound) k small table = elim (Bool-cases (up_to test bound)) [
  | inl t ↦ elim (Bool-cases (nat_eq k (suc bound))) [
    | inl same ↦ ap test ((nat_eq_iff k (suc bound)).0 same) ∙ rw t at table
    | inr other ↦
        let below : k ≤ bound = ground (arith, nat_eq_iff k (suc bound)) in
        up_to-passes test bound k below t
  ]
  | inr f ↦ cc (rw f at table)
]

-- Masking with 0xfff is the remainder by 4096.
wraps_at : ℕ → Bool
wraps_at k = nat_eq (bit_and k 0x0fff) (k % 4096)

wrapped : up_to wraps_at 4096 ≡ true
unfolding up_to wraps_at
wrapped = refl

pub mask_12 : (x : ℕ) → x ≤ 4096 → bit_and x 0x0fff ≡ x % 4096
unfolding wraps_at
mask_12 x small = (nat_eq_iff _ _).0 (up_to-passes wraps_at 4096 x small wrapped)

-- In the millisecond of the last identifier the counter rises by one, but from 4095 it falls back
-- to 0.
pub sequence-next_state :
    (s : V7State) (seed : ℕ)
    → s.sequence < 4096
    → (next_state s s.last_ms seed).sequence
      ≡ (if nat_eq s.sequence 4095 then 0 else s.sequence + 1)
unfolding next_state
sequence-next_state s seed h = ground (arith, mask_12 (s.sequence + 1))
