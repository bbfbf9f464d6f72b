-- ===== src/Ids.antt =====
-- server/src/ids.ts, and `derivedUuid` of server/libs/parsers/src/common.ts: the identifiers of the
-- archive. The bytes of a digest and random bytes come from the platform.
pub mod Text
pub mod Sequence
pub mod Order
use Prim.Native.Nat.{bit_and, bit_or, ◌/◌, ◌%◌, ◌^◌}
use memoar.Prelude.{ℕ, zero, suc, ◌+◌, ◌*◌, List, [], ◌∷◌, ◌++◌}
use memoar.Prelude.Tests.{ltb, nat_eq, if◌then◌else◌}
use memoar.Prelude.Lists.{take, drop}
use memoar.Prelude.Str.{Str, codes}
use memoar.Host.{Host}

-- A write out of bounds changes nothing that the digits show.
pub set_byte : ℕ → (ℕ → ℕ) → List ℕ → List ℕ
set_byte i f [] = []
set_byte zero f (b ∷ bs) = f b ∷ bs
set_byte (suc i) f (b ∷ bs) = b ∷ set_byte i f bs

pub hex_digit : ℕ → ℕ
hex_digit n = if ltb n 10 then 48 + n else 87 + n

-- `bytes.toString("hex")`
pub to_hex : List ℕ → Str
unfolding hex_digit
to_hex [] = []
to_hex (b ∷ bs) = hex_digit (b / 16) ∷ hex_digit (b % 16) ∷ to_hex bs

-- `hex.slice(from, to)`
abbrev slice : ℕ → ℕ → Str → Str
slice i n hex = take n (drop i hex)

-- The digits in groups of 8, 4, 4, 4 and the rest.
pub dashed : Str → Str
dashed hex =
    slice 0 8 hex
    ++ (b'-'
        ∷ (slice 8 4 hex
            ++ (b'-' ∷ (slice 12 4 hex ++ (b'-' ∷ (slice 16 4 hex ++ (b'-' ∷ drop 20 hex)))))))

-- The version and the variant of a UUID stand in bytes 6 and 8.
pub stamp : ℕ → List ℕ → List ℕ
unfolding set_byte
stamp version bytes =
    set_byte 8 (λ b. bit_or 0x80 (bit_and b 0x3f))
      (set_byte 6 (λ b. bit_or version (bit_and b 0x0f)) bytes)

-- 6ba7b8109dad11d180b400c04fd430c8
namespace_bytes : List ℕ
namespace_bytes =
    0x6b ∷ 0xa7 ∷ 0xb8 ∷ 0x10 ∷ 0x9d ∷ 0xad ∷ 0x11 ∷ 0xd1 ∷ 0x80 ∷ 0xb4 ∷ 0x00 ∷ 0xc0 ∷ 0x4f ∷ 0xd4
    ∷ 0x30 ∷ 0xc8 ∷ []

-- `${hex.slice(0, 8)}-…` over the bytes' digits
pub uuid_text : List ℕ → Str
unfolding dashed to_hex
uuid_text bytes = dashed (to_hex bytes)

-- `uuidV5(name)`, which the parsers have under the name `derivedUuid`
unfoldable pub uuid_v5 : Host → Str → Str
unfolding stamp uuid_text namespace_bytes
uuid_v5 host name = uuid_text (stamp 0x50 (take 16 (host.sha1 (namespace_bytes ++ host.utf8 name))))

-- The module's variables `lastMs` and `sequence`.
pub record V7State : Type 0 where
  pub last_ms : ℕ
  pub sequence : ℕ

-- `seed` is the number that two random bytes make.
unfoldable pub next_state : V7State → ℕ → ℕ → V7State
next_state s now seed =
    if nat_eq now s.last_ms
    then record s { sequence = bit_and (s.sequence + 1) 0x0fff }
    else record { last_ms = now; sequence = bit_and seed 0x0fff }

-- The loop writes the low byte of the timestamp last to first.
pub timestamp_bytes : ℕ → List ℕ
timestamp_bytes now =
    now / 2 ^ 40 % 256
    ∷ now / 2 ^ 32 % 256
    ∷ now / 2 ^ 24 % 256
    ∷ now / 2 ^ 16 % 256
    ∷ now / 2 ^ 8 % 256
    ∷ now % 256
    ∷ []

-- The last seven random bytes are kept.
pub v7_bytes : ℕ → ℕ → List ℕ → List ℕ
unfolding timestamp_bytes set_byte
v7_bytes now sequence random =
    timestamp_bytes now
    ++ (bit_or 0x70 (bit_and (sequence / 2 ^ 8) 0x0f)
        ∷ bit_and sequence 0xff
        ∷ set_byte 0 (λ b. bit_or 0x80 (bit_and b 0x3f)) (drop 8 random))

-- `uuidV7(now)`: `random` are the sixteen random bytes.
unfoldable pub uuid_v7 : V7State → ℕ → ℕ → List ℕ → V7State × Str
unfolding next_state v7_bytes uuid_text
uuid_v7 s now seed random =
    let s' = next_state s now seed in (s', uuid_text (v7_bytes now s'.sequence random))
