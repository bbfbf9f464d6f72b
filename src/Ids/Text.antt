-- ===== src/Ids/Text.antt =====
-- The text of an identifier: hexadecimal digits and dashes, never a colon.
use Prim.Native.Nat.{◌/◌, ◌%◌}
use memoar.Prelude.{ℕ, zero, suc, ◌≢◌, List, [], ◌∷◌, ◌++◌, arith}
use memoar.Prelude.Lists.{All, All-append, All-take, take, drop}
use memoar.Prelude.Str.{Str}
use memoar.Host.{Host}
use memoar.Ids.{
  hex_digit, to_hex, dashed, uuid_text, stamp, namespace_bytes, uuid_v5, V7State, next_state,
  v7_bytes, uuid_v7,
}

-- What a UUID that names a tenant gives the compound keys.
abbrev NoColon : Str → Type 0
NoColon = All (λ (c : ℕ). c ≢ b':')

All-drop : (n : ℕ) (s : Str) → NoColon s → NoColon (drop n s)
All-drop zero s h = h
All-drop (suc n) [] h = tt
All-drop (suc n) (c ∷ s) h = All-drop n s h.1

hex_digit-ne : (n : ℕ) → hex_digit n ≢ b':'
unfolding hex_digit
hex_digit-ne n = ground arith

to_hex-NoColon : (bs : List ℕ) → NoColon (to_hex bs)
unfolding to_hex
to_hex-NoColon [] = tt
to_hex-NoColon (b ∷ bs) = (hex_digit-ne (b / 16), (hex_digit-ne (b % 16), to_hex-NoColon bs))

dashed-NoColon : (s : Str) → NoColon s → NoColon (dashed s)
unfolding dashed
dashed-NoColon s h =
    let P = λ (c : ℕ). c ≢ b':' in
    let part : (i n : ℕ) → NoColon (take n (drop i s)) =
      λ i n. All-take P n (drop i s) (All-drop i s h) in
    All-append P _ _ (part 0 8) (
      omega arith,
      All-append P _ _ (part 8 4) (
        omega arith,
        All-append P _ _ (part 12 4)
            (omega arith, All-append P _ _ (part 16 4) (omega arith, All-drop 20 s h)),
      ),
    )

uuid_text-NoColon : (bytes : List ℕ) → NoColon (uuid_text bytes)
unfolding uuid_text
uuid_text-NoColon bytes = dashed-NoColon (to_hex bytes) (to_hex-NoColon bytes)

uuid_v5-NoColon : (host : Host) (name : Str) → NoColon (uuid_v5 host name)
unfolding uuid_v5
uuid_v5-NoColon host name =
    uuid_text-NoColon (stamp 0x50 (take 16 (host.sha1 (namespace_bytes ++ host.utf8 name))))

uuid_v7-NoColon :
    (s : V7State) (now seed : ℕ) (random : List ℕ) → NoColon (uuid_v7 s now seed random).1
unfolding uuid_v7
uuid_v7-NoColon s now seed random =
    uuid_text-NoColon (v7_bytes now (next_state s now seed).sequence random)

-- No identifier that `uuidV5` or `uuidV7` makes holds a colon, whatever the platform's digest,
-- clock and random bytes are.
pub uuid-NoColon :
    (host : Host) (name : Str) (s : V7State) (now seed : ℕ) (random : List ℕ)
    → NoColon (uuid_v5 host name) × NoColon (uuid_v7 s now seed random).1
uuid-NoColon host name s now seed random =
    (uuid_v5-NoColon host name, uuid_v7-NoColon s now seed random)
