-- ===== src/Store/Keys.antt =====
-- The compound keys of server/src/store/memory/tables.ts: `${tenantId}:${id}` separates the tenants.
use memoar.Prelude.{ℕ, ◌≡◌, refl, ◌≢◌, inl, inr, Bool, false, [], ◌∷◌, arith}
use memoar.Prelude.Tests.{Bool-cases}
use memoar.Prelude.Lists.{All}
use memoar.Prelude.Str.{Str, ◌==◌, eq_iff, starts_with}
use memoar.Store.Tables.{key}

-- The identifiers of tenants are UUIDs, which have no colon.
abbrev pub NoColon : Str → Type 0
NoColon = All (λ (c : ℕ). c ≢ b':')

-- `entryKey.startsWith(`${tenantId}:`)`
unfoldable pub in_tenant : Str → Str → Bool
in_tenant tenant entry = starts_with entry (key tenant [])

-- A key tells its tenant and its identifier: two keys are equal only if both parts are, when
-- neither tenant has a colon.
pub key-injective : (t u a b : Str) → NoColon t → NoColon u → key t a ≡ key u b → (t ≡ u) × (a ≡ b)
unfolding key
key-injective [] [] a b ht hu e = (refl, cc)
key-injective [] (d ∷ u) a b ht hu e = absurd (hu.0 (cc))
key-injective (c ∷ t) [] a b ht hu e = absurd (ht.0 (cc))
key-injective (c ∷ t) (d ∷ u) a b ht hu e =
    let (same, ids) = key-injective t u a b ht.1 hu.1 (cc) in (cc, ids)

-- The prefix test selects exactly the keys of the tenant, when neither tenant has a colon.
pub in_tenant-key : (t u a : Str) → NoColon t → NoColon u → in_tenant t (key u a) ≡ (u == t)
unfolding in_tenant key starts_with ◌==◌
in_tenant-key [] [] a ht hu = refl
in_tenant-key [] (d ∷ u) a ht hu = ground (arith, hu.0)
in_tenant-key (c ∷ t) [] a ht hu = ground (arith, ht.0)
in_tenant-key (c ∷ t) (d ∷ u) a ht hu = ground (arith, in_tenant-key t u a ht.1 hu.1)

-- A key of another tenant is another key.
pub key_other : (t u a b : Str) → NoColon t → NoColon u → t ≢ u → (key t a == key u b) ≡ false
key_other t u a b ht hu ne = elim (Bool-cases (key t a == key u b)) [
  | inl e ↦ absurd (ne (key-injective t u a b ht hu ((eq_iff _ _).0 e)).0)
  | inr e ↦ e
]

-- Within one tenant the keys compare as the identifiers do.
pub key_same : (t a b : Str) → (key t a == key t b) ≡ (a == b)
unfolding key ◌==◌
key_same [] a b = ground arith
key_same (c ∷ t) a b = ground (arith, key_same t a b)
