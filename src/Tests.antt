-- ===== src/Tests.antt =====
-- Runs of the parts that need no tables: identifiers, keys and cleaning.
use memoar.Prelude.{◌≡◌, not, [], ◌∷◌}
use memoar.Prelude.Tests.{nat_eq}
use memoar.Canonical.{ArchivedSession}
use memoar.Canonical.Clean.{without_nul_bytes}
use memoar.Canonical.NoNul.{CleanSession, without_nul_bytes-CleanSession}
use memoar.Ids.{uuid_v7, V7State}
use memoar.Ids.Order.{uuid_v7-order}
use memoar.Prelude.Str.{str_lt}
use memoar.Examples.{session}

abbrev dirty : ArchivedSession
dirty = record session { title = b'T' ∷ 0 ∷ [] }

without_nul_bytes-CleanSession_example : CleanSession (without_nul_bytes dirty)
without_nul_bytes-CleanSession_example = without_nul_bytes-CleanSession dirty

abbrev nearly_full : V7State
nearly_full = record { last_ms = 9; sequence = 4094 }

-- The first identifier takes 4095, so the second comes before it.
uuid_v7-order_example :
    str_lt (uuid_v7 nearly_full 9 0 []).1 (uuid_v7 (uuid_v7 nearly_full 9 0 []).0 9 7 (1 ∷ [])).1
    ≡ not (nat_eq (uuid_v7 nearly_full 9 0 []).0.sequence 4095)
uuid_v7-order_example = uuid_v7-order nearly_full 9 0 7 [] (1 ∷ [])
