-- ===== src/Store/Curation/Tests.antt =====
-- A run of `replaceAnnotations`.
use memoar.Prelude.{ℕ, [], ◌∷◌, none}
use memoar.Prelude.Str.{codes}
use memoar.Canonical.{AnnotationKind, Fields}
use memoar.Store.Tables.{MemoryTables}
use memoar.Store.Curation.{Draw}
use memoar.Examples.{tables}

abbrev draws : ℕ → Draw
draws n = record { id = b'd' ∷ n ∷ []; now = codes "5" }

abbrev tagged : MemoryTables
tagged = record tables {
  annotations =
      (
        codes "a:t",
        record {
          tenant_id = codes "a";
          row = record {
            id = codes "t";
            session_id = codes "s";
            turn_id = none;
            block_id = none;
            kind = AnnotationKind.tag;
            value = Fields.end;
            created_at = codes "1";
            updated_at = codes "1";
          };
        },
      )
      ∷ [];
}
