-- ===== src/Store/Curation.antt =====
-- server/src/store/memory/curation.ts: annotations and collections. A call that may throw returns
-- the tables as it left them, beside its result.
pub mod Replacing
pub mod Tests
use memoar.Prelude.{
  ℕ, suc, Bool, true, not, ◌&&◌, ◌||◌, List, [], ◌∷◌, ◌++◌, map, Option, none, some,
}
use memoar.Prelude.Tests.{if◌then◌else◌}
use memoar.Prelude.Lists.{filter}
use memoar.Prelude.Str.{Str, codes, ◌==◌, truthy, truthy?, opt_eq}
use memoar.Prelude.JsMap.{get, has, set, delete, delete_where, values}
use memoar.Canonical.{
  Annotation, AnnotationKind, Fields, str, TenantContext, same_kind, lookup_field, set_field,
}
use memoar.Store.Records.{CollectionRecord}
use memoar.Store.Sessions.{get_session}
use memoar.Store.Tables.{
  MemoryTables, Owned, key, Result, ok, err, session_not_found, tenant_mismatch,
}

-- `sessionId` is optional, and the empty string asks for all too.
unfoldable pub list_annotations : TenantContext → Option Str → MemoryTables → List Annotation
list_annotations context session_id tables =
    map (λ (a : Owned Annotation). a.row)
      (filter
        (λ (a : Owned Annotation).
          not (truthy? session_id) || opt_eq (some a.row.session_id) session_id)
        (filter (λ (a : Owned Annotation). a.tenant_id == context.tenant_id)
          (values tables.annotations)))

-- `...(x ? {x } : {})`
abbrev present : Option Str → Option Str
present none = none
present (some s) = if truthy s then some s else none

pub record AnnotationInput : Type 0 where
  pub session_id : Str
  pub turn_id : Option Str
  pub block_id : Option Str
  pub kind : AnnotationKind
  pub value : Fields

-- What a call draws from the generator of identifiers and from the clock.
pub record Draw : Type 0 where
  pub id : Str
  pub now : Str

built : Draw → AnnotationInput → Annotation
built draw input = record {
  id = draw.id;
  session_id = input.session_id;
  turn_id = present input.turn_id;
  block_id = present input.block_id;
  kind = input.kind;
  value = input.value;
  created_at = draw.now;
  updated_at = draw.now;
}

pub create_annotation :
    TenantContext → AnnotationInput → Draw → MemoryTables → MemoryTables × Result Annotation
unfolding built
create_annotation context input draw tables = elim (get_session context input.session_id tables) [
  | none ↦ (tables, err session_not_found)
  | some _ ↦ (
    record tables {
      annotations =
          set (key context.tenant_id draw.id)
            (record { tenant_id = context.tenant_id; row = built draw input }) tables.annotations;
    },
    ok (built draw input),
  )
]

-- `annotation.value.origin !== origin`, for an origin that is a string
other_origin : Str → Fields → Bool
other_origin origin value = elim (lookup_field (codes "origin") value) [
  | some (str s) ↦ not (s == origin)
  | _ ↦ true
]

-- The rows that `replaceAnnotations` deletes.
pub replaced_row : TenantContext → Str → AnnotationKind → Option Str → Owned Annotation → Bool
unfolding other_origin
replaced_row context session_id kind none a =
    a.tenant_id == context.tenant_id
    && (a.row.session_id == session_id && same_kind a.row.kind kind)
replaced_row context session_id kind (some origin) a =
    a.tenant_id == context.tenant_id
    && (a.row.session_id == session_id
        && (same_kind a.row.kind kind && not (other_origin origin a.row.value)))

with_origin : Option Str → Fields → Fields
with_origin none value = value
with_origin (some origin) value = set_field (codes "origin") (str origin) value

-- The loop that creates the new rows; it stops at the first error.
create_each :
    TenantContext
    → Str
    → AnnotationKind
    → Option Str
    → (ℕ → Draw)
    → ℕ
    → List Fields
    → MemoryTables
    → List Annotation
    → MemoryTables × Result (List Annotation)
unfolding with_origin create_annotation
create_each context session_id kind origin draws n [] tables created = (tables, ok created)
create_each context session_id kind origin draws n (value ∷ rest) tables created =
    let input : AnnotationInput = record {
      session_id = session_id;
      turn_id = none;
      block_id = none;
      kind = kind;
      value = with_origin origin value;
    } in
    let (after, result) = create_annotation context input (draws n) tables in
    elim result [
      | err e ↦ (after, err e)
      | ok annotation ↦
          create_each context session_id kind origin draws (suc n) rest after
            (created ++ annotation ∷ [])
    ]

pub replace_annotations :
    TenantContext
    → Str
    → AnnotationKind
    → List Fields
    → Option Str
    → (ℕ → Draw)
    → MemoryTables
    → MemoryTables × Result (List Annotation)
unfolding create_each replaced_row
replace_annotations context session_id kind new_values origin draws tables =
    create_each context session_id kind origin draws 0 new_values
      (record tables {
        annotations =
            delete_where (λ entry a. replaced_row context session_id kind origin a)
              tables.annotations;
      })
      []

pub update_annotation :
    TenantContext → Str → Fields → Str → MemoryTables → MemoryTables × Option Annotation
update_annotation context annotation_id value now tables =
    elim (get (key context.tenant_id annotation_id) tables.annotations) [
      | none ↦ (tables, none)
      | some a ↦
          let row : Annotation = record a.row { value = value; updated_at = now } in
          (
            record tables {
              annotations =
                  set (key context.tenant_id annotation_id) (record a { row = row })
                    tables.annotations;
            },
            some row,
          )
    ]

pub delete_annotation : TenantContext → Str → MemoryTables → MemoryTables × Bool
delete_annotation context annotation_id tables = (
  record tables { annotations = delete (key context.tenant_id annotation_id) tables.annotations },
  has (key context.tenant_id annotation_id) tables.annotations,
)

pub list_collections : TenantContext → MemoryTables → List CollectionRecord
list_collections context tables =
    filter (λ (c : CollectionRecord). c.tenant_id == context.tenant_id) (values tables.collections)

pub save_collection :
    TenantContext → CollectionRecord → MemoryTables → MemoryTables × Result (Unit {0})
save_collection context collection tables =
    if not (collection.tenant_id == context.tenant_id) then (tables, err tenant_mismatch) else (
      record tables {
        collections = set (key context.tenant_id collection.id) collection tables.collections;
      },
      ok tt,
    )
