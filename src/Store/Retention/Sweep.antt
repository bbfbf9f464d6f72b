-- ===== src/Store/Retention/Sweep.antt =====
-- What retention deletes and what it keeps.
use memoar.Prelude.{
  ◌+◌, ◌≡◌, refl, Bool, true, false, not, ◌&&◌, ◌||◌, List, [], ◌∷◌, ◌++◌, ◌∙◌, Option, none, some,
  arith,
}
use memoar.Prelude.Tests.{if◌then◌else◌, nat_eq, nat_eq_iff}
use memoar.Prelude.Lists.{any, filter, length, length-filter-le}
use memoar.Prelude.Str.{Str, ◌==◌, eq_iff, contains, str_lt}
use memoar.Prelude.JsMap.{JsMap, get, has, IsMap, get-absent, get-delete_where, spared, values}
use memoar.Canonical.{ArchivedSession, TenantContext}
use memoar.Store.Keys.{NoColon, in_tenant-key}
use memoar.Store.Records.{CollectionRecord, RawArtifactRecord}
use memoar.Store.Tables.{MemoryTables, key}
use memoar.Store.Retention.{apply_retention, collected, is_swept, swept_ids, sweep_artifacts}

-- The age and the collections decide.
abbrev is_held : Str → List Str → ArchivedSession → Bool
is_held cutoff held session = not (str_lt session.updated_at cutoff) || contains held session.id

abbrev kept_held : Bool → Str → List Str → Option ArchivedSession → Option ArchivedSession
kept_held same cutoff held none = none
kept_held same cutoff held (some s) = if same && not (is_held cutoff held s) then none else some s

get-apply_retention_held :
    (context : TenantContext) (cutoff : Str) (exempt : Bool) (tables : MemoryTables) (u id : Str)
    → IsMap tables.sessions
    → NoColon context.tenant_id
    → NoColon u
    → get (key u id) (apply_retention context cutoff exempt tables).0.sessions
      ≡ kept_held
          (u == context.tenant_id)
          cutoff
          (collected context exempt (values tables.collections))
          (get (key u id) tables.sessions)
unfolding apply_retention is_swept
get-apply_retention_held context cutoff exempt tables u id map ht hu =
    let held = collected context exempt (values tables.collections) in
    get-delete_where (is_swept context.tenant_id cutoff held) (key u id) tables.sessions map
    ∙ go (get (key u id) tables.sessions)
  where
    go :
        (o : Option ArchivedSession)
        → spared
            (is_swept context.tenant_id cutoff
              (collected context exempt (values tables.collections))
              (key u id))
            o
          ≡ kept_held
              (u == context.tenant_id)
              cutoff
              (collected context exempt (values tables.collections))
              o
    go none = refl
    go (some s) = rw (in_tenant-key context.tenant_id u id ht hu) refl

contains-append :
    (xs ys : List Str) (id : Str) → contains (xs ++ ys) id ≡ (contains xs id || contains ys id)
unfolding contains
contains-append [] ys id = refl
contains-append (x ∷ xs) ys id = ground (arith, contains-append xs ys id)

collected-contains :
    (context : TenantContext) (k id : Str) (m : JsMap CollectionRecord) (c : CollectionRecord)
    → get k m ≡ some c
    → (c.tenant_id == context.tenant_id) ≡ true
    → contains c.session_ids id ≡ true
    → contains (collected context true (values m)) id ≡ true
unfolding collected get
collected-contains context k id [] c e own inside = cc
collected-contains context k id ((j, d) ∷ m) c e own inside = ground (
  arith,
  contains-append d.session_ids (collected context true (values m)) id,
  collected-contains context k id m c,
)

-- Whether a collection of the tenant holds the session.
abbrev in_collection : Str → Str → List CollectionRecord → Bool
in_collection tenant id =
    any (λ (c : CollectionRecord). c.tenant_id == tenant && contains c.session_ids id)

contains-collected :
    (context : TenantContext) (exempt : Bool) (id : Str) (cs : List CollectionRecord)
    → contains (collected context exempt cs) id ≡ (exempt && in_collection context.tenant_id id cs)
unfolding collected any contains
contains-collected context exempt id [] = ground arith
contains-collected context exempt id (c ∷ cs) = ground (
  arith,
  contains-append c.session_ids (collected context exempt cs) id,
  contains-collected context exempt id cs,
)

-- What is left of a session: it stays unless it is the tenant's own, older than the cutoff, and in
-- no collection of the tenant or not exempt for it.
abbrev pub kept :
    TenantContext
    → Str
    → Bool
    → MemoryTables
    → Bool
    → Option ArchivedSession
    → Option ArchivedSession
kept context cutoff exempt tables own none = none
kept context cutoff exempt tables own (some s) =
    if own
      && (str_lt s.updated_at cutoff
          && not (exempt && in_collection context.tenant_id s.id (values tables.collections)))
    then none
    else some s

kept_held-kept :
    (context : TenantContext) (cutoff : Str) (exempt : Bool) (tables : MemoryTables) (own : Bool)
    (o : Option ArchivedSession)
    → kept_held own cutoff (collected context exempt (values tables.collections)) o
      ≡ kept context cutoff exempt tables own o
kept_held-kept context cutoff exempt tables own none = refl
kept_held-kept context cutoff exempt tables own (some s) =
    ground (arith, contains-collected context exempt s.id (values tables.collections))

-- Retention deletes, of the tenant it runs for, exactly the sessions older than the cutoff that no
-- exempting collection of the tenant holds; it deletes no session of another tenant. Neither
-- tenant's identifier has a colon.
pub get-apply_retention :
    (context : TenantContext) (cutoff : Str) (exempt : Bool) (tables : MemoryTables) (u id : Str)
    → IsMap tables.sessions
    → NoColon context.tenant_id
    → NoColon u
    → get (key u id) (apply_retention context cutoff exempt tables).0.sessions
      ≡ kept context cutoff exempt tables (u == context.tenant_id) (get (key u id) tables.sessions)
get-apply_retention context cutoff exempt tables u id map ht hu =
    get-apply_retention_held context cutoff exempt tables u id map ht hu
    ∙ kept_held-kept context cutoff exempt tables (u == context.tenant_id)
        (get (key u id) tables.sessions)

-- With collections exempt, a session that a collection of its tenant holds survives retention,
-- however old it is.
pub get-apply_retention_collected :
    (context : TenantContext) (cutoff : Str) (tables : MemoryTables) (k : Str)
    (c : CollectionRecord) (id : Str) (session : ArchivedSession)
    → IsMap tables.sessions
    → NoColon context.tenant_id
    → get k tables.collections ≡ some c
    → (c.tenant_id == context.tenant_id) ≡ true
    → contains c.session_ids id ≡ true
    → get (key context.tenant_id id) tables.sessions ≡ some session
    → session.id ≡ id
    → get (key context.tenant_id id) (apply_retention context cutoff true tables).0.sessions
      ≡ some session
get-apply_retention_collected context cutoff tables k c id session map ht e own inside found same =
    let held : contains (collected context true (values tables.collections)) session.id ≡ true =
      rw same (collected-contains context k id tables.collections c e own inside) in
    rw (get-apply_retention_held context cutoff true tables context.tenant_id id map ht ht, found)
      (ground (arith, held))

left_of : List Str → RawArtifactRecord → List Str
left_of deleted artifact = filter (λ (id : Str). not (contains deleted id)) artifact.session_ids

-- The fate of one artifact.
pub swept_artifact : Str → List Str → Option RawArtifactRecord → Option RawArtifactRecord
swept_artifact tenant deleted none = none
swept_artifact tenant deleted (some a) =
    if not (a.tenant_id == tenant) || nat_eq (length a.session_ids) 0
    then some a
    else if nat_eq (length (left_of deleted a)) 0
    then none
    else some (record a { session_ids = left_of deleted a })

filter-all : (p : Str → Bool) (xs : List Str) → length (filter p xs) ≡ length xs → filter p xs ≡ xs
unfolding filter
filter-all p [] h = refl
filter-all p (x ∷ xs) h = ground (arith, filter-all p xs, length-filter-le p xs)

unfiltered :
    (deleted : List Str) (a : RawArtifactRecord)
    → length (left_of deleted a) ≡ length a.session_ids
    → record a { session_ids = left_of deleted a } ≡ a
unfolding left_of
unfiltered deleted a h = λ i. record a {
  session_ids = filter-all (λ (id : Str). not (contains deleted id)) a.session_ids h i;
}

has-sweep_artifacts :
    (tenant : Str) (deleted : List Str) (k : Str) (m : JsMap RawArtifactRecord)
    → has k m ≡ false
    → has k (sweep_artifacts tenant deleted m).0 ≡ false
unfolding sweep_artifacts has
has-sweep_artifacts tenant deleted k [] h = refl
has-sweep_artifacts tenant deleted k ((j, a) ∷ m) h =
    ground (arith, has-sweep_artifacts tenant deleted k m)

get-sweep_artifacts :
    (tenant : Str) (deleted : List Str) (k : Str) (m : JsMap RawArtifactRecord)
    → IsMap m
    → get k (sweep_artifacts tenant deleted m).0 ≡ swept_artifact tenant deleted (get k m)
unfolding sweep_artifacts swept_artifact get IsMap left_of
get-sweep_artifacts tenant deleted k [] h = refl
get-sweep_artifacts tenant deleted k ((j, a) ∷ m) h = ground (
  arith,
  eq_iff j k,
  get-sweep_artifacts tenant deleted k m h.1,
  get-absent j (sweep_artifacts tenant deleted m).0,
  has-sweep_artifacts tenant deleted j m h.0,
  nat_eq_iff (length (left_of deleted a)) (length a.session_ids),
  unfiltered deleted a,
)

length-sweep_artifacts :
    (tenant : Str) (deleted : List Str) (m : JsMap RawArtifactRecord)
    → length (sweep_artifacts tenant deleted m).0 + (sweep_artifacts tenant deleted m).1 ≡ length m
unfolding sweep_artifacts
length-sweep_artifacts tenant deleted [] = omega arith
length-sweep_artifacts tenant deleted ((j, a) ∷ m) =
    ground (arith, length-sweep_artifacts tenant deleted m)

-- Retention takes the deleted sessions off every artifact of the tenant, and deletes an artifact
-- exactly when it named sessions and all of them were deleted. The artifacts of other tenants stay
-- as they were, and the answer counts the deleted ones.
pub artifacts-apply_retention :
    (context : TenantContext) (cutoff : Str) (exempt : Bool) (tables : MemoryTables) (k : Str)
    → IsMap tables.artifacts
    → (get k (apply_retention context cutoff exempt tables).0.artifacts
        ≡ swept_artifact context.tenant_id
            (swept_ids context.tenant_id cutoff
              (collected context exempt (values tables.collections))
              tables.sessions
              [])
            (get k tables.artifacts))
      × (length (apply_retention context cutoff exempt tables).0.artifacts
            + (apply_retention context cutoff exempt tables).1.deleted_artifacts
          ≡ length tables.artifacts)
unfolding apply_retention
artifacts-apply_retention context cutoff exempt tables k map =
    let deleted =
      swept_ids context.tenant_id cutoff (collected context exempt (values tables.collections))
        tables.sessions [] in
    (
      get-sweep_artifacts context.tenant_id deleted k tables.artifacts map,
      length-sweep_artifacts context.tenant_id deleted tables.artifacts,
    )
