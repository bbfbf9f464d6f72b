-- ===== src/Store/Curation/Replacing.antt =====
-- What `replaceAnnotations` does to the annotations that it does not create.
use memoar.Prelude.{ℕ, suc, ◌≡◌, refl, ◌∙◌, inl, inr, false, List, [], ◌∷◌, ◌++◌, Option, none}
use memoar.Prelude.Tests.{Option-cases}
use memoar.Prelude.Str.{Str, ◌==◌}
use memoar.Prelude.JsMap.{delete_where, get, get-delete_where, get-set, IsMap, spared}
use memoar.Canonical.{Annotation, AnnotationKind, Fields, TenantContext}
use memoar.Store.Sessions.{get_session}
use memoar.Store.Tables.{Result-cases, key, MemoryTables, Owned}
use memoar.Store.Curation.{
  AnnotationInput, create_annotation, create_each, Draw, replace_annotations, replaced_row,
  with_origin,
}

module _ (context : TenantContext) (session_id : Str) (kind : AnnotationKind) (origin : Option Str)
    (draws : ℕ → Draw) (k : Str)
    (fresh : (n : ℕ) → (key context.tenant_id (draws n).id == k) ≡ false) where
  get-create_annotation :
      (input : AnnotationInput) (n : ℕ) (tables : MemoryTables)
      → get k (create_annotation context input (draws n) tables).0.annotations
        ≡ get k tables.annotations
  unfolding create_annotation
  get-create_annotation input n tables =
      elim (Option-cases (get_session context input.session_id tables)) [
        | inl e ↦ rw (create_annotation, e) refl
        | inr (s, e) ↦
            rw (create_annotation, e)
              (get-set (key context.tenant_id (draws n).id) k _ tables.annotations
                ∙ rw (fresh n) refl)
      ]

  get-create_each :
      (n : ℕ) (values : List Fields) (tables : MemoryTables) (created : List Annotation)
      → get k
          (create_each context session_id kind origin draws n values tables created).0.annotations
        ≡ get k tables.annotations
  unfolding create_each
  get-create_each n [] tables created = refl
  get-create_each n (value ∷ values) tables created =
      let input : AnnotationInput = record {
        session_id = session_id;
        turn_id = none;
        block_id = none;
        kind = kind;
        value = with_origin origin value;
      } in
      elim (Result-cases (create_annotation context input (draws n) tables).1) [
        | inl (a, e) ↦
            rw (create_each, e)
              (get-create_each (suc n) values (create_annotation context input (draws n) tables).0
                  (created ++ a ∷ [])
                ∙ get-create_annotation input n tables)
        | inr (d, e) ↦ rw (create_each, e) (get-create_annotation input n tables)
      ]

-- Of the annotations whose keys the call does not draw, a replacement deletes exactly those of the
-- tenant, the session, the kind and, if one is named, the origin; it leaves every other one as it
-- was, also when a creation fails.
pub get-replace_annotations :
    (context : TenantContext) (session_id : Str) (kind : AnnotationKind) (origin : Option Str)
    (draws : ℕ → Draw) (k : Str) (new_values : List Fields) (tables : MemoryTables)
    → ((n : ℕ) → (key context.tenant_id (draws n).id == k) ≡ false)
    → IsMap tables.annotations
    → get k
        (replace_annotations context session_id kind new_values origin draws tables).0.annotations
      ≡ spared (replaced_row context session_id kind origin) (get k tables.annotations)
unfolding replace_annotations
get-replace_annotations context session_id kind origin draws k new_values tables fresh map =
    let gone =
      λ (entry : Str) (a : Owned Annotation). replaced_row context session_id kind origin a in
    get-create_each context session_id kind origin draws k fresh 0 new_values
      (record tables { annotations = delete_where gone tables.annotations }) []
    ∙ get-delete_where gone k tables.annotations map
