-- ===== src/Services/Sharing/Links.antt =====
-- A share link from its grant to its end: what opens it and what closes it.
use memoar.Prelude.{
  ◌≡◌, ◌⊎◌, refl, ap, ◌∙◌, inl, inr, Bool, true, false, List, [], ◌∷◌, none, some, arith, ℕ,
}
use memoar.Prelude.Tests.{Bool-cases, Option-cases}
use memoar.Prelude.Lists.{All, filter, find, find-passes}
use memoar.Prelude.Str.{Str, ◌==◌, eq_iff, eq_refl}
use memoar.Prelude.JsMap.{get, get-set_self, has, IsMap, JsMap, set, values}
use memoar.Canonical.{ArchivedSession, TenantContext}
use memoar.Services.{Answer, answered, done, failed, not_found}
use memoar.Services.Sharing.{
  complete_review, consume_share, create_link, CreateShareLink, expired, grant_of, is_active,
  is_review_of, Numbers, resolve_share_token, revoke, granted_session, require_current_review,
  review_of, projected, projection_for,
}
use memoar.Store.Curation.{list_annotations}
use memoar.Store.Records.{GrantStatus, RedactionReviewRecord, ShareGrantRecord}
use memoar.Store.Sessions.{get_session}
use memoar.Store.Sharing.{
  get_current_review, get_review, get_share_grant_by_token_hash, is_completed, is_current,
  list_share_grants, lookup_of, save_review, save_share_grant, World,
}
use memoar.Store.Tables.{key, MemoryTables, ok, Result}
use memoar.Store.Settings.{get_tenant_settings}
use memoar.Store.TransferCopy.{session_content_digest}

module _ {A : Type 0} (p : A → Bool) where
  -- A value that passes is found once it is stored, if none passed before.
  find-set_new :
      (k : Str) (v : A) (m : JsMap A)
      → find p (values m) ≡ none
      → p v ≡ true
      → find p (values (set k v m)) ≡ some v
  unfolding set find
  find-set_new k v [] h t = rw t refl
  find-set_new k v ((j, w) ∷ m) h t = ground (arith, h, t, find-set_new k v m)

  -- Storing a value that passes leaves some value that passes.
  find-set_any :
      (k : Str) (v : A) (m : JsMap A)
      → p v ≡ true
      → (w : A) × (find p (values (set k v m)) ≡ some w)
  unfolding set find
  find-set_any k v [] t = (v, rw t refl)
  find-set_any k v ((j, w) ∷ m) t = elim (Bool-cases (j == k)) [
    | inl e ↦ (v, rw (e, t) refl)
    | inr e ↦ elim (Bool-cases (p w)) [
      | inl q ↦ (w, rw (e, q) refl)
      | inr q ↦ let (x, r) = find-set_any k v m t in (x, rw (e, q) r)
    ]
  ]

-- Every grant is stored under its own key.
abbrev pub IsKeyed : JsMap ShareGrantRecord → Type 0
IsKeyed = All (λ (e : Str × ShareGrantRecord). e.0 ≡ key e.1.tenant_id e.1.id)

module _ (p : ShareGrantRecord → Bool) where
  -- What is found is the first value or comes later.
  found_first_or_later :
      (w g : ShareGrantRecord) (ws : List ShareGrantRecord)
      → find p (w ∷ ws) ≡ some g
      → ((p w ≡ true) × (w ≡ g)) ⊎ ((p w ≡ false) × (find p ws ≡ some g))
  unfolding find
  found_first_or_later w g ws h = elim (Bool-cases (p w)) [
    | inl q ↦ inl (q, grind arith)
    | inr q ↦ inr (q, grind arith)
  ]

  find-has :
      (m : JsMap ShareGrantRecord) (g : ShareGrantRecord)
      → IsKeyed m
      → find p (values m) ≡ some g
      → has (key g.tenant_id g.id) m ≡ true
  unfolding find has
  find-has [] g keyed h = cc
  find-has ((j, w) ∷ m) g keyed h = elim (found_first_or_later w g (values m) h) [
    | inl (q, e) ↦ grind (arith, eq_refl)
    | inr (q, r) ↦ ground (arith, find-has m g keyed.1 r)
  ]

  find-get :
      (m : JsMap ShareGrantRecord) (g : ShareGrantRecord)
      → IsKeyed m
      → IsMap m
      → find p (values m) ≡ some g
      → get (key g.tenant_id g.id) m ≡ some g
  unfolding find get IsMap
  find-get [] g keyed map h = cc
  find-get ((j, w) ∷ m) g keyed map h = elim (found_first_or_later w g (values m) h) [
    | inl (q, e) ↦ grind (arith, eq_refl)
    | inr (q, r) ↦ ground (
      arith,
      map.0,
      eq_iff j (key g.tenant_id g.id),
      find-has m g keyed.1 r,
      find-get m g keyed.1 map.1 r,
    )
  ]

  find-set_same :
      (m : JsMap ShareGrantRecord) (g v : ShareGrantRecord)
      → IsKeyed m
      → IsMap m
      → find p (values m) ≡ some g
      → p v ≡ true
      → find p (values (set (key g.tenant_id g.id) v m)) ≡ some v
  unfolding find set IsMap
  find-set_same [] g v keyed map h t = cc
  find-set_same ((j, w) ∷ m) g v keyed map h t = elim (found_first_or_later w g (values m) h) [
    | inl (q, e) ↦ grind (arith, eq_refl)
    | inr (q, r) ↦ ground (
      arith,
      t,
      q,
      map.0,
      eq_iff j (key g.tenant_id g.id),
      find-has m g keyed.1 r,
      find-set_same m g v keyed.1 map.1 r t,
    )
  ]

module _ (world : World) (numbers : Numbers) (context : TenantContext) (body : CreateShareLink)
    (id token : Str) (now : ℕ) (tables : MemoryTables) (session : ArchivedSession)
    (stored : get_session context body.session_id tables ≡ some session)
    (unused : get_share_grant_by_token_hash (world.host.sha256 token) tables ≡ none)
    (unexpired : expired world.host now body.expires_at ≡ false) where
  abbrev review : RedactionReviewRecord
  review =
      review_of world numbers context body.redaction_review_id body.session_id session
        (list_annotations context (some body.session_id) tables)

  abbrev reviewed : MemoryTables
  reviewed = record tables {
    reviews = set (key context.tenant_id body.redaction_review_id) review tables.reviews;
  }

  abbrev grant : ShareGrantRecord
  grant = grant_of world context body id token

  abbrev shared : MemoryTables
  shared = record reviewed { grants = set (key context.tenant_id id) grant tables.grants }

  at_key : get (key context.tenant_id body.session_id) tables.sessions ≡ some session
  unfolding get_session
  at_key = stored

  saved_review : save_review context review tables ≡ (reviewed, ok tt)
  unfolding save_review review_of
  saved_review = rw (eq_refl context.tenant_id, save_review) refl

  saved_grant : save_share_grant context grant reviewed ≡ (shared, ok tt)
  unfolding save_share_grant grant_of
  saved_grant = rw (eq_refl context.tenant_id, save_share_grant) refl

  completed_review :
      complete_review world numbers context body.redaction_review_id body.session_id tables
      ≡ (reviewed, done review)
  unfolding complete_review get_session
  completed_review =
      rw (at_key, complete_review, saved_review)
        (ap (λ (r : MemoryTables × Result (Unit {0})). (r.0, done review)) saved_review)

  accepted_review :
      is_review_of body.session_id
        (session_content_digest world.host world.stringify session)
        review
      ≡ true
  unfolding is_review_of is_completed review_of
  accepted_review =
      rw
        (
          is_review_of,
          eq_refl body.session_id,
          eq_refl (session_content_digest world.host world.stringify session),
        )
        refl

  created_link : create_link world context body id token reviewed ≡ (shared, done (grant, token))
  unfolding create_link require_current_review get_review get_session
  created_link =
      rw
        (
          at_key,
          create_link,
          require_current_review,
          get-set_self (key context.tenant_id body.redaction_review_id) review tables.reviews,
          accepted_review,
          saved_grant,
        )
        (ap (λ (r : MemoryTables × Result (Unit {0})). (r.0, done (grant, token))) saved_grant)

  no_grant :
      find
        (λ (g : ShareGrantRecord). g.token_hash == world.host.sha256 token)
        (values tables.grants)
      ≡ none
  unfolding get_share_grant_by_token_hash
  no_grant =
      elim (Option-cases (
        find (λ (g : ShareGrantRecord). g.token_hash == world.host.sha256 token)
          (values tables.grants))) [
            | inl e ↦ e
            | inr (g, e) ↦
                let seen : get_share_grant_by_token_hash (world.host.sha256 token) tables
                    ≡ some (lookup_of g) =
                  rw (e, get_share_grant_by_token_hash) refl in
                cc
          ]

  found_grant :
      get_share_grant_by_token_hash (world.host.sha256 token) shared ≡ some (lookup_of grant)
  unfolding get_share_grant_by_token_hash grant_of
  found_grant =
      rw
        (
          find-set_new (λ (g : ShareGrantRecord). g.token_hash == world.host.sha256 token)
              (key context.tenant_id id) grant tables.grants no_grant
              (eq_refl (world.host.sha256 token)),
          get_share_grant_by_token_hash,
        )
        refl

  current :
      (r : RedactionReviewRecord) × (find
          (is_current context.tenant_id body.session_id
            (session_content_digest world.host world.stringify session))
          (values reviewed.reviews)
        ≡ some r)
  unfolding is_current is_completed review_of
  current =
      find-set_any
        (is_current context.tenant_id body.session_id
          (session_content_digest world.host world.stringify session))
        (key context.tenant_id body.redaction_review_id) review tables.reviews
        (rw
          (
            eq_refl context.tenant_id,
            eq_refl body.session_id,
            eq_refl (session_content_digest world.host world.stringify session),
          )
          refl)

  found_session : granted_session world (lookup_of grant) shared ≡ some session
  unfolding granted_session get_current_review lookup_of grant_of get_session
  found_session = rw (at_key, granted_session, current.1, get_current_review) refl

  opened :
      consume_share world now token shared
      ≡ done (projected world (lookup_of grant) session tables, body.permission, body.expires_at)
  unfolding consume_share resolve_share_token is_active lookup_of grant_of projected projection_for
      list_annotations get_tenant_settings
  opened = rw (found_grant, consume_share, resolve_share_token, unexpired, found_session) refl

  -- Once a review of a stored session is completed, a link made on it opens the session, as the
  -- owner's patterns and masks leave it, until the link expires. It opens for the token it is
  -- made with, if no earlier link has that token's hash.
  pub consume_share-create_link :
      consume_share world now token
        (create_link world context body id token
          (complete_review world numbers context body.redaction_review_id body.session_id
            tables).0).0
      ≡ done (projected world (lookup_of grant) session tables, body.permission, body.expires_at)
  unfolding consume_share resolve_share_token is_active
  consume_share-create_link =
      ap
        (λ (t : MemoryTables × Answer RedactionReviewRecord).
          consume_share world now token (create_link world context body id token t.0).0)
        completed_review
      ∙ (ap
            (λ (t : MemoryTables × Answer (ShareGrantRecord × Str)).
              consume_share world now token t.0)
            created_link
          ∙ opened)

-- What a tenant's list finds by an identifier is what the table has under their key.
find_listed :
    (t : Str) (m : JsMap ShareGrantRecord) (g : ShareGrantRecord)
    → IsKeyed m
    → g.tenant_id ≡ t
    → get (key g.tenant_id g.id) m ≡ some g
    → find
        (λ (x : ShareGrantRecord). x.id == g.id)
        (filter (λ (x : ShareGrantRecord). x.tenant_id == t) (values m))
      ≡ some g
unfolding get find filter
find_listed t [] g keyed own h = cc
find_listed t ((j, w) ∷ m) g keyed own h = elim (Bool-cases (j == key g.tenant_id g.id)) [
  | inl e ↦ ground (arith, eq_refl g.id, eq_iff w.tenant_id t, eq_iff w.id g.id, own, e, h)
  | inr e ↦ ground (
    arith,
    eq_iff j (key g.tenant_id g.id),
    keyed.0,
    own,
    eq_iff w.tenant_id t,
    eq_iff w.id g.id,
    find_listed t m g keyed.1 own,
  )
]

-- A link is closed for good: what a grant's token finds once the grant is revoked.
module _ (world : World) (context : TenantContext) (token : Str) (now : ℕ) (tables : MemoryTables)
    (grant : ShareGrantRecord) (keyed : IsKeyed tables.grants) (map : IsMap tables.grants)
    (named : find
        (λ (g : ShareGrantRecord). g.token_hash == world.host.sha256 token)
        (values tables.grants)
      ≡ some grant) where
  abbrev closed : ShareGrantRecord
  closed = record grant { status = GrantStatus.revoked }

  -- What `revoke` finds by the identifier is the grant.
  listed :
      (own : grant.tenant_id ≡ context.tenant_id)
      → find (λ (g : ShareGrantRecord). g.id == grant.id) (list_share_grants context tables)
        ≡ some grant
  unfolding list_share_grants
  listed own = find_listed context.tenant_id tables.grants grant keyed own (
      find-get (λ (g : ShareGrantRecord). g.token_hash == world.host.sha256 token) tables.grants
        grant keyed map named)

  abbrev after : MemoryTables
  after = record tables { grants = set (key grant.tenant_id grant.id) closed tables.grants }

  stored_closed :
      (own : grant.tenant_id ≡ context.tenant_id)
      → save_share_grant context closed tables ≡ (after, ok tt)
  unfolding save_share_grant
  stored_closed own = rw (save_share_grant, ← own, eq_refl grant.tenant_id) refl

  revoked :
      (own : grant.tenant_id ≡ context.tenant_id)
      → revoke context grant.id tables ≡ (after, done tt)
  unfolding revoke answered
  revoked own =
      rw (listed own, revoke)
        (ap (λ (r : MemoryTables × Result (Unit {0})). (r.0, answered r.1)) (stored_closed own))

  found_closed :
      get_share_grant_by_token_hash (world.host.sha256 token) after ≡ some (lookup_of closed)
  unfolding get_share_grant_by_token_hash
  found_closed =
      rw
        (
          find-set_same (λ (g : ShareGrantRecord). g.token_hash == world.host.sha256 token)
              tables.grants grant closed keyed map named
              (find-passes (λ (g : ShareGrantRecord). g.token_hash == world.host.sha256 token)
                (values tables.grants) grant named),
          get_share_grant_by_token_hash,
        )
        refl

  unopened : consume_share world now token after ≡ failed not_found
  unfolding consume_share resolve_share_token is_active lookup_of
  unopened = rw (found_closed, consume_share, resolve_share_token) refl

  -- A revoked link opens nothing: in a table that keeps each grant once, under its tenant and
  -- identifier, the owner's revocation succeeds, and the grant's token then finds nothing.
  pub consume_share-revoke :
      grant.tenant_id ≡ context.tenant_id
      → ((revoke context grant.id tables).1 ≡ done tt)
        × (consume_share world now token (revoke context grant.id tables).0 ≡ failed not_found)
  consume_share-revoke own = (
    ap (λ (r : MemoryTables × Answer (Unit {0})). r.1) (revoked own),
    ap (λ (r : MemoryTables × Answer (Unit {0})). consume_share world now token r.0) (revoked own)
        ∙ unopened,
  )
