-- ===== src/Services/Sharing/Gate.antt =====
-- What a change of visibility rests on.
use memoar.Prelude.{
  ◌≡◌, ◌⊎◌, refl, sym, ap, ◌∙◌, inl, inr, true, false, Option, none, some, [], ◌∷◌, arith,
}
use memoar.Prelude.Tests.{if◌then◌else◌, Bool-cases, Option-cases}
use memoar.Prelude.Str.{Str, truthy, eq_sound}
use memoar.Prelude.JsMap.{get, get-set_self}
use memoar.Canonical.{ArchivedSession, private, team, org, link, Scope, TenantContext, Visibility}
use memoar.Services.{Answer, done, failed, Failure, forbidden, not_found, review_required}
use memoar.Services.Sharing.{
  is_private, is_review_of, is_stranger, present, require_current_review, reviewed_by,
  update_visibility, UpdateVisibility, widened,
}
use memoar.Store.Records.{completed, pending, RedactionReviewRecord, ReviewStatus, superseded}
use memoar.Store.Sessions.{get_session, update_session_visibility}
use memoar.Store.Sharing.{get_review, is_completed, World}
use memoar.Store.Tables.{key, MemoryTables}
use memoar.Store.Teams.{is_team_member}
use memoar.Store.TransferCopy.{session_content_digest}

Answer-cases :
    {A : Type 0} (r : Answer A) → ((a : A) × (r ≡ done a)) ⊎ ((e : Failure) × (r ≡ failed e))
Answer-cases (done a) = inl (a, refl)
Answer-cases (failed e) = inr (e, refl)

-- The stored review under the identifier: completed, of the session, and of its present content.
pub record HasReview (world : World) (context : TenantContext) (session_id review_id : Str)
    (tables : MemoryTables) (session : ArchivedSession) : Type 0 where
  pub review : RedactionReviewRecord
  pub kept : get (key context.tenant_id review_id) tables.reviews ≡ some review
  pub of_session : review.session_id ≡ session_id
  pub finished : review.status ≡ completed
  pub current : review.content_digest ≡ session_content_digest world.host world.stringify session

pub completed_sound : (status : ReviewStatus) → is_completed status ≡ true → status ≡ completed
unfolding is_completed
completed_sound completed h = refl
completed_sound pending h = cc
completed_sound superseded h = cc

is_review_of-HasReview :
    (world : World) (context : TenantContext) (session_id review_id : Str) (tables : MemoryTables)
    (session : ArchivedSession) (review : RedactionReviewRecord)
    → get_review context review_id tables ≡ some review
    → is_review_of session_id (session_content_digest world.host world.stringify session) review
      ≡ true
    → HasReview world context session_id review_id tables session
unfolding is_review_of get_review
is_review_of-HasReview world context session_id review_id tables session review kept h = record {
  review = review;
  kept = kept;
  of_session = eq_sound review.session_id session_id (ground (arith, h));
  finished = completed_sound review.status (ground (arith, h));
  current = eq_sound review.content_digest _ (ground (arith, h));
}

module _ (world : World) (context : TenantContext) (session_id review_id : Str)
    (tables : MemoryTables) where
  abbrev outcome : Answer ArchivedSession
  outcome = require_current_review world context session_id review_id tables

  missing : get_session context session_id tables ≡ none → outcome ≡ failed not_found
  unfolding require_current_review
  missing e = rw (e, require_current_review) refl

  checked :
      (s : ArchivedSession)
      → get_session context session_id tables ≡ some s
      → outcome ≡ (
          if reviewed_by session_id
            (session_content_digest world.host world.stringify s)
            (get_review context review_id tables)
          then done s
          else failed review_required)
  unfolding require_current_review
  checked s e = rw (e, require_current_review) refl

  require_current_review-HasReview :
      (session : ArchivedSession)
      → outcome ≡ done session
      → (get_session context session_id tables ≡ some session)
        × HasReview world context session_id review_id tables session
  require_current_review-HasReview session h =
      elim (Option-cases (get_session context session_id tables)) [
        | inl e ↦ cc (missing e)
        | inr (s, e) ↦ elim (Option-cases (get_review context review_id tables)) [
          | inl r ↦ let unreviewed : outcome ≡ failed review_required = rw r at (checked s e) in cc
          | inr (review, r) ↦
              elim (Bool-cases (
                is_review_of session_id (session_content_digest world.host world.stringify s)
                  review)) [
                    | inr q ↦
                        let unreviewed : outcome ≡ failed review_required =
                          rw (r, q) at (checked s e) in
                        cc
                    | inl q ↦
                        let granted : outcome ≡ done s = rw (r, q) at (checked s e) in
                        let of_this : is_review_of session_id
                              (session_content_digest world.host world.stringify session) review
                            ≡ true =
                          cc in
                        (
                          cc,
                          is_review_of-HasReview world context session_id review_id tables session
                              review r of_this,
                        )
                  ]
        ]
      ]

private_sound : (s : Scope) → is_private s ≡ true → s ≡ private
unfolding is_private
private_sound private h = refl
private_sound team h = cc
private_sound org h = cc
private_sound link h = cc

-- Who is no stranger asks for no team, or is a member of the one asked for.
stranger_sound :
    (context : TenantContext) (asked : Option Str) (tables : MemoryTables)
    → is_stranger context asked tables ≡ false
    → (present asked ≡ none)
      ⊎ ((team_id : Str) × ((present asked ≡ some team_id)
            × ((asked ≡ some team_id) × (is_team_member team_id context.user_id tables ≡ true))))
unfolding is_stranger
stranger_sound context none tables h = inl refl
stranger_sound context (some []) tables h = inl refl
stranger_sound context (some (c ∷ cs)) tables h = inr (c ∷ cs, (refl, (refl, ground (arith, h))))

-- The table after a change of visibility.
get-update_session_visibility :
    (context : TenantContext) (session_id : Str) (visibility : Visibility) (tables : MemoryTables)
    (session : ArchivedSession)
    → get_session context session_id tables ≡ some session
    → get
        (key context.tenant_id session_id)
        (update_session_visibility context session_id visibility tables).0.sessions
      ≡ some (record session { visibility = visibility })
unfolding get_session update_session_visibility
get-update_session_visibility context session_id visibility tables session e =
    rw (update_session_visibility, e)
      (get-set_self (key context.tenant_id session_id) (record session { visibility = visibility })
        tables.sessions)

-- What a change of visibility rests on, and what it writes.
pub record Widened (world : World) (context : TenantContext) (session_id : Str)
    (body : UpdateVisibility) (tables : MemoryTables) (visibility : Visibility) : Type 0 where
  pub session : ArchivedSession
  pub stored : get_session context session_id tables ≡ some session
  pub scope : visibility.scope ≡ body.scope
  pub owner : visibility.owner_id ≡ session.visibility.owner_id
  pub reviewed :
      (body.scope ≡ private)
      ⊎ ((review_id : Str) × ((body.redaction_review_id ≡ some review_id)
            × HasReview world context session_id review_id tables session))
  pub team :
      (visibility.team_id ≡ none)
      ⊎ ((team_id : Str) × ((visibility.team_id ≡ some team_id)
            × ((body.team_id ≡ some team_id)
                × (is_team_member team_id context.user_id tables ≡ true))))
  pub written :
      get
        (key context.tenant_id session_id)
        (update_visibility world context session_id body tables).0.sessions
      ≡ some (record session { visibility = visibility })

module _ (world : World) (context : TenantContext) (session_id : Str) (body : UpdateVisibility)
    (tables : MemoryTables) where
  abbrev allowed : Answer ArchivedSession
  allowed = widened world context session_id body tables

  widened-reviewed :
      (session : ArchivedSession)
      → allowed ≡ done session
      → (get_session context session_id tables ≡ some session)
        × ((body.scope ≡ private)
            ⊎ ((review_id : Str) × ((body.redaction_review_id ≡ some review_id)
                  × HasReview world context session_id review_id tables session)))
  unfolding widened
  widened-reviewed session h = elim (Bool-cases (is_private body.scope)) [
    | inl p ↦ elim (Option-cases (get_session context session_id tables)) [
      | inl e ↦ let absent : allowed ≡ failed not_found = rw (p, e, widened) refl in cc
      | inr (s, e) ↦
          let given : allowed ≡ done s = rw (p, e, widened) refl in
          (cc, inl (private_sound body.scope p))
    ]
    | inr p ↦ elim (Option-cases body.redaction_review_id) [
      | inl e ↦ let refused : allowed ≡ failed review_required = rw (p, e, widened) refl in cc
      | inr (id, e) ↦ elim (Bool-cases (truthy id)) [
        | inl t ↦
            let asked : allowed ≡ require_current_review world context session_id id tables =
              rw (p, e, t, widened) refl in
            let (stored, r) =
              require_current_review-HasReview world context session_id id tables session
                (sym asked ∙ h) in
            (stored, inr (id, (e, r)))
        | inr t ↦ let refused : allowed ≡ failed review_required = rw (p, e, t, widened) refl in cc
      ]
    ]
  ]

  abbrev chosen : ArchivedSession → Visibility
  chosen s = record {
    scope = body.scope;
    owner_id = s.visibility.owner_id;
    team_id = present body.team_id;
    org_id = present body.org_id;
  }

  -- A visibility wider than private is given only to a stored session whose present content has
  -- the completed review that the request names. A team is written into it only if it is the one
  -- that the request names and the caller is a member of it, the owner never changes, and what is
  -- answered is what stands in the table afterwards.
  pub update_visibility-Widened :
      (visibility : Visibility)
      → (update_visibility world context session_id body tables).1 ≡ done visibility
      → Widened world context session_id body tables visibility
  unfolding update_visibility
  update_visibility-Widened visibility h = elim (Answer-cases allowed) [
    | inr (e, a) ↦
        let refused : (update_visibility world context session_id body tables).1 ≡ failed e =
          rw (a, update_visibility) refl in
        cc
    | inl (s, a) ↦ elim (Bool-cases (is_stranger context body.team_id tables)) [
      | inl b ↦
          let refused : (update_visibility world context session_id body tables).1
              ≡ failed forbidden =
            rw (a, b, update_visibility) refl in
          cc
      | inr b ↦
          let given : update_visibility world context session_id body tables ≡ (
            (update_session_visibility context session_id (chosen s) tables).0,
            done (chosen s),
          ) =
            rw (a, b, update_visibility) refl in
          let answered : done (chosen s) ≡ done visibility = sym (ap (λ p. p.1) given) ∙ h in
          let same : chosen s ≡ visibility = cc in
          let (stored, reviewed) = widened-reviewed s a in
          let as_chosen : Widened world context session_id body tables (chosen s) = record {
            session = s;
            stored = stored;
            scope = refl;
            owner = refl;
            reviewed = reviewed;
            team = stranger_sound context body.team_id tables b;
            written =
                ap (λ p. get (key context.tenant_id session_id) p.0.sessions) given
                ∙ get-update_session_visibility context session_id (chosen s) tables s stored;
          } in
          rw same at as_chosen
    ]
  ]
