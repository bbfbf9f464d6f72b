-- ===== src/Services/Sharing/Standing.antt =====
-- The grants and reviews that stand: active, not yet expired, completed and current.
use memoar.Prelude.{
  ℕ, ◌<◌, ◌≡◌, ◌⊎◌, refl, inl, inr, Bool, true, false, not, List, [], ◌∷◌, Option, none, some,
  arith,
}
use memoar.Prelude.Tests.{Bool-cases, ltb, Option-cases}
use memoar.Prelude.Lists.{any, find, find-passes}
use memoar.Prelude.Str.{Str, ◌==◌, eq_refl, eq_sound}
use memoar.Prelude.JsMap.{values}
use memoar.Canonical.{TenantContext}
use memoar.Host.{Host}
use memoar.Services.Sharing.{expired, is_active}
use memoar.Services.Sharing.Gate.{completed_sound}
use memoar.Store.Records.{completed, GrantStatus, RedactionReviewRecord}
use memoar.Store.Sharing.{get_current_review, is_current}
use memoar.Store.Tables.{MemoryTables}

-- A link's expiry that has not come: there is none, or it is a date after now.
abbrev pub Unexpired : Host → ℕ → Option Str → Type 0
Unexpired host now expires_at =
    (expires_at ≡ none)
    ⊎ ((e : Str) × ((expires_at ≡ some e)
          × ((e ≡ []) ⊎ ((t : ℕ) × ((host.time_of e ≡ some t) × (now < t))))))

-- A completed review among the stored ones, of a session of the tenant and of the digest.
pub record StandingReview (tenant session_id digest : Str) (tables : MemoryTables) : Type 0 where
  pub review : RedactionReviewRecord
  pub kept : any (λ (r : RedactionReviewRecord). r.id == review.id) (values tables.reviews) ≡ true
  pub of_tenant : review.tenant_id ≡ tenant
  pub of_session : review.session_id ≡ session_id
  pub finished : review.status ≡ completed
  pub current : review.content_digest ≡ digest

pub active_sound : (status : GrantStatus) → is_active status ≡ true → status ≡ GrantStatus.active
unfolding is_active
active_sound GrantStatus.active h = refl
active_sound GrantStatus.revoked h = cc
active_sound GrantStatus.expired h = cc

pub expired-Unexpired :
    (host : Host) (now : ℕ) (expires_at : Option Str)
    → expired host now expires_at ≡ false
    → Unexpired host now expires_at
unfolding expired
expired-Unexpired host now none h = inl refl
expired-Unexpired host now (some []) h = inr ([], (refl, inl refl))
expired-Unexpired host now (some (c ∷ cs)) h = elim (Option-cases (host.time_of (c ∷ cs))) [
  | inl e ↦ cc (rw e at h)
  | inr (t, e) ↦
      let later : not (ltb now t) ≡ false = rw e at h in
      inr (c ∷ cs, (refl, inr (t, (e, ground (arith, later)))))
]

found-kept :
    (p : RedactionReviewRecord → Bool) (rs : List RedactionReviewRecord) (r : RedactionReviewRecord)
    → find p rs ≡ some r
    → any (λ (x : RedactionReviewRecord). x.id == r.id) rs ≡ true
unfolding find any
found-kept p [] r h = cc
found-kept p (x ∷ rs) r h = elim (Bool-cases (p x)) [
  | inl e ↦
      let same : some x ≡ some r = rw e at h in
      let id : x.id ≡ r.id = cc in rw id (ground (arith, eq_refl r.id))
  | inr e ↦ let deeper = found-kept p rs r (rw e at h) in ground (arith, deeper)
]

pub get_current_review-StandingReview :
    (context : TenantContext) (session_id digest : Str) (tables : MemoryTables)
    (review : RedactionReviewRecord)
    → get_current_review context session_id digest tables ≡ some review
    → StandingReview context.tenant_id session_id digest tables
unfolding get_current_review is_current
get_current_review-StandingReview context session_id digest tables review h =
    let passes =
      find-passes (is_current context.tenant_id session_id digest) (values tables.reviews) review
        h in
    record {
      review = review;
      kept =
          found-kept (is_current context.tenant_id session_id digest) (values tables.reviews) review
            h;
      of_tenant = eq_sound review.tenant_id context.tenant_id (ground (arith, passes));
      of_session = eq_sound review.session_id session_id (ground (arith, passes));
      finished = completed_sound review.status (ground (arith, passes));
      current = eq_sound review.content_digest digest (ground (arith, passes));
    }
