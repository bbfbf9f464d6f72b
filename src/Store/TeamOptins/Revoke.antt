-- ===== src/Store/TeamOptins/Revoke.antt =====
-- Withdrawing from a team what was shared into it.
use memoar.Prelude.{
  ◌≡◌, ◌∙◌, refl, inl, inr, Bool, false, not, ◌&&◌, ◌||◌, Option, none, some, arith,
}
use memoar.Prelude.Tests.{if◌then◌else◌, Option-cases}
use memoar.Prelude.Str.{Str, ◌==◌, eq_refl, opt_eq, truthy?}
use memoar.Prelude.JsMap.{get, get-update_each}
use memoar.Canonical.{ArchivedSession, TenantContext, is_team, private}
use memoar.Store.Keys.{NoColon, in_tenant-key}
use memoar.Store.Tables.{MemoryTables, key}
use memoar.Store.TeamVisibility.{is_team_visible}
use memoar.Store.TeamOptins.{is_revoked, made_private, revoke_team_visibility}
use mathlib.Core.Option

-- What a revocation makes of a session.
abbrev pub withdrawn : Str → Option Str → Bool → ArchivedSession → ArchivedSession
withdrawn team_id machine_id own s =
    if own
      && (is_team_visible s.visibility team_id
          && (not (truthy? machine_id) || opt_eq (some s.source.machine_id) machine_id))
    then record s {
      visibility = record {
        scope = private;
        owner_id = s.visibility.owner_id;
        team_id = none;
        org_id = none;
      };
    }
    else s

-- A revocation makes private, for its owner, exactly the tenant's sessions that the team could see
-- and that came from the named machine, or from any machine if none is named. It changes no other
-- session: none of another tenant, none that another team sees. Neither tenant has a colon.
pub get-revoke_team_visibility :
    (context : TenantContext) (team_id : Str) (machine_id : Option Str) (tables : MemoryTables)
    (u id : Str)
    → NoColon context.tenant_id
    → NoColon u
    → get (key u id) (revoke_team_visibility context team_id machine_id tables).0.sessions
      ≡ Option.map
          (withdrawn team_id machine_id (u == context.tenant_id))
          (get (key u id) tables.sessions)
unfolding revoke_team_visibility is_revoked made_private
get-revoke_team_visibility context team_id machine_id tables u id ht hu =
    get-update_each
      (λ entry session.
        if is_revoked context.tenant_id team_id machine_id entry session
        then made_private session
        else session)
      (key u id) tables.sessions
    ∙ rw (in_tenant-key context.tenant_id u id ht hu) refl

made_private-hidden :
    (s : ArchivedSession) (team : Str) → is_team_visible (made_private s).visibility team ≡ false
unfolding made_private is_team_visible is_team
made_private-hidden s team = refl

-- After a revocation that names no machine the team sees no session of the tenant.
pub revoke_team_visibility-hidden :
    (context : TenantContext) (team_id : Str) (tables : MemoryTables) (id : Str)
    (s : ArchivedSession)
    → NoColon context.tenant_id
    → get (key context.tenant_id id) (revoke_team_visibility context team_id none tables).0.sessions
      ≡ some s
    → is_team_visible s.visibility team_id ≡ false
unfolding made_private is_team_visible is_team
revoke_team_visibility-hidden context team_id tables id s nc h =
    elim (Option-cases (get (key context.tenant_id id) tables.sessions)) [
      | inl e ↦
          cc (get-revoke_team_visibility context team_id none tables context.tenant_id id nc nc)
      | inr (x, e) ↦ ground (
        arith,
        e,
        h,
        eq_refl context.tenant_id,
        made_private-hidden x team_id,
        get-revoke_team_visibility context team_id none tables context.tenant_id id nc nc,
      )
    ]
