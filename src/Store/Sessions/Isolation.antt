-- ===== src/Store/Sessions/Isolation.antt =====
-- What the operations on sessions of one tenant leave to the others.
use memoar.Prelude.{◌≡◌, ◌≢◌, refl, inl, inr, false, [], ◌∷◌, arith}
use memoar.Prelude.Tests.{Option-cases}
use memoar.Prelude.Lists.{filter}
use memoar.Prelude.Str.{Str, eq_iff, ne→eq_false}
use memoar.Prelude.JsMap.{JsMap, get, set, delete, get-set, get-delete}
use memoar.Host.{Host}
use memoar.Canonical.{ArchivedSession, TenantContext, Visibility}
use memoar.Canonical.Clean.{without_nul_bytes}
use memoar.Store.Keys.{NoColon, in_tenant, in_tenant-key, key_other}
use memoar.Store.Tables.{MemoryTables, key}
use memoar.Store.Sessions.{
  tenant_sessions, save_session, stored_form, update_session_visibility, delete_session,
}

-- The calls that write the table of sessions.
pub data SessionCall : Type 0 where
  save : ArchivedSession → SessionCall
  publish : Str → Visibility → SessionCall
  remove : Str → SessionCall

pub perform : Host → TenantContext → SessionCall → MemoryTables → MemoryTables
perform host context (save session) tables = save_session host context session tables
perform host context (publish id visibility) tables =
    (update_session_visibility context id visibility tables).0
perform host context (remove id) tables = (delete_session context id tables).0

tenant_sessions-set :
    (u k : Str) (v : ArchivedSession) (m : JsMap ArchivedSession)
    → in_tenant u k ≡ false
    → tenant_sessions u (set k v m) ≡ tenant_sessions u m
unfolding tenant_sessions set filter
tenant_sessions-set u k v [] h = rw h
tenant_sessions-set u k v ((j, w) ∷ m) h = ground (arith, eq_iff j k, tenant_sessions-set u k v m h)

tenant_sessions-delete :
    (u k : Str) (m : JsMap ArchivedSession)
    → in_tenant u k ≡ false
    → tenant_sessions u (delete k m) ≡ tenant_sessions u m
unfolding tenant_sessions delete filter
tenant_sessions-delete u k [] h = refl
tenant_sessions-delete u k ((j, w) ∷ m) h =
    ground (arith, eq_iff j k, tenant_sessions-delete u k m h)

-- A tenant's view of the table: what each identifier finds, and what the listings see.
pub record SameView (u : Str) (before after : MemoryTables) : Type 0 where
  pub found : (id : Str) → get (key u id) after.sessions ≡ get (key u id) before.sessions
  pub listed : tenant_sessions u after.sessions ≡ tenant_sessions u before.sessions

module _ (t u : Str) (ht : NoColon t) (hu : NoColon u) (ne : t ≢ u) (tables : MemoryTables) where
  outside : (id : Str) → in_tenant u (key t id) ≡ false
  outside id = rw (in_tenant-key u t id hu ht) (ne→eq_false t u ne)

  SameView-set :
      (id : Str) (s : ArchivedSession)
      → SameView u tables (record tables { sessions = set (key t id) s tables.sessions })
  SameView-set id s = record {
    found =
        λ j. rw (get-set (key t id) (key u j) s tables.sessions, key_other t u id j ht hu ne) refl;
    listed = tenant_sessions-set u (key t id) s tables.sessions (outside id);
  }

  SameView-delete :
      (id : Str)
      → SameView u tables (record tables { sessions = delete (key t id) tables.sessions })
  SameView-delete id = record {
    found =
        λ j. rw (get-delete (key t id) (key u j) tables.sessions, key_other t u id j ht hu ne) refl;
    listed = tenant_sessions-delete u (key t id) tables.sessions (outside id);
  }

-- No save, deletion or change of visibility by one tenant changes which sessions another tenant
-- finds or lists, whatever the identifiers are, when neither tenant's identifier has a colon.
pub perform-SameView :
    (host : Host) (context : TenantContext) (u : Str) (call : SessionCall) (tables : MemoryTables)
    → NoColon context.tenant_id
    → NoColon u
    → context.tenant_id ≢ u
    → SameView u tables (perform host context call tables)
unfolding perform save_session update_session_visibility delete_session
perform-SameView host context u (save session) tables ht hu ne =
    SameView-set context.tenant_id u ht hu ne tables (without_nul_bytes session).id
      (stored_form host context tables session)
perform-SameView host context u (publish id visibility) tables ht hu ne =
    elim (Option-cases (get (key context.tenant_id id) tables.sessions)) [
      | inl e ↦
          rw (e, perform, update_session_visibility) (record { found = λ j. refl; listed = refl })
      | inr (s, e) ↦
          rw (e, perform, update_session_visibility)
            (SameView-set context.tenant_id u ht hu ne tables id
              (record s { visibility = visibility }))
    ]
perform-SameView host context u (remove id) tables ht hu ne =
    SameView-delete context.tenant_id u ht hu ne tables id
