-- ===== src/Store/Sessions/Tests.antt =====
-- Runs of the table of sessions.
use memoar.Prelude.{◌≡◌, refl, [], ◌∷◌, none, some}
use memoar.Prelude.Lists.{filter, last?, sort_by}
use memoar.Prelude.Str.{codes, ◌==◌, starts_with, str_lt}
use memoar.Canonical.{machine, SessionFilter}
use memoar.Store.Keys.{in_tenant}
use memoar.Store.Tables.{key, MemoryTables}
use memoar.Store.Sessions.{Identity, list_sessions, matches}
use memoar.Store.Sessions.Isolation.{perform, perform-SameView, SameView, SessionCall}
use memoar.Examples.{
  ann, ann-NoColon, ann_is_not_bob, bob, bob-NoColon, host, session, session_named, tables,
}

abbrev two_sessions : MemoryTables
two_sessions = record tables {
  sessions = (codes "a:s", session) ∷ (codes "a:r", session_named (codes "r") (codes "4")) ∷ [];
}

abbrev first_page : SessionFilter
first_page = record {
  agent = some (codes "cli");
  workspace = none;
  machine_id = none;
  model = none;
  since = none;
  until = none;
  cursor = none;
  limit = 1;
}

abbrev identity : Identity
identity = record {
  source_tool = codes "cli";
  source_version = codes "1";
  native_session_id = codes "n";
}

perform-SameView_example :
    SameView bob.tenant_id tables (perform host ann (SessionCall.save session) tables)
perform-SameView_example =
    perform-SameView host ann bob.tenant_id (SessionCall.save session) tables ann-NoColon
      bob-NoColon ann_is_not_bob

two_pages : (list_sessions host ann first_page two_sessions).next_cursor ≡ some (codes "4|r")
unfolding list_sessions in_tenant filter sort_by starts_with key matches ◌==◌ str_lt last?
two_pages = refl

-- Everything of the first tenant, as a search by one of its team's members lists it.
pub listed :
    list_sessions host
      (record ann { user_id = codes "a"; scopes = codes "archive:read" ∷ []; auth_type = machine })
      (record {
        agent = none;
        workspace = none;
        machine_id = none;
        model = none;
        since = none;
        until = none;
        cursor = none;
        limit = 100;
      })
      tables
    ≡ record { items = session ∷ []; total = 1; next_cursor = none }
unfolding list_sessions filter sort_by in_tenant starts_with key matches
listed = refl
