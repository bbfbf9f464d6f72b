-- ===== src/Store/TeamOptins/Tests.antt =====
-- Runs of the standing consents.
use memoar.Canonical.{is_team}
use memoar.Prelude.Str.{starts_with}
use memoar.Prelude.Lists.{any}
use memoar.Store.Teams.{is_team_member}
use memoar.Prelude.Lists.{sort_by}
use memoar.Prelude.{◌≡◌, refl, [], ◌∷◌, none, some}
use memoar.Prelude.Lists.{filter}
use memoar.Prelude.Str.{codes, ◌==◌}
use memoar.Prelude.JsMap.{get, update_each}
use memoar.Canonical.{ArchivedSession, private}
use mathlib.Core.Option
use memoar.Store.Keys.{in_tenant}
use memoar.Store.Records.{TeamShareOptinRecord}
use memoar.Store.Tables.{key, MemoryTables}
use memoar.Store.TeamVisibility.{is_team_visible}
use memoar.Store.TeamOptins.{resolve_ingest_team, revoke_team_visibility}
use memoar.Store.TeamOptins.Resolve.{Consents, resolve_ingest_team-Consents}
use memoar.Store.TeamOptins.Revoke.{get-revoke_team_visibility, withdrawn}
use memoar.Examples.{ann, ann-NoColon, host, session, tables}

abbrev consent : TeamShareOptinRecord
consent = record {
  id = codes "i";
  team_id = codes "t";
  tenant_id = codes "a";
  user_id = codes "ann";
  machine_id = none;
  created_at = codes "1";
}

abbrev pub consenting : MemoryTables
consenting = record tables { team_share_optins = (codes "t:a:*", consent) ∷ [] }

abbrev pub hidden : ArchivedSession
hidden = record session {
  visibility = record { scope = private; owner_id = codes "ann"; team_id = none; org_id = none };
}

resolved : resolve_ingest_team host (codes "a") none consenting ≡ some (codes "t")
unfolding resolve_ingest_team sort_by filter ◌==◌ is_team_member any get
resolved = refl

pub resolved_m :
    resolve_ingest_team host (codes "a") (some (codes "m")) consenting ≡ some (codes "t")
unfolding resolve_ingest_team sort_by filter ◌==◌ is_team_member any get
resolved_m = refl

revoked :
    get
      (key (codes "a") (codes "s"))
      (revoke_team_visibility ann (codes "t") none tables).0.sessions
    ≡ some hidden
unfolding revoke_team_visibility get update_each ◌==◌ key in_tenant starts_with is_team_visible
    is_team
revoked = refl

resolve_ingest_team-Consents_example :
    (o : TeamShareOptinRecord) × Consents consenting (codes "a") none (codes "t") o
resolve_ingest_team-Consents_example =
    resolve_ingest_team-Consents host (codes "a") none (codes "t") consenting resolved

get-revoke_team_visibility_example :
    get
      (key ann.tenant_id (codes "s"))
      (revoke_team_visibility ann (codes "t") none tables).0.sessions
    ≡ Option.map
        (withdrawn (codes "t") none (ann.tenant_id == ann.tenant_id))
        (get (key ann.tenant_id (codes "s")) tables.sessions)
get-revoke_team_visibility_example =
    get-revoke_team_visibility ann (codes "t") none tables ann.tenant_id (codes "s") ann-NoColon
      ann-NoColon
