-- ===== src/Store/Teams/Reading.antt =====
-- What the members of a team may read of one another's archives.
use memoar.Prelude.{
  ◌≡◌, refl, inl, inr, Bool, true, false, not, ◌&&◌, ◌||◌, List, [], ◌∷◌, map, some, arith,
}
use memoar.Prelude.Tests.{Bool-cases, Option-cases}
use memoar.Prelude.Lists.{any, filter}
use memoar.Prelude.Str.{Str, ◌==◌, contains, eq_refl}
use memoar.Prelude.JsMap.{JsMap, get}
use memoar.Canonical.{ArchivedSession}
use memoar.Store.Tables.{MemoryTables, Member, key}
use memoar.Store.TeamVisibility.{is_team_visible}
use memoar.Store.Teams.{
  active_members, distinct, get_team_session, is_active, list_team_member_tenants, members_of,
  seen_in,
}

-- Some accepted member of the team has this tenant.
abbrev pub HasTenant : Str → Str → MemoryTables → Type 0
HasTenant team tenant tables =
    any (λ (m : Member). m.tenant_id == tenant && is_active m.status) (members_of team tables)
    ≡ true

contains-filter :
    (t u : Str) (ts : List Str)
    → contains (filter (λ (v : Str). not (v == t)) ts) u ≡ true
    → contains ts u ≡ true
unfolding contains filter
contains-filter t u [] h = h
contains-filter t u (v ∷ ts) h = ground (arith, contains-filter t u ts)

contains-distinct :
    (t : Str) (ts : List Str) → contains (distinct ts) t ≡ true → contains ts t ≡ true
unfolding distinct contains
contains-distinct t [] h = h
contains-distinct t (u ∷ ts) h =
    ground (arith, contains-filter u t (distinct ts), contains-distinct t ts)

contains-active :
    (t : Str) (members : List Member)
    → contains (map (λ (m : Member). m.tenant_id) (active_members members)) t ≡ true
    → any (λ (m : Member). m.tenant_id == t && is_active m.status) members ≡ true
unfolding active_members contains any filter
contains-active t [] h = h
contains-active t (m ∷ members) h = ground (arith, contains-active t members)

or-true : (b : Bool) → (b || true) ≡ true
or-true true = refl
or-true false = refl

abbrev FoundIn : Str → Str → List Str → JsMap ArchivedSession → ArchivedSession → Type 0
FoundIn team id tenants sessions s =
    (t : Str) × (contains tenants t ≡ true)
    × (get (key t id) sessions ≡ some s)
    × (is_team_visible s.visibility team ≡ true)

FoundIn-cons :
    (team id t : Str) (tenants : List Str) (sessions : JsMap ArchivedSession) (s : ArchivedSession)
    → FoundIn team id tenants sessions s
    → FoundIn team id (t ∷ tenants) sessions s
unfolding contains
FoundIn-cons team id t tenants sessions s (u, inside, found, visible) =
    (u, rw inside (or-true _), found, visible)

seen_in-found :
    (team id : Str) (tenants : List Str) (sessions : JsMap ArchivedSession) (s : ArchivedSession)
    → seen_in team id tenants sessions ≡ some s
    → FoundIn team id tenants sessions s
unfolding seen_in contains
seen_in-found team id [] sessions s h = cc
seen_in-found team id (t ∷ tenants) sessions s h = elim (Option-cases (get (key t id) sessions)) [
  | inl e ↦
      FoundIn-cons team id t tenants sessions s
        (seen_in-found team id tenants sessions s (ground (arith, e)))
  | inr (x, e) ↦ elim (Bool-cases (is_team_visible x.visibility team)) [
    | inl v ↦
        let same : x ≡ s = ground (arith, e, v) in
        (t, ground (arith, eq_refl t), rw (← same) e, rw (← same) v)
    | inr v ↦
        FoundIn-cons team id t tenants sessions s
          (seen_in-found team id tenants sessions s (ground (arith, e, v)))
  ]
]

-- A session that is read through a team belongs to the archive of an accepted member of the team,
-- is stored there under the identifier that was asked for, and was made visible to that team.
pub get_team_session-visible :
    (team id : Str) (tables : MemoryTables) (s : ArchivedSession)
    → get_team_session team id tables ≡ some s
    → (t : Str) × HasTenant team t tables
      × (get (key t id) tables.sessions ≡ some s)
      × (is_team_visible s.visibility team ≡ true)
unfolding get_team_session list_team_member_tenants
get_team_session-visible team id tables s h =
    let members = members_of team tables in
    let tenants = map (λ (m : Member). m.tenant_id) (active_members members) in
    let (t, inside, found, visible) =
      seen_in-found team id (distinct tenants) tables.sessions s h in
    (t, contains-active t members (contains-distinct t tenants inside), found, visible)
