-- ===== src/Store/TeamOptins/Resolve.antt =====
-- Which team a captured session is shared into.
use memoar.Prelude.{◌≡◌, ◌⊎◌, sym, ap, ◌∙◌, inl, inr, true, List, [], ◌∷◌, Option, none, some}
use memoar.Prelude.Tests.{Option-cases}
use mathlib.Core.List.{Mem, mem-cons_self, mem-cons_of_mem}
use memoar.Prelude.Lists.{All, All-filter_self, All-filter, All-sort_by, All-mono, filter, sort_by}
use memoar.Prelude.Str.{Str, ◌==◌, eq_sound}
use memoar.Prelude.JsMap.{values}
use memoar.Host.{Host}
use memoar.Store.Records.{TeamShareOptinRecord}
use memoar.Store.Tables.{MemoryTables}
use memoar.Store.Teams.{is_team_member}
use memoar.Store.TeamOptins.{
  covers, earliest_first, enrolments, first_team, list_tenant_optins, resolve_ingest_team,
  still_a_member,
}

-- The consent on which a session is shared: the tenant's own, for this machine, by somebody who
-- is still a member of the team.
pub record Consents (tables : MemoryTables) (tenant : Str) (machine : Option Str) (team : Str)
    (o : TeamShareOptinRecord) : Type 0 where
  pub listed : Mem o (values tables.team_share_optins)
  pub own : (o.tenant_id == tenant) ≡ true
  pub machine_covered :
      (o.machine_id ≡ none) ⊎ ((m : Str) × ((o.machine_id ≡ some m) × (machine ≡ some m)))
  pub member : is_team_member o.team_id o.user_id tables ≡ true
  pub into : o.team_id ≡ team

covers_sound :
    (machine : Option Str) (o : TeamShareOptinRecord)
    → covers machine o ≡ true
    → (o.machine_id ≡ none) ⊎ ((m : Str) × ((o.machine_id ≡ some m) × (machine ≡ some m)))
unfolding covers
covers_sound machine o h = elim (Option-cases o.machine_id) [
  | inl e ↦ inl e
  | inr (m, e) ↦ elim (Option-cases machine) [
    | inl q ↦ cc (rw (covers, e, q) at h)
    | inr (n, q) ↦
        let same : m ≡ n = eq_sound m n (rw (covers, e, q) at h) in
        inr (m, (e, q ∙ ap some (sym same)))
  ]
]

All-Mem : {A : Type 0} (xs : List A) → All (λ x. Mem x xs) xs
All-Mem [] = tt
All-Mem (x ∷ xs) = (mem-cons_self, All-mono (λ y m. mem-cons_of_mem x m) xs (All-Mem xs))

All-both :
    {A : Type 0} (P Q : A → Type 0) (xs : List A) → All P xs → All Q xs → All (λ x. P x × Q x) xs
All-both P Q [] p q = tt
All-both P Q (x ∷ xs) p q = ((p.0, q.0), All-both P Q xs p.1 q.1)

module _ (tenant : Str) (machine : Option Str) (tables : MemoryTables) where
  abbrev IsOwn : TeamShareOptinRecord → Type 0
  IsOwn o = Mem o (values tables.team_share_optins) × ((o.tenant_id == tenant) ≡ true)

  abbrev IsCovering : TeamShareOptinRecord → Type 0
  IsCovering o = (covers machine o ≡ true) × IsOwn o

  abbrev IsEnrolled : TeamShareOptinRecord → Type 0
  IsEnrolled o = (still_a_member tables o ≡ true) × IsCovering o

  list_tenant_optins-IsOwn : All IsOwn (list_tenant_optins tenant tables)
  unfolding list_tenant_optins
  list_tenant_optins-IsOwn =
      let own = λ (o : TeamShareOptinRecord). o.tenant_id == tenant in
      let all = values tables.team_share_optins in
      All-both (λ o. Mem o all) (λ o. own o ≡ true) (filter own all)
        (All-filter (λ o. Mem o all) own all (All-Mem all)) (All-filter_self own all)

  enrolments-IsEnrolled : All IsEnrolled (enrolments tenant machine tables)
  unfolding enrolments
  enrolments-IsEnrolled =
      let own = list_tenant_optins tenant tables in
      let covering = filter (covers machine) own in
      let first : All IsCovering covering =
        All-both (λ o. covers machine o ≡ true) IsOwn covering
          (All-filter_self (covers machine) own)
          (All-filter IsOwn (covers machine) own list_tenant_optins-IsOwn) in
      All-both (λ o. still_a_member tables o ≡ true) IsCovering
        (filter (still_a_member tables) covering) (All-filter_self (still_a_member tables) covering)
        (All-filter IsCovering (still_a_member tables) covering first)

  first_team-Consents :
      (os : List TeamShareOptinRecord) (team : Str)
      → All IsEnrolled os
      → first_team os ≡ some team
      → (o : TeamShareOptinRecord) × Consents tables tenant machine team o
  unfolding first_team still_a_member
  first_team-Consents [] team all h = cc
  first_team-Consents (o ∷ os) team all h = (
    o,
    record {
      listed = all.0.1.1.0;
      own = all.0.1.1.1;
      machine_covered = covers_sound machine o all.0.1.0;
      member = all.0.0;
      into = cc;
    },
  )

-- A capture is shared into a team only on the strength of a consent that stands in the table: the
-- tenant's own, for the capturing machine or for all machines, by a person who is still an
-- accepted member of that team.
pub resolve_ingest_team-Consents :
    (host : Host) (tenant : Str) (machine : Option Str) (team : Str) (tables : MemoryTables)
    → resolve_ingest_team host tenant machine tables ≡ some team
    → (o : TeamShareOptinRecord) × Consents tables tenant machine team o
unfolding resolve_ingest_team
resolve_ingest_team-Consents host tenant machine team tables h =
    first_team-Consents tenant machine tables
      (sort_by (earliest_first host) (enrolments tenant machine tables)) team
      (All-sort_by (IsEnrolled tenant machine tables) (earliest_first host)
        (enrolments tenant machine tables) (enrolments-IsEnrolled tenant machine tables))
      h
