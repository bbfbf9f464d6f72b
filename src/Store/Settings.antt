-- ===== src/Store/Settings.antt =====
-- server/src/store/memory/operations.ts: the settings of a tenant and its distillation budget.
pub mod Budget
use memoar.Prelude.{
  ℕ, ◌+◌, ◌-◌, ◌*◌, Bool, true, false, not, ◌&&◌, ◌||◌, List, [], ◌∷◌, ◌++◌, map, Option, none,
  some,
}
use memoar.Prelude.Tests.{if◌then◌else◌, ltb, nat_eq, or_else}
use memoar.Prelude.Int.{ℤ, add_clamped}
use memoar.Prelude.Str.{Str, contains}
use memoar.Prelude.JsMap.{JsMap, get, set}
use memoar.Canonical.{ArchivedSession, TenantContext}
use memoar.Host.{Host}
use memoar.Store.Records.{
  TenantSettingsRecord, default_tenant_settings, DistillationSettings,
  default_distillation_settings,
}
use memoar.Store.Tables.{MemoryTables}

unfoldable pub get_tenant_settings : TenantContext → MemoryTables → TenantSettingsRecord
get_tenant_settings context tables =
    or_else (get context.tenant_id tables.tenant_settings) default_tenant_settings

pub save_tenant_settings : TenantContext → TenantSettingsRecord → MemoryTables → MemoryTables
save_tenant_settings context settings tables = record tables {
  tenant_settings = set context.tenant_id settings tables.tenant_settings;
}

-- `now` is the time of the call, in milliseconds.
pub get_distillation_settings : Host → ℕ → TenantContext → MemoryTables → DistillationSettings
unfolding default_distillation_settings
get_distillation_settings host now context tables =
    or_else (get context.tenant_id tables.distillation)
      (default_distillation_settings (host.to_iso now))

pub save_distillation_settings : TenantContext → DistillationSettings → MemoryTables → MemoryTables
save_distillation_settings context settings tables = record tables {
  distillation = set context.tenant_id settings tables.distillation;
}

-- 30 * 24 * 3600 * 1000
abbrev pub window : ℕ
window = 2_592_000_000

-- `start < now - window`
abbrev pub before_window : Option ℕ → ℕ → Bool
before_window none now = false
before_window (some start) now = ltb (start + window) now

-- A window that began more than thirty days ago is closed, and another is opened.
pub rolled : Host → ℕ → DistillationSettings → DistillationSettings
rolled host now settings =
    if before_window (host.time_of settings.budget_window_started_at) now
    then record settings { monthly_spent_cents = 0; budget_window_started_at = host.to_iso now }
    else settings

pub record Reservation : Type 0 where
  pub reserved : Bool
  pub remaining_cents : ℕ

-- `Math.max(0, budget - spent)` is the difference of natural numbers.
abbrev pub remaining : DistillationSettings → ℕ
remaining settings = settings.monthly_budget_cents - settings.monthly_spent_cents

pub reserve_distillation_budget :
    Host → ℕ → TenantContext → ℕ → MemoryTables → MemoryTables × Reservation
unfolding save_distillation_settings rolled get_distillation_settings
reserve_distillation_budget host now context cost tables =
    let settings = rolled host now (get_distillation_settings host now context tables) in
    if not settings.enabled
      || ltb settings.monthly_budget_cents (settings.monthly_spent_cents + cost)
    then (
      save_distillation_settings context settings tables,
      record { reserved = false; remaining_cents = remaining settings },
    )
    else let charged : DistillationSettings = record settings {
      monthly_spent_cents = settings.monthly_spent_cents + cost;
    } in
      (
        save_distillation_settings context charged tables,
        record { reserved = true; remaining_cents = remaining charged },
      )

pub settle_distillation_spend : Host → ℕ → TenantContext → ℤ → MemoryTables → MemoryTables
unfolding save_distillation_settings get_distillation_settings
settle_distillation_spend host now context delta tables =
    let settings = get_distillation_settings host now context tables in
    save_distillation_settings context
      (record settings { monthly_spent_cents = add_clamped settings.monthly_spent_cents delta })
      tables

has_colon : Str → Bool
has_colon [] = false
has_colon (c ∷ s) = nat_eq c b':' || has_colon s

until_colon : Str → Str
until_colon [] = []
until_colon (c ∷ s) = let rest = until_colon s in if nat_eq c b':' then [] else c ∷ rest

but_last : Str → Str
but_last [] = []
but_last (c ∷ []) = []
but_last (c ∷ (d ∷ s)) = c ∷ but_last (d ∷ s)

-- `compound.slice(0, compound.indexOf(":"))`; without a colon the index is -1, and the slice
-- drops the last unit.
unfoldable pub tenant_part : Str → Str
unfolding has_colon until_colon but_last
tenant_part compound = if has_colon compound then until_colon compound else but_last compound

-- `tenants.add(tenant)` over a list, for a set in the order of insertion
add_new : List Str → List Str → List Str
add_new tenants [] = tenants
add_new tenants (t ∷ ts) = add_new (if contains tenants t then tenants else tenants ++ t ∷ []) ts

pub list_tenant_ids : MemoryTables → List Str
unfolding add_new tenant_part
list_tenant_ids tables =
    add_new (map (λ (e : Str × TenantSettingsRecord). e.0) tables.tenant_settings)
      (map (λ (e : Str × ArchivedSession). tenant_part e.0) tables.sessions)
