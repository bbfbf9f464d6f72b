-- ===== src/Store/Settings/Budget.antt =====
-- The distillation budget: what is granted and what is left.
use memoar.Prelude.{ℕ, ◌+◌, ◌≡◌, ◌&&◌, arith}
use memoar.Prelude.Tests.{if◌then◌else◌, leb}
use memoar.Prelude.JsMap.{get-set_self}
use memoar.Canonical.{TenantContext}
use memoar.Host.{Host}
use memoar.Store.Records.{DistillationSettings}
use memoar.Store.Tables.{MemoryTables}
use memoar.Store.Settings.{
  get_distillation_settings, save_distillation_settings, remaining, reserve_distillation_budget,
  rolled,
}

module _ (host : Host) (now : ℕ) (context : TenantContext) where
  -- The settings that a reservation at this time starts from.
  abbrev pub current : MemoryTables → DistillationSettings
  current tables = rolled host now (get_distillation_settings host now context tables)

  abbrev pub after : ℕ → MemoryTables → DistillationSettings
  after cost tables =
      get_distillation_settings host now context
        (reserve_distillation_budget host now context cost tables).0

  -- A reservation is granted exactly when distillation is enabled and the budget of the window
  -- covers what was spent and the cost. The spent sum then rises by the cost and by nothing else,
  -- and the answer tells what the stored settings leave.
  pub reserve_distillation_budget-grants :
      (cost : ℕ) (tables : MemoryTables)
      → ((reserve_distillation_budget host now context cost tables).1.reserved ≡ (
          (current tables).enabled
          && leb
              ((current tables).monthly_spent_cents + cost)
              (current tables).monthly_budget_cents))
        × (after cost tables ≡ (
            if (reserve_distillation_budget host now context cost tables).1.reserved
            then record (current tables) {
              monthly_spent_cents = (current tables).monthly_spent_cents + cost;
            }
            else current tables))
        × ((reserve_distillation_budget host now context cost tables).1.remaining_cents
            ≡ remaining (after cost tables))
  unfolding reserve_distillation_budget save_distillation_settings get_distillation_settings
  reserve_distillation_budget-grants cost tables = ground (
    arith,
    get-set_self context.tenant_id (current tables) tables.distillation,
    get-set_self context.tenant_id
        (record (current tables) {
          monthly_spent_cents = (current tables).monthly_spent_cents + cost;
        })
        tables.distillation,
  )
