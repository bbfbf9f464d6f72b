-- ===== src/Store/Machines.antt =====
-- server/src/store/memory/operations.ts: `MemoryMachineStore`, the machines and their commands.
pub mod Retirement
pub mod Commands
pub mod Tests
use memoar.Prelude.{
  Bool, true, false, not, ◌&&◌, ◌||◌, List, [], ◌∷◌, ◌++◌, map, Option, none, some, Ordering,
}
use memoar.Prelude.Tests.{if◌then◌else◌}
use memoar.Prelude.Lists.{filter, find, sort_by}
use memoar.Prelude.Str.{Str, ◌==◌, opt_eq, contains}
use memoar.Prelude.JsMap.{get, set, values}
use memoar.Canonical.{Fields, TenantContext}
use memoar.Host.{Host, then_by}
use memoar.Store.Records.{
  MachineRecord, MachineCommandRecord, CommandStatus, pending, delivered, completed, failed,
}
use memoar.Store.Tables.{MemoryTables, key, Result, ok, err, tenant_mismatch}

pub live : MemoryTables → MachineRecord → Bool
live tables machine = not (contains tables.retired_machines (key machine.tenant_id machine.id))

pub list_machines : Host → TenantContext → MemoryTables → List MachineRecord
unfolding live
list_machines host context tables =
    sort_by
      (λ (left right : MachineRecord).
        then_by (host.locale_compare left.name right.name) (host.locale_compare left.id right.id))
      (filter (λ (m : MachineRecord). m.tenant_id == context.tenant_id && live tables m)
        (values tables.machines))

abbrev if_live : MemoryTables → Option MachineRecord → Option MachineRecord
if_live tables none = none
if_live tables (some machine) = if live tables machine then some machine else none

pub get_machine : TenantContext → Str → MemoryTables → Option MachineRecord
unfolding live
get_machine context machine_id tables =
    if_live tables (get (key context.tenant_id machine_id) tables.machines)

pub find_machine_by_installation : TenantContext → Str → MemoryTables → Option MachineRecord
unfolding live
find_machine_by_installation context installation_id tables =
    find
      (λ (m : MachineRecord).
        m.tenant_id == context.tenant_id
        && (opt_eq m.installation_id (some installation_id) && live tables m))
      (values tables.machines)

pub retire_machine : TenantContext → Str → MemoryTables → MemoryTables × Bool
unfolding live
retire_machine context machine_id tables =
    elim (if_live tables (get (key context.tenant_id machine_id) tables.machines)) [
      | none ↦ (tables, false)
      | some machine ↦ (
        record tables {
          retired_machines = key context.tenant_id machine_id ∷ tables.retired_machines;
        },
        true,
      )
    ]

pub save_machine : TenantContext → MachineRecord → MemoryTables → MemoryTables × Result (Unit {0})
save_machine context machine tables =
    if not (machine.tenant_id == context.tenant_id) then (tables, err tenant_mismatch) else (
      record tables { machines = set (key context.tenant_id machine.id) machine tables.machines },
      ok tt,
    )

-- `id` and `now` are drawn by the call.
pub create_machine_command :
    TenantContext
    → Str
    → Str
    → Fields
    → Str
    → Str
    → MemoryTables
    → MemoryTables × MachineCommandRecord
create_machine_command context machine_id kind payload id now tables =
    let command : MachineCommandRecord = record {
      id = id;
      tenant_id = context.tenant_id;
      machine_id = machine_id;
      kind = kind;
      payload = payload;
      status = pending;
      error = none;
      created_at = now;
      delivered_at = none;
      acked_at = none;
    } in
    (
      record tables {
        machine_commands = set (key context.tenant_id id) command tables.machine_commands;
      },
      command,
    )

-- `status === "pending"`, and the same or `"delivered"`
pub is_pending : CommandStatus → Bool
is_pending pending = true
is_pending _ = false

pub is_unacked : CommandStatus → Bool
is_unacked pending = true
is_unacked delivered = true
is_unacked _ = false

pub list_unacked_machine_commands :
    Host → TenantContext → Str → MemoryTables → List MachineCommandRecord
unfolding is_unacked
list_unacked_machine_commands host context machine_id tables =
    sort_by
      (λ (left right : MachineCommandRecord). host.locale_compare left.created_at right.created_at)
      (filter
        (λ (c : MachineCommandRecord).
          c.tenant_id == context.tenant_id && (c.machine_id == machine_id && is_unacked c.status))
        (values tables.machine_commands))

-- One round of the loop of `markMachineCommandsDelivered`.
pub mark_delivered : TenantContext → Str → Str → MemoryTables → MemoryTables
unfolding is_pending
mark_delivered context command_id now tables =
    elim (get (key context.tenant_id command_id) tables.machine_commands) [
      | none ↦ tables
      | some command ↦
          if is_pending command.status
          then record tables {
            machine_commands =
                set (key context.tenant_id command_id)
                  (record command { status = delivered; delivered_at = some now })
                  tables.machine_commands;
          }
          else tables
    ]

pub mark_machine_commands_delivered : TenantContext → List Str → Str → MemoryTables → MemoryTables
unfolding mark_delivered
mark_machine_commands_delivered context [] now tables = tables
mark_machine_commands_delivered context (command_id ∷ ids) now tables =
    mark_machine_commands_delivered context ids now (mark_delivered context command_id now tables)

-- `outcome.status` is one of two words.
pub data Outcome : Type 0 where
  succeeded broke : Outcome

pub outcome_status : Outcome → CommandStatus
outcome_status succeeded = completed
outcome_status broke = failed

pub ack_machine_command :
    TenantContext → Str → Str → Outcome → Option Str → Str → MemoryTables → MemoryTables × Bool
unfolding outcome_status
ack_machine_command context machine_id command_id outcome error now tables =
    elim (get (key context.tenant_id command_id) tables.machine_commands) [
      | none ↦ (tables, false)
      | some command ↦ if not (command.machine_id == machine_id) then (tables, false) else (
        record tables {
          machine_commands =
              set (key context.tenant_id command_id)
                (record command {
                  status = outcome_status outcome;
                  error = error;
                  acked_at = some now;
                })
                tables.machine_commands;
        },
        true,
      )
    ]
