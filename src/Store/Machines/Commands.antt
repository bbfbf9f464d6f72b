-- ===== src/Store/Machines/Commands.antt =====
-- The life of a machine's command: pending, delivered, acknowledged.
use memoar.Prelude.{
  ◌≡◌, refl, inl, inr, Bool, false, ◌&&◌, ◌||◌, List, [], ◌∷◌, Option, none, some, arith,
}
use memoar.Prelude.Tests.{if◌then◌else◌, Option-cases}
use memoar.Prelude.Str.{Str, ◌==◌, eq_iff, contains}
use memoar.Prelude.JsMap.{get, get-set}
use memoar.Canonical.{TenantContext}
use memoar.Store.Keys.{key_same}
use memoar.Store.Records.{MachineCommandRecord, delivered}
use memoar.Store.Tables.{MemoryTables, key}
use memoar.Store.Machines.{
  is_pending, mark_delivered, mark_machine_commands_delivered, ack_machine_command, Outcome,
  outcome_status,
}
use mathlib.Core.Option

abbrev pub find_command : TenantContext → Str → MemoryTables → Option MachineCommandRecord
find_command context id tables = get (key context.tenant_id id) tables.machine_commands

-- What the delivery of a named command makes of it.
pub deliver : Bool → Str → MachineCommandRecord → MachineCommandRecord
deliver named now command =
    if named && is_pending command.status
    then record command { status = delivered; delivered_at = some now }
    else command

deliver-deliver :
    (a b : Bool) (now : Str) (o : Option MachineCommandRecord)
    → Option.map (deliver b now) (Option.map (deliver a now) o)
      ≡ Option.map (deliver (a || b) now) o
unfolding deliver is_pending
deliver-deliver a b now none = refl
deliver-deliver a b now (some c) = ground arith

find-mark_delivered :
    (context : TenantContext) (command_id id now : Str) (tables : MemoryTables)
    → find_command context id (mark_delivered context command_id now tables)
      ≡ Option.map (deliver (command_id == id) now) (find_command context id tables)
unfolding mark_delivered deliver
find-mark_delivered context command_id id now tables =
    elim (Option-cases (find_command context command_id tables)) [
      | inl e ↦ elim (Option-cases (find_command context id tables)) [
        | inl f ↦ ground (arith, e, f)
        | inr (d, f) ↦ ground (arith, e, f, eq_iff command_id id)
      ]
      | inr (c, e) ↦ elim (Option-cases (find_command context id tables)) [
        | inl f ↦ ground (
          arith,
          e,
          f,
          eq_iff command_id id,
          key_same context.tenant_id command_id id,
          get-set (key context.tenant_id command_id) (key context.tenant_id id)
              (record c { status = delivered; delivered_at = some now }) tables.machine_commands,
        )
        | inr (d, f) ↦ ground (
          arith,
          e,
          f,
          eq_iff command_id id,
          key_same context.tenant_id command_id id,
          get-set (key context.tenant_id command_id) (key context.tenant_id id)
              (record c { status = delivered; delivered_at = some now }) tables.machine_commands,
        )
      ]
    ]

-- Delivering a list of commands marks exactly the listed ones that are still pending: a command
-- that is not listed, or that was delivered or acknowledged before, is left as it is.
pub find-mark_machine_commands_delivered :
    (context : TenantContext) (ids : List Str) (id now : Str) (tables : MemoryTables)
    → find_command context id (mark_machine_commands_delivered context ids now tables)
      ≡ Option.map (deliver (contains ids id) now) (find_command context id tables)
unfolding mark_machine_commands_delivered contains
find-mark_machine_commands_delivered context [] id now tables = go (find_command context id tables)
  where
    go : (o : Option MachineCommandRecord) → o ≡ Option.map (deliver false now) o
    go none = refl
    go (some c) = unfold deliver in refl
find-mark_machine_commands_delivered context (i ∷ ids) id now tables =
    rw
      (
        find-mark_machine_commands_delivered context ids id now
            (mark_delivered context i now tables),
        find-mark_delivered context i id now tables,
      )
      (deliver-deliver (i == id) (contains ids id) now (find_command context id tables))

-- An acknowledgement by a machine the command was not made for is refused and changes nothing.
-- By its own machine it is accepted, the command takes the outcome, and no other command of the
-- tenant changes.
pub find-ack_machine_command :
    (context : TenantContext) (machine_id command_id id now : Str) (outcome : Outcome)
    (error : Option Str) (tables : MemoryTables) (command : MachineCommandRecord)
    → find_command context command_id tables ≡ some command
    → ((ack_machine_command context machine_id command_id outcome error now tables).1
        ≡ command.machine_id == machine_id)
      × (find_command context id
            (ack_machine_command context machine_id command_id outcome error now tables).0
          ≡ (if command_id == id && command.machine_id == machine_id
              then some (record command {
                status = outcome_status outcome;
                error = error;
                acked_at = some now;
              })
              else find_command context id tables))
unfolding ack_machine_command
find-ack_machine_command context machine_id command_id id now outcome error tables command e =
    ground (
      arith,
      eq_iff command_id id,
      key_same context.tenant_id command_id id,
      get-set (key context.tenant_id command_id) (key context.tenant_id id)
          (record command { status = outcome_status outcome; error = error; acked_at = some now })
          tables.machine_commands,
    )
