-- ===== src/Store/Machines/Tests.antt =====
-- Runs of the machines and their commands.
use memoar.Prelude.{◌≡◌, refl, true, [], ◌∷◌, none, some}
use memoar.Prelude.Str.{codes, ◌==◌, contains}
use memoar.Prelude.JsMap.{get}
use memoar.Canonical.{Fields}
use memoar.Store.Records.{CommandStatus, MachineCommandRecord, MachineRecord}
use memoar.Store.Tables.{key, MemoryTables}
use memoar.Store.Machines.{get_machine, retire_machine}
use memoar.Store.Machines.Commands.{find_command}
use memoar.Store.Machines.Retirement.{get_machine-run-retire_machine, MachineCall, run}
use memoar.Examples.{ann, tables}

abbrev laptop : MachineRecord
laptop = record {
  id = codes "m";
  tenant_id = codes "a";
  name = codes "L";
  platform = codes "linux";
  agent_version = none;
  source_settings = Fields.end;
  last_seen_at = none;
  installation_id = none;
}

abbrev command : MachineCommandRecord
command = record {
  id = codes "c";
  tenant_id = codes "a";
  machine_id = codes "m";
  kind = codes "k";
  payload = Fields.end;
  status = CommandStatus.pending;
  error = none;
  created_at = codes "1";
  delivered_at = none;
  acked_at = none;
}

abbrev with_machine : MemoryTables
with_machine = record tables {
  machines = (codes "a:m", laptop) ∷ [];
  machine_commands = (codes "a:c", command) ∷ [];
}

retired : (retire_machine ann (codes "m") with_machine).1 ≡ true
unfolding retire_machine get ◌==◌ key contains
retired = refl

found : find_command ann (codes "c") with_machine ≡ some command
unfolding get ◌==◌ key
found = refl

get_machine-run-retire_machine_example :
    get_machine ann
      (codes "m")
      (run ((ann, MachineCall.save laptop) ∷ []) (retire_machine ann (codes "m") with_machine).0)
    ≡ none
unfolding key
get_machine-run-retire_machine_example =
    get_machine-run-retire_machine ann (codes "m") ((ann, MachineCall.save laptop) ∷ [])
      with_machine (refl, tt) retired
