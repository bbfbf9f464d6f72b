-- ===== src/Store/Machines/Retirement.antt =====
-- A retired machine stays retired, whatever is saved afterwards.
use memoar.Prelude.{◌≡◌, refl, sym, ap, inl, inr, true, List, [], ◌∷◌, none, arith}
use memoar.Prelude.Tests.{Bool-cases, Option-cases}
use memoar.Prelude.Lists.{All}
use memoar.Prelude.Str.{Str, ◌==◌, eq_iff, eq_refl, contains}
use memoar.Prelude.JsMap.{get, get-All, All-set}
use memoar.Canonical.{TenantContext}
use memoar.Store.Records.{MachineRecord}
use memoar.Store.Tables.{MemoryTables, key}
use memoar.Store.Machines.{live, get_machine, retire_machine, save_machine, if_live}

-- Every machine stands under the key of its own tenant and identifier.
abbrev pub IsKeyed : MemoryTables → Type 0
IsKeyed tables = All (λ (e : Str × MachineRecord). e.0 ≡ key e.1.tenant_id e.1.id) tables.machines

-- The calls that write machines.
pub data MachineCall : Type 0 where
  save : MachineRecord → MachineCall
  retire : Str → MachineCall

pub perform : TenantContext × MachineCall → MemoryTables → MemoryTables
perform (context, save machine) tables = (save_machine context machine tables).0
perform (context, retire id) tables = (retire_machine context id tables).0

pub run : List (TenantContext × MachineCall) → MemoryTables → MemoryTables
run [] tables = tables
run (call ∷ calls) tables = run calls (perform call tables)

perform-IsKeyed :
    (call : TenantContext × MachineCall) (tables : MemoryTables)
    → IsKeyed tables
    → IsKeyed (perform call tables)
unfolding perform save_machine retire_machine
perform-IsKeyed (context, save machine) tables h =
    elim (Bool-cases (machine.tenant_id == context.tenant_id)) [
      | inl e ↦
          rw (e, perform, save_machine)
            (All-set (λ (e : Str × MachineRecord). e.0 ≡ key e.1.tenant_id e.1.id)
              (key context.tenant_id machine.id) machine tables.machines
              (ap (λ (t : Str). key t machine.id) (sym ((eq_iff _ _).0 e))) h)
      | inr e ↦ rw (e, perform, save_machine) h
    ]
perform-IsKeyed (context, retire id) tables h =
    elim (Option-cases (if_live tables (get (key context.tenant_id id) tables.machines))) [
      | inl e ↦ rw (e, perform, retire_machine) h
      | inr (m, e) ↦ rw (e, perform, retire_machine) h
    ]

perform-retired :
    (k : Str) (call : TenantContext × MachineCall) (tables : MemoryTables)
    → contains tables.retired_machines k ≡ true
    → contains (perform call tables).retired_machines k ≡ true
unfolding perform save_machine retire_machine contains
perform-retired k (context, save machine) tables h = ground arith
perform-retired k (context, retire id) tables h = ground arith

-- What the tables say about a retired key.
record IsRetired (k : Str) (tables : MemoryTables) : Type 0 where
  listed : contains tables.retired_machines k ≡ true
  keyed : IsKeyed tables

run-IsRetired :
    (k : Str) (calls : List (TenantContext × MachineCall)) (tables : MemoryTables)
    → IsRetired k tables
    → IsRetired k (run calls tables)
unfolding run
run-IsRetired k [] tables h = h
run-IsRetired k (call ∷ calls) tables h = run-IsRetired k calls (perform call tables) (record {
  listed = perform-retired k call tables h.listed;
  keyed = perform-IsKeyed call tables h.keyed;
})

IsRetired-get_machine :
    (context : TenantContext) (id : Str) (tables : MemoryTables)
    → IsRetired (key context.tenant_id id) tables
    → get_machine context id tables ≡ none
unfolding get_machine live
IsRetired-get_machine context id tables h =
    elim (Option-cases (get (key context.tenant_id id) tables.machines)) [
      | inl e ↦ rw e refl
      | inr (m, e) ↦
          let at : key context.tenant_id id ≡ key m.tenant_id m.id =
            get-All (λ (e : Str × MachineRecord). e.0 ≡ key e.1.tenant_id e.1.id)
              (key context.tenant_id id) tables.machines h.keyed e in
          let listed : contains tables.retired_machines (key m.tenant_id m.id) ≡ true =
            rw at at h.listed in
          rw e (rw listed refl)
    ]

retire_machine-listed :
    (context : TenantContext) (id : Str) (tables : MemoryTables)
    → (retire_machine context id tables).1 ≡ true
    → contains (retire_machine context id tables).0.retired_machines (key context.tenant_id id)
      ≡ true
unfolding retire_machine contains
retire_machine-listed context id tables h = ground (arith, eq_refl (key context.tenant_id id))

-- Once a machine was retired, no sequence of saves and retirements by any tenants brings it back.
pub get_machine-run-retire_machine :
    (context : TenantContext) (id : Str) (calls : List (TenantContext × MachineCall))
    (tables : MemoryTables)
    → IsKeyed tables
    → (retire_machine context id tables).1 ≡ true
    → get_machine context id (run calls (retire_machine context id tables).0) ≡ none
get_machine-run-retire_machine context id calls tables keyed retired =
    IsRetired-get_machine context id _ (
      run-IsRetired (key context.tenant_id id) calls (retire_machine context id tables).0 (record {
        listed = retire_machine-listed context id tables retired;
        keyed = unfold perform in perform-IsKeyed (context, retire id) tables keyed;
      }))
