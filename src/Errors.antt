-- ===== src/Errors.antt =====
-- server/src/errors/fingerprint.ts and error-aggregator.ts: how failures are named and counted.
-- Instants are texts in ISO form and are compared as texts.
pub mod Counting
pub mod Restoring
pub mod Tests
use memoar.Prelude.{
  ℕ, suc, ◌+◌, Bool, true, false, List, [], ◌∷◌, ◌++◌, Option, none, some, Ordering,
}
use memoar.Prelude.Tests.{if◌then◌else◌, is_some, leb, nat_eq, ltb, or_else}
use memoar.Prelude.Lists.{drop, length, sort_by, take}
use memoar.Prelude.Str.{Str, codes, str_lt, truthy}
use memoar.Prelude.JsMap.{get, JsMap, set, values}
use memoar.Host.{Host, then_by}

-- The replacement of each match of a regular expression, given by its source and its flags, and the file and line
-- that `OWN_FRAME` captures in a line of a stack.
pub record Patterns : Type 0 where
  pub replace : Str → Str → Str → Str → Str
  pub own_frame : Str → Option (Str × Str)

pub normalize_message : Host → Patterns → Str → Str
normalize_message host patterns message =
    let quoted = patterns.replace (codes "\"[^\"]*\"") (codes "gu") (codes "\"?\"") message in
    let literals = patterns.replace (codes "'[^']*'") (codes "gu") (codes "'?'") quoted in
    let identifiers =
      patterns.replace (codes "\\b[0-9a-f]{8}-[0-9a-f]{4}-[0-9a-f]{4}-[0-9a-f]{4}-[0-9a-f]{12}\\b")
        (codes "giu") (codes "<uuid>") literals in
    let hashes =
      patterns.replace (codes "\\b[0-9a-f]{32,}\\b") (codes "giu") (codes "<hash>") identifiers in
    let paths = patterns.replace (codes "\\/[^\\s\"']*\\/") (codes "gu") (codes "<path>/") hashes in
    take 200 (host.trim (patterns.replace (codes "\\b\\d+\\b") (codes "gu") (codes "<n>") paths))

-- The lines of a stack, after the first.
first_own_frame : Patterns → List Str → Option Str
first_own_frame patterns [] = none
first_own_frame patterns (line ∷ lines) = elim (patterns.own_frame line) [
  | none ↦ first_own_frame patterns lines
  | some (file, number) ↦ some (file ++ (b':' ∷ number))
]

-- `text.split("\n")`
lines_of : Str → List Str
lines_of [] = [] ∷ []
lines_of (c ∷ cs) = elim (lines_of cs) [
  | [] ↦ (c ∷ []) ∷ []
  | line ∷ lines ↦ if nat_eq c 10 then [] ∷ (line ∷ lines) else (c ∷ line) ∷ lines
]

pub origin_frame : Patterns → Option Str → Option Str
unfolding first_own_frame lines_of
origin_frame patterns stack = first_own_frame patterns (drop 1 (lines_of (or_else stack [])))

-- What is thrown: the name of its class or its `typeof`, its message or its text, and the stack of
-- an `Error`.
pub record Thrown : Type 0 where
  pub type : Str
  pub raw : Str
  pub stack : Option Str

pub record Fingerprint : Type 0 where
  pub id : Str
  pub type : Str
  pub shape : Str
  pub origin : Option Str

pub fingerprint : Host → Patterns → Thrown → Fingerprint
unfolding normalize_message origin_frame
fingerprint host patterns error =
    let shape = normalize_message host patterns error.raw in
    let origin = origin_frame patterns error.stack in
    record {
      id = take 16 (
          host.sha256 (error.type ++ (codes "\n" ++ (shape ++ (codes "\n" ++ or_else origin [])))));
      type = error.type;
      shape = shape;
      origin = origin;
    }

pub record ErrorGroup : Type 0 where
  pub print : Fingerprint
  pub count : ℕ
  pub first_seen : Str
  pub last_seen : Str
  pub last_request_id : Option Str
  pub last_route : Option Str

pub record ErrorContext : Type 0 where
  pub request_id : Option Str
  pub route : Option Str

abbrev pub max_groups : ℕ
max_groups = 200

pub record ErrorAggregator : Type 0 where
  pub groups : JsMap ErrorGroup
  pub overflow : ℕ

abbrev pub empty : ErrorAggregator
empty = record { groups = []; overflow = 0 }

-- `if (x) group.last = x`
abbrev latest : Option Str → Option Str → Option Str
latest none old = old
latest (some s) old = if truthy s then some s else old

pub seen_again : ErrorGroup → ErrorContext → Str → ErrorGroup
seen_again group context at_time = record group {
  count = suc group.count;
  last_seen = at_time;
  last_request_id = latest context.request_id group.last_request_id;
  last_route = latest context.route group.last_route;
}

pub first_group : Fingerprint → ErrorContext → Str → ErrorGroup
first_group print context at_time = record {
  print = print;
  count = 1;
  first_seen = at_time;
  last_seen = at_time;
  last_request_id = latest context.request_id none;
  last_route = latest context.route none;
}

-- `record`, after the fingerprint; the metric that it counts besides is not part of the state.
pub record_print :
    Fingerprint → ErrorContext → Str → ErrorAggregator → ErrorAggregator × Option ErrorGroup
unfolding seen_again first_group
record_print print context at_time aggregator = elim (get print.id aggregator.groups) [
  | some group ↦
      let again = seen_again group context at_time in
      (record aggregator { groups = set print.id again aggregator.groups }, some again)
  | none ↦
      if leb max_groups (length aggregator.groups)
      then (record aggregator { overflow = suc aggregator.overflow }, none)
      else let group = first_group print context at_time in
        (record aggregator { groups = set print.id group aggregator.groups }, some group)
]

pub record_error :
    Host
    → Patterns
    → Thrown
    → ErrorContext
    → Str
    → ErrorAggregator
    → ErrorAggregator × Option ErrorGroup
unfolding record_print fingerprint
record_error host patterns error context at_time aggregator =
    record_print (fingerprint host patterns error) context at_time aggregator

most_frequent : Host → ErrorGroup → ErrorGroup → Ordering
most_frequent host a b =
    then_by
      (if ltb b.count a.count
        then Ordering.lt
        else if ltb a.count b.count
        then Ordering.gt
        else Ordering.eq)
      (host.locale_compare b.last_seen a.last_seen)

-- The groups, how many there are, and what was dropped.
pub snapshot : Host → ℕ → ErrorAggregator → List ErrorGroup × ℕ × ℕ
unfolding most_frequent
snapshot host limit aggregator = (
  take limit (sort_by (most_frequent host) (values aggregator.groups)),
  length aggregator.groups,
  aggregator.overflow,
)

pub record PersistedErrors : Type 0 where
  pub groups : List ErrorGroup
  pub dropped : ℕ
  pub saved_at : Str

pub merged : ErrorGroup → ErrorGroup → ErrorGroup
merged existing group = record existing {
  count = existing.count + group.count;
  first_seen =
      if str_lt existing.first_seen group.first_seen then existing.first_seen else group.first_seen;
  last_seen =
      if str_lt group.last_seen existing.last_seen then existing.last_seen else group.last_seen;
}

pub restore_group : ErrorGroup → JsMap ErrorGroup → JsMap ErrorGroup
unfolding merged
restore_group group groups = elim (get group.print.id groups) [
  | some existing ↦ set group.print.id (merged existing group) groups
  | none ↦ set group.print.id group groups
]

pub restore_groups : List ErrorGroup → JsMap ErrorGroup → JsMap ErrorGroup
unfolding restore_group
restore_groups [] groups = groups
restore_groups (group ∷ rest) groups = restore_groups rest (restore_group group groups)

pub restore : PersistedErrors → ErrorAggregator → ErrorAggregator
unfolding restore_groups
restore state aggregator = record {
  groups = restore_groups (take max_groups state.groups) aggregator.groups;
  overflow = aggregator.overflow + state.dropped;
}

pub persistable : Str → ErrorAggregator → PersistedErrors
persistable now aggregator = record {
  groups = values aggregator.groups;
  dropped = aggregator.overflow;
  saved_at = now;
}
