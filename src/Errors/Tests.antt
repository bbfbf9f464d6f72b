-- ===== src/Errors/Tests.antt =====
-- Runs of the aggregator, and of the names that failures get.
use memoar.Prelude.{◌≡◌, ◌≤◌, ◌+◌, refl, List, [], ◌∷◌, none, some}
use memoar.Prelude.Lists.{length}
use memoar.Prelude.Str.{Str, codes, includes}
use memoar.Prelude.Tests.{if◌then◌else◌}
use memoar.Errors.{
  empty, ErrorContext, Fingerprint, fingerprint, max_groups, Patterns, persistable, restore,
}
use memoar.Errors.Counting.{after, after-Counts, counted, Counts, Occurrence, after-accounts}
use memoar.Errors.Restoring.{restore-persistable}
use memoar.Examples.{host}

abbrev print_of : Str → Fingerprint
print_of id = record { id = id; type = codes "TypeError"; shape = codes "?"; origin = none }

abbrev nowhere : ErrorContext
nowhere = record { request_id = none; route = some (codes "/search") }

abbrev of : Str → Str → Occurrence
of id at_time = record { print = print_of id; context = nowhere; at_time = at_time }

abbrev history : List Occurrence
history = of (codes "a") (codes "3") ∷ of (codes "b") (codes "2") ∷ of (codes "a") (codes "1") ∷ []

-- Own frames are the lines that contain a tab.
abbrev patterns : Patterns
patterns = record {
  replace = λ source flags replacement text. text;
  own_frame = λ line. if includes line (codes "\t") then some (line, codes "7") else none;
}

named :
    fingerprint host patterns
      (record { type = codes "E"; raw = codes "m"; stack = some (codes "E\n\tf\nx") })
    ≡ record {
      id = codes "E\nm\n\tf:7";
      type = codes "E";
      shape = codes "m";
      origin = some (codes "\tf:7");
    }
unfolding fingerprint includes
named = refl

after-Counts_example : Counts history (after history) (codes "a")
after-Counts_example = after-Counts history (codes "a")

after-accounts_example :
    (length (after history).groups ≤ max_groups)
    × (counted (after history).groups + (after history).overflow ≡ length history)
after-accounts_example = after-accounts history

restore-persistable_example :
    restore (persistable (codes "9") (after history)) empty ≡ after history
restore-persistable_example = restore-persistable history (codes "9")
