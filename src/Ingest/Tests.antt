-- ===== src/Ingest/Tests.antt =====
-- Runs of the team stamp over the captures of a machine, and of the filter of an archive.
use memoar.Prelude.JsMap.{set}
use memoar.Prelude.JsMap.{has}
use memoar.Prelude.JsMap.{get}
use memoar.Prelude.Str.{◌==◌}
use memoar.Canonical.{clear, is_team, private}
use memoar.Prelude.{List, ◌≤◌, ◌≡◌, refl, [], ◌∷◌, map, none, some, true}
use memoar.Prelude.Str.{codes, includes}
use memoar.Ingest.Scanner.{
  admit, admit-bounds, IsAdmissible, sizes, Tools, zip_scan_max_entries, zip_scan_max_total_bytes,
  ZipEntry,
}
use memoar.Prelude.Lists.{All, length}
use memoar.Ingest.TeamStamp.{
  asked, visibility_for-Consents, stamp_all, stamp_all-eq-asked, visibility_for,
}
use memoar.Store.Records.{TeamShareOptinRecord}
use memoar.Store.TeamOptins.Resolve.{Consents}
use memoar.Store.TeamOptins.Tests.{consenting, hidden, resolved_m}
use memoar.Store.TeamVisibility.{is_team_visible}
use memoar.Examples.{host, session}

stamp_all-eq-asked_example :
    stamp_all host (codes "a") consenting (hidden ∷ session ∷ hidden ∷ []) []
    ≡ map (asked host (codes "a") consenting) (hidden ∷ session ∷ hidden ∷ [])
stamp_all-eq-asked_example =
    stamp_all-eq-asked host (codes "a") consenting (hidden ∷ session ∷ hidden ∷ [])

shared : is_team_visible (visibility_for host (codes "a") consenting hidden []).1 (codes "t") ≡ true
unfolding visibility_for is_team_visible is_team get has set ◌==◌
shared = rw (visibility_for, resolved_m) refl

visibility_for-Consents_example :
    (hidden.redaction_status ≡ clear)
    × (hidden.visibility.scope ≡ private)
    × ((o : TeamShareOptinRecord) × Consents consenting
          (codes "a")
          (some (codes "m"))
          (codes "t")
          o)
unfolding visibility_for is_team_visible is_team
visibility_for-Consents_example =
    visibility_for-Consents host (codes "a") consenting hidden (codes "t") refl shared

abbrev tools : Tools
tools = record {
  match_all = λ expression text. (0, text) ∷ [];
  text_of = λ bytes. bytes;
  entries_of = λ bytes. none;
}

abbrev entries : List ZipEntry
entries =
    record { name = codes "../x"; original_size = 1; bytes = some [] }
    ∷ record { name = codes "x"; original_size = 67108864; bytes = some [] }
    ∷ record { name = codes "y"; original_size = 3; bytes = some [] }
    ∷ []

inflated :
    admit tools 0 0 entries ≡ record { name = codes "y"; original_size = 3; bytes = some [] } ∷ []
unfolding admit includes
inflated = refl

admit-bounds_example :
    (length (admit tools 0 0 entries) ≤ zip_scan_max_entries)
    × (sizes (admit tools 0 0 entries) ≤ zip_scan_max_total_bytes)
    × All (IsAdmissible tools) (admit tools 0 0 entries)
admit-bounds_example = admit-bounds tools entries
