-- ===== src/Ingest/Scanner.antt =====
-- server/src/ingest/detection.ts: `SecretScanner`, which looks for secrets in what was uploaded.
use Prim.Native.Nat.{◌*◌}
use memoar.Prelude.{
  ℕ, suc, ◌+◌, ◌-◌, ◌≤◌, ◌≡◌, ap, inl, inr, arith, Bool, false, ◌&&◌, ◌||◌, List, [], ◌∷◌, ◌++◌,
  Option, none, some,
}
use memoar.Prelude.Tests.{if◌then◌else◌, Bool-cases, leb, ltb, nat_eq, Option-cases}
use memoar.Prelude.Lists.{All, drop, length, length-append, take}
use memoar.Prelude.Str.{Str, codes, includes, starts_with}
use memoar.Redaction.{RegExp, SecretKind, SecretPattern}

pub record SecretFinding : Type 0 where
  pub kind : SecretKind
  pub start : ℕ
  pub stop : ℕ
  pub preview : Str

-- An entry of a ZIP archive: its name, the size that its header states, and its bytes, unless they
-- cannot be inflated. Names are not repeated, and none is a whole number.
pub record ZipEntry : Type 0 where
  pub name : Str
  pub original_size : ℕ
  pub bytes : Option (List ℕ)

-- `text.matchAll(expression)`, each match with its index; the text of bytes in UTF-8; and the
-- entries of an archive, unless it cannot be read.
pub record Tools : Type 0 where
  pub match_all : RegExp → Str → List (ℕ × Str)
  pub text_of : List ℕ → Str
  pub entries_of : List ℕ → Option (List ZipEntry)

abbrev pub max_secret_findings : ℕ
max_secret_findings = 10000

abbrev pub zip_scan_max_entries : ℕ
zip_scan_max_entries = 512

abbrev pub zip_scan_max_entry_bytes : ℕ
zip_scan_max_entry_bytes = 16777216

abbrev pub zip_scan_max_total_bytes : ℕ
zip_scan_max_total_bytes = 67108864

pub finding_of : Str → SecretKind → ℕ × Str → SecretFinding
finding_of preview_prefix kind (index, found) = record {
  kind = kind;
  start = index;
  stop = index + length found;
  preview = preview_prefix ++ (take 4 found ++ (codes "…" ++ drop (length found - 4) found));
}

-- The matches of one pattern. A full list takes nothing more, so that to return from the middle of
-- the loops is to run them to their end.
pub add_matches : Str → SecretKind → List (ℕ × Str) → List SecretFinding → List SecretFinding
unfolding finding_of
add_matches preview_prefix kind [] findings = findings
add_matches preview_prefix kind (m ∷ matches) findings = add_matches preview_prefix kind matches (
    if leb max_secret_findings (length findings)
    then findings
    else findings ++ (finding_of preview_prefix kind m ∷ []))

module _ (tools : Tools) where
  pub scan_patterns : Str → Str → List SecretPattern → List SecretFinding → List SecretFinding
  unfolding add_matches
  scan_patterns preview_prefix text [] findings = findings
  scan_patterns preview_prefix text (p ∷ patterns) findings =
      scan_patterns preview_prefix text patterns
        (add_matches preview_prefix p.kind (tools.match_all p.expression text) findings)

  pub scan_text : Str → Str → List SecretPattern → List SecretFinding
  unfolding scan_patterns
  scan_text preview_prefix text patterns = scan_patterns preview_prefix text patterns []

  pub is_unsafe_name : Str → Bool
  is_unsafe_name name =
      includes name (codes "..") || (starts_with name (codes "/") || includes name (codes "\\"))

  -- The filter of the archive's entries, with its counts of entries and bytes so far.
  unfoldable pub admit : ℕ → ℕ → List ZipEntry → List ZipEntry
  unfolding is_unsafe_name
  admit count total [] = []
  admit count total (e ∷ entries) =
      let passed = admit (suc count) total entries in
      let added = admit (suc count) (total + e.original_size) entries in
      if ltb zip_scan_max_entries (suc count)
      then passed
      else if is_unsafe_name e.name
      then passed
      else if ltb zip_scan_max_entry_bytes e.original_size
      then passed
      else if leb (total + e.original_size) zip_scan_max_total_bytes
      then e ∷ added
      else added

  -- The findings of the entries, unless one of them cannot be inflated.
  pub scan_entries : List SecretPattern → List ZipEntry → Option (List SecretFinding)
  unfolding scan_text
  scan_entries patterns [] = some []
  scan_entries patterns (e ∷ entries) =
      let rest = scan_entries patterns entries in
      elim e.bytes [
        | none ↦ none
        | some bytes ↦ elim rest [
          | none ↦ none
          | some findings ↦
              some (scan_text (e.name ++ codes ": ") (tools.text_of bytes) patterns ++ findings)
        ]
      ]

  pub scan_archive : List ℕ → List SecretPattern → List SecretFinding
  unfolding scan_entries admit scan_text
  scan_archive bytes patterns =
      let whole = scan_text [] (tools.text_of bytes) patterns in
      elim (tools.entries_of bytes) [
        | none ↦ whole
        | some entries ↦ elim (scan_entries patterns (admit 0 0 entries)) [
          | none ↦ whole
          | some findings ↦ findings
        ]
      ]

  pub is_zip_bytes : List ℕ → Bool
  is_zip_bytes (a ∷ (b ∷ (c ∷ (d ∷ rest)))) =
      nat_eq a 0x50 && (nat_eq b 0x4b && (nat_eq c 0x03 && nat_eq d 0x04))
  is_zip_bytes _ = false

  pub scan : List ℕ → List SecretPattern → List SecretFinding
  unfolding is_zip_bytes scan_archive scan_text
  scan bytes patterns =
      if is_zip_bytes bytes
      then scan_archive bytes patterns
      else scan_text [] (tools.text_of bytes) patterns

add_matches-bounded :
    (preview_prefix : Str) (kind : SecretKind) (ms : List (ℕ × Str)) (fs : List SecretFinding)
    → length fs ≤ max_secret_findings
    → length (add_matches preview_prefix kind ms fs) ≤ max_secret_findings
unfolding add_matches
add_matches-bounded preview_prefix kind [] fs h = h
add_matches-bounded preview_prefix kind (m ∷ ms) fs h =
    elim (Bool-cases (leb max_secret_findings (length fs))) [
      | inl full ↦ rw full (add_matches-bounded preview_prefix kind ms fs h)
      | inr room ↦
          let f = finding_of preview_prefix kind m in
          rw room (
            add_matches-bounded preview_prefix kind ms (fs ++ (f ∷ []))
              (ground (arith, room, length-append fs (f ∷ []))))
    ]

abbrev pub sizes : List ZipEntry → ℕ
sizes [] = 0
sizes (e ∷ entries) = e.original_size + sizes entries

module _ (tools : Tools) where
  scan_patterns-bounded :
      (preview_prefix text : Str) (ps : List SecretPattern) (fs : List SecretFinding)
      → length fs ≤ max_secret_findings
      → length (scan_patterns tools preview_prefix text ps fs) ≤ max_secret_findings
  unfolding scan_patterns
  scan_patterns-bounded preview_prefix text [] fs h = h
  scan_patterns-bounded preview_prefix text (p ∷ ps) fs h =
      scan_patterns-bounded preview_prefix text ps _
        (add_matches-bounded preview_prefix p.kind (tools.match_all p.expression text) fs h)

  -- A text yields no more than ten thousand findings, whatever the patterns match.
  pub scan_text-bounded :
      (preview_prefix text : Str) (ps : List SecretPattern)
      → length (scan_text tools preview_prefix text ps) ≤ max_secret_findings
  unfolding scan_text
  scan_text-bounded preview_prefix text ps =
      scan_patterns-bounded preview_prefix text ps [] (omega arith)

  admit-bounded :
      (count total : ℕ) (entries : List ZipEntry)
      → (sizes (admit tools count total entries) ≤ zip_scan_max_total_bytes - total)
        × (length (admit tools count total entries) ≤ zip_scan_max_entries - count)
  unfolding admit
  admit-bounded count total [] = (omega arith, omega arith)
  admit-bounded count total (e ∷ entries) =
      let passed = admit-bounded (suc count) total entries in
      let added = admit-bounded (suc count) (total + e.original_size) entries in
      (ground (arith, passed, added), ground (arith, passed, added))

  -- A name that leaves no folder, and a stated size that one entry may have.
  abbrev pub IsAdmissible : ZipEntry → Type 0
  IsAdmissible e =
      (is_unsafe_name tools e.name ≡ false) × (e.original_size ≤ zip_scan_max_entry_bytes)

  admit-IsAdmissible :
      (count total : ℕ) (entries : List ZipEntry)
      → All IsAdmissible (admit tools count total entries)
  unfolding admit
  admit-IsAdmissible count total [] = tt
  admit-IsAdmissible count total (e ∷ entries) =
      let passed = admit-IsAdmissible (suc count) total entries in
      let added = admit-IsAdmissible (suc count) (total + e.original_size) entries in
      elim (Bool-cases (ltb zip_scan_max_entries (suc count))) [
        | inl many ↦ rw many passed
        | inr few ↦ elim (Bool-cases (is_unsafe_name tools e.name)) [
          | inl unsafe ↦ rw (few, unsafe) passed
          | inr safe ↦ elim (Bool-cases (ltb zip_scan_max_entry_bytes e.original_size)) [
            | inl large ↦ rw (few, safe, large) passed
            | inr small ↦
                elim (Bool-cases (leb (total + e.original_size) zip_scan_max_total_bytes)) [
                  | inl fits ↦ rw (few, safe, small, fits) ((safe, ground (arith, small)), added)
                  | inr over ↦ rw (few, safe, small, over) added
                ]
          ]
        ]
      ]

  -- What is inflated of an archive, whatever it holds: no more than 512 entries, none of which
  -- names a place outside or states more than 16 MiB, and which state no more than 64 MiB together.
  pub admit-bounds :
      (entries : List ZipEntry)
      → (length (admit tools 0 0 entries) ≤ zip_scan_max_entries)
        × (sizes (admit tools 0 0 entries) ≤ zip_scan_max_total_bytes)
        × All IsAdmissible (admit tools 0 0 entries)
  admit-bounds entries =
      let bounded = admit-bounded 0 0 entries in
      (omega (arith, bounded.1), omega (arith, bounded.0), admit-IsAdmissible 0 0 entries)

  scan_entries-bounded :
      (ps : List SecretPattern) (entries : List ZipEntry) (fs : List SecretFinding)
      → scan_entries tools ps entries ≡ some fs
      → length fs ≤ max_secret_findings * length entries
  unfolding scan_entries
  scan_entries-bounded ps [] fs h = let same : [] ≡ fs = cc in omega (arith, ap length same)
  scan_entries-bounded ps (e ∷ entries) fs h = elim (Option-cases e.bytes) [
    | inl b ↦ cc (rw (scan_entries, b) at h)
    | inr (bytes, b) ↦ elim (Option-cases (scan_entries tools ps entries)) [
      | inl r ↦ cc (rw (scan_entries, b, r) at h)
      | inr (rest, r) ↦
          let own = scan_text tools (e.name ++ codes ": ") (tools.text_of bytes) ps in
          let whole : some (own ++ rest) ≡ some fs = rw (scan_entries, b, r) at h in
          let same : own ++ rest ≡ fs = cc in
          omega (
            arith,
            ap length same,
            length-append own rest,
            scan_text-bounded (e.name ++ codes ": ") (tools.text_of bytes) ps,
            scan_entries-bounded ps entries rest r,
          )
    ]
  ]

  scan_archive-bounded :
      (bytes : List ℕ) (ps : List SecretPattern)
      → length (scan_archive tools bytes ps) ≤ max_secret_findings * zip_scan_max_entries
  unfolding scan_archive
  scan_archive-bounded bytes ps = elim (Option-cases (tools.entries_of bytes)) [
    | inl u ↦ rw (scan_archive, u) (omega (arith, scan_text-bounded [] (tools.text_of bytes) ps))
    | inr (entries, u) ↦ elim (Option-cases (scan_entries tools ps (admit tools 0 0 entries))) [
      | inl r ↦
          rw (scan_archive, u, r) (omega (arith, scan_text-bounded [] (tools.text_of bytes) ps))
      | inr (fs, r) ↦
          rw (scan_archive, u, r)
            (omega (
              arith,
              scan_entries-bounded ps (admit tools 0 0 entries) fs r,
              (admit-bounds entries).0,
            ))
    ]
  ]

  -- An upload yields no more findings than ten thousand for each entry that is inflated of it, and
  -- no more than 512 entries are.
  pub scan-bounded :
      (bytes : List ℕ) (ps : List SecretPattern)
      → length (scan tools bytes ps) ≤ max_secret_findings * zip_scan_max_entries
  unfolding scan
  scan-bounded bytes ps = elim (Bool-cases (is_zip_bytes tools bytes)) [
    | inl z ↦ rw (scan, z) (scan_archive-bounded bytes ps)
    | inr z ↦ rw (scan, z) (omega (arith, scan_text-bounded [] (tools.text_of bytes) ps))
  ]
