-- ===== src/Search/Packs.antt =====
-- server/src/search/search.service.ts: `PackService`, which quotes the results of a search within
-- a budget of characters. A pack is built from the candidates in their order.
pub mod Budget
use Prim.Native.Nat.{◌*◌, ◌/◌, ◌%◌, min}
use memoar.Prelude.{
  ℕ, zero, suc, ◌+◌, ◌-◌, Bool, true, false, not, ◌&&◌, ◌||◌, List, [], ◌∷◌, ◌++◌, map, Option,
  none, some,
}
use memoar.Prelude.Tests.{if◌then◌else◌, leb, ltb, or_else}
use memoar.Prelude.Lists.{any, filter, last?, length, take}
use memoar.Prelude.Str.{contains, Str, codes, truthy}
use memoar.Canonical.{
  ArchivedSession, clear, ContentBlock, findings, RedactionStatus, reviewed, Turn,
}
use memoar.Host.{Host}
use memoar.Search.{SearchCandidate}
use memoar.Search.Lexical.{join_lines}

pub data Freshness : Type 0 where
  strict mixed : Freshness

pub record PackRequest : Type 0 where
  pub query : Str
  pub max_tokens : ℕ
  pub max_evidence : ℕ
  pub max_sessions : ℕ
  pub max_excerpt_chars : ℕ
  pub freshness_policy : Freshness
  pub stale_after_days : Option ℕ

-- An age that is not a number is `none`.
pub record PackEvidence : Type 0 where
  pub session_id : Str
  pub turn_start : ℕ
  pub turn_end : ℕ
  pub age_days : Option ℕ
  pub excerpt : Str

-- `clear | findings | mixed`
pub data PackStatus : Type 0 where
  all_clear some_findings some_mixed : PackStatus

is_clear : RedactionStatus → Bool
is_clear clear = true
is_clear _ = false

pub pack_redaction_status : List RedactionStatus → PackStatus
unfolding is_clear
pack_redaction_status statuses =
    if not (any (λ (s : RedactionStatus). not (is_clear s)) statuses)
    then all_clear
    else if any is_clear statuses
    then some_mixed
    else some_findings

-- `${n}`; a number has no more digits than its value and one.
digits : ℕ → ℕ → Str
digits zero n = []
digits (suc fuel) n =
    let rest = digits fuel (n / 10) in
    if ltb n 10 then (n + 48) ∷ [] else rest ++ ((n % 10 + 48) ∷ [])

pub decimal : ℕ → Str
unfolding digits
decimal n = digits (suc n) n

-- The turns that have text, each with its ordinal.
turn_text : Turn → Str
turn_text turn =
    join_lines (filter truthy (map (λ (b : ContentBlock). or_else b.text []) turn.blocks))

pub textual_turns : List Turn → List (ℕ × Str)
unfolding turn_text
textual_turns [] = []
textual_turns (turn ∷ turns) =
    let rest = textual_turns turns in
    if truthy (turn_text turn) then (turn.ordinal, turn_text turn) ∷ rest else rest

pub piece : ℕ × Str → Str
unfolding decimal
piece (ordinal, text) = codes "[turn " ++ (decimal ordinal ++ (codes "] " ++ text))

-- The turns from an offset on, and the last that began before it.
pub cited : ℕ → ℕ → ℕ → List (ℕ × Str) → ℕ
unfolding piece
cited kept offset last [] = last
cited kept offset last (turn ∷ turns) =
    let further = cited kept (offset + length (piece turn) + 1) turn.0 turns in
    if leb kept offset then last else further

pub cited_turn_end : ℕ × Str → List (ℕ × Str) → ℕ → ℕ
unfolding cited
cited_turn_end first rest kept = cited kept 0 first.0 (first ∷ rest)

-- What the loop has gathered.
pub record Gathered : Type 0 where
  pub remaining : ℕ
  pub evidence : List PackEvidence
  pub selected : List Str
  pub stale_count : ℕ
  pub redactions : List RedactionStatus
  pub sections : List Str

-- One candidate ends the loop, or leaves what was gathered with or without a section more.
pub data Considered : Type 0 where
  stop : Considered
  go_on : Gathered → Considered

pub age_of : Host → ℕ → ArchivedSession → Option ℕ
age_of host now session = elim (host.time_of session.updated_at) [
  | none ↦ none
  | some updated ↦ some ((now - updated) / 86400000)
]

pub is_stale : PackRequest → Option ℕ → Bool
is_stale request none = false
is_stale request (some days) = ltb (or_else request.stale_after_days 90) days

pub is_strict : Freshness → Bool
is_strict strict = true
is_strict mixed = false

age_text : Option ℕ → Str
unfolding decimal
age_text none = codes "NaN"
age_text (some days) = decimal days

pub heading : ℕ → Str → ℕ → ℕ → Option ℕ → Str
unfolding decimal age_text
heading number session_id turn_start turn_end age =
    codes "\n## ["
    ++ (decimal number
        ++ (codes "] "
            ++ (session_id
                ++ (codes " turns "
                    ++ (decimal turn_start
                        ++ (codes "-"
                            ++ (decimal turn_end
                                ++ (codes " age " ++ (age_text age ++ codes "d\n")))))))))

add_selected : Str → List Str → List Str
add_selected id selected = if contains selected id then selected else selected ++ (id ∷ [])

last_ordinal : ℕ × Str → List (ℕ × Str) → ℕ
last_ordinal first [] = first.0
last_ordinal first (next ∷ rest) = last_ordinal next rest

-- The section of one candidate: its widest heading, the characters that leaves to the excerpt, and
-- the section itself.
module _ (request : PackRequest) (session : ArchivedSession) (age : Option ℕ) (first : ℕ × Str)
    (rest : List (ℕ × Str)) (gathered : Gathered) where
  heading_to : ℕ → Str
  unfolding heading
  heading_to turn_end = heading (length gathered.evidence + 1) session.id first.0 turn_end age

  pub available_excerpt : ℕ
  unfolding heading_to last_ordinal
  available_excerpt =
      min request.max_excerpt_chars
        (gathered.remaining - length (heading_to (last_ordinal first rest)) - 1)

  pub excerpt_of : Str
  unfolding available_excerpt piece
  excerpt_of = take available_excerpt (join_lines (map piece (first ∷ rest)))

  pub section_of : Str
  unfolding heading_to cited_turn_end excerpt_of
  section_of =
      heading_to (cited_turn_end first rest (length excerpt_of)) ++ (excerpt_of ++ codes "\n")

  pub with_section : Gathered
  unfolding section_of cited_turn_end excerpt_of add_selected is_stale
  with_section = record {
    remaining = gathered.remaining - length section_of;
    evidence =
        gathered.evidence
        ++ (record {
          session_id = session.id;
          turn_start = first.0;
          turn_end = cited_turn_end first rest (length excerpt_of);
          age_days = age;
          excerpt = excerpt_of;
        }
            ∷ []);
    selected = add_selected session.id gathered.selected;
    stale_count = if is_stale request age then suc gathered.stale_count else gathered.stale_count;
    redactions = gathered.redactions ++ (session.redaction_status ∷ []);
    sections = gathered.sections ++ (section_of ∷ []);
  }

  -- The section, if it fits in what remains.
  pub quote : Considered
  unfolding available_excerpt section_of with_section
  quote =
      if ltb available_excerpt 1
      then stop
      else if ltb gathered.remaining (length section_of)
      then stop
      else go_on with_section

pub consider : Host → PackRequest → ℕ → ArchivedSession → Gathered → Considered
unfolding quote textual_turns is_stale is_strict age_of
consider host request now session gathered =
    let age = age_of host now session in
    if leb request.max_evidence (length gathered.evidence)
      || leb request.max_sessions (length gathered.selected)
    then stop
    else if is_stale request age && is_strict request.freshness_policy
    then go_on gathered
    else elim (textual_turns session.turns) [
      | [] ↦ go_on gathered
      | first ∷ rest ↦ quote request session age first rest gathered
    ]

pub gather : {S : Type 0} → Host → PackRequest → ℕ → List (SearchCandidate S) → Gathered → Gathered
unfolding consider
gather host request now [] gathered = gathered
gather host request now (candidate ∷ rest) gathered =
    elim (consider host request now candidate.session gathered) [
      | stop ↦ gathered
      | go_on next ↦ gather host request now rest next
    ]

unfoldable pub prefix : PackRequest → Str
prefix request = codes "# Memoar evidence\n\nQuery: " ++ (request.query ++ codes "\n")

pub start_pack : PackRequest → Gathered
unfolding prefix
start_pack request = record {
  remaining = request.max_tokens * 4 - length (prefix request);
  evidence = [];
  selected = [];
  stale_count = 0;
  redactions = [];
  sections = [];
}

pub concat : List Str → Str
concat [] = []
concat (section ∷ sections) = section ++ concat sections

pub record Pack : Type 0 where
  pub query : Str
  pub markdown : Str
  pub evidence : List PackEvidence
  pub token_estimate : ℕ
  pub stale_count : ℕ
  pub redaction_status : PackStatus

-- `build`, after its search; `now` is the time in milliseconds.
unfoldable pub build : {S : Type 0} → Host → PackRequest → ℕ → List (SearchCandidate S) → Pack
unfolding gather start_pack concat prefix pack_redaction_status
build host request now candidates =
    let gathered = gather host request now candidates (start_pack request) in
    let markdown = take (request.max_tokens * 4) (prefix request ++ concat gathered.sections) in
    record {
      query = request.query;
      markdown = markdown;
      evidence = gathered.evidence;
      token_estimate = (length markdown + 3) / 4;
      stale_count = gathered.stale_count;
      redaction_status = pack_redaction_status gathered.redactions;
    }
