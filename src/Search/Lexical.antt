-- ===== src/Search/Lexical.antt =====
-- server/src/search/backends.ts: `DeterministicLexicalBackend`, over the in-memory store.
use Prim.Native.Nat.{◌/◌}
use mathlib.Core.Option
use memoar.Prelude.{ℕ, suc, ◌+◌, ◌-◌, List, [], ◌∷◌, ◌++◌, map, Option, none, some, Ordering}
use memoar.Prelude.Tests.{if◌then◌else◌, leb, or_else}
use memoar.Prelude.Lists.{drop, filter, length, sort_by, take}
use memoar.Prelude.Str.{contains, Str, codes, starts_with, str_lt, truthy}
use memoar.Prelude.JsMap.{get, has, JsMap, set}
use memoar.Canonical.{ArchivedSession, ContentBlock, Turn}
use memoar.Host.{Host, then_by}
use memoar.Search.{Leg, message, rejected, resolved, Scores, SearchCandidate}
use memoar.Store.Sessions.{list_sessions}
use memoar.Store.Tables.{MemoryTables}
use memoar.Store.TeamVisibility.{is_team_visible}

-- `text.toLocaleLowerCase("en-US")`, the matches of the regular expression of a word, and the
-- replacement of every run of white space by one space.
pub record Texts : Type 0 where
  pub lower : Str → Str
  pub matches : Str → List Str
  pub squeeze : Str → Str

pub words : Texts → Str → List Str
words texts value = texts.matches (texts.lower value)

unfoldable pub join_lines : List Str → Str
join_lines [] = []
join_lines (line ∷ []) = line
join_lines (line ∷ (next ∷ lines)) = line ++ (codes "\n" ++ join_lines (next ∷ lines))

block_texts : List ContentBlock → List Str
block_texts = map (λ (b : ContentBlock). or_else b.text [])

turn_texts : List Turn → List Str
unfolding block_texts
turn_texts [] = []
turn_texts (turn ∷ turns) = block_texts turn.blocks ++ turn_texts turns

pub session_text : ArchivedSession → Str
unfolding join_lines turn_texts
session_text session =
    join_lines (session.title ∷ or_else session.summary [] ∷ turn_texts session.turns)

-- `text.indexOf(word)`, unless it is -1
pub index_of : Str → Str → Option ℕ
index_of [] word = if starts_with [] word then some 0 else none
index_of (c ∷ text) word =
    let rest = index_of text word in
    if starts_with (c ∷ text) word then some 0 else Option.map suc rest

smaller : Option ℕ → Option ℕ → Option ℕ
smaller none position = position
smaller (some p) none = some p
smaller (some p) (some q) = some (if leb p q then p else q)

first_position : Str → List Str → Option ℕ
unfolding index_of smaller
first_position text [] = none
first_position text (word ∷ rest) = smaller (index_of text word) (first_position text rest)

pub excerpt_around : Host → Texts → Str → List Str → ℕ → Str
unfolding first_position
excerpt_around host texts text query_words maximum =
    let first = or_else (first_position (texts.lower text) query_words) 0 in
    host.trim (texts.squeeze (take maximum (drop (first - maximum / 3) text)))

-- `[...new Set(words)].sort()`
terms_of : List Str → List Str
terms_of words =
    sort_by
      (λ a b. if str_lt a b then Ordering.lt else if str_lt b a then Ordering.gt else Ordering.eq)
      (distinct [] words)
  where
    distinct : List Str → List Str → List Str
    distinct seen [] = []
    distinct seen (w ∷ ws) =
        let kept = distinct (w ∷ seen) ws in
        let skipped = distinct seen ws in if contains seen w then skipped else w ∷ kept

frequencies : List Str → JsMap ℕ → JsMap ℕ
frequencies [] counts = counts
frequencies (w ∷ ws) counts = frequencies ws (set w (suc (or_else (get w counts) 0)) counts)

matched : JsMap ℕ → List Str → ℕ
matched counts [] = 0
matched counts (term ∷ terms) = or_else (get term counts) 0 + matched counts terms

covered : JsMap ℕ → List Str → ℕ
covered counts terms = length (filter (λ term. has term counts) terms)

module _ {S : Type 0} (scores : Scores S) (host : Host) (texts : Texts) where
  unfoldable pub candidate_of : List Str → ArchivedSession → SearchCandidate S
  unfolding words session_text frequencies matched covered excerpt_around
  candidate_of terms session =
      let text = session_text session in
      let counts = frequencies (words texts text) [] in
      record {
        session = session;
        score = scores.whole_and_part (matched counts terms) (covered counts terms) (length terms);
        highlight = excerpt_around host texts text terms 240;
      }

  pub by_relevance : SearchCandidate S → SearchCandidate S → Ordering
  by_relevance left right = then_by (scores.compare right.score left.score) (
      then_by (host.locale_compare right.session.updated_at left.session.updated_at)
        (host.locale_compare left.session.id right.session.id))

  abbrev present : Option Str → Option Str
  present none = none
  present (some s) = if truthy s then some s else none

  -- `teamId ? page.items.filter(…) : page.items`
  unfoldable pub visible_to : Option Str → List ArchivedSession → List ArchivedSession
  visible_to none sessions = sessions
  visible_to (some team_id) sessions =
      if truthy team_id
      then filter (λ (s : ArchivedSession). is_team_visible s.visibility team_id) sessions
      else sessions

  unfoldable pub lexical_leg : MemoryTables → Leg S
  unfolding terms_of words visible_to candidate_of by_relevance
  lexical_leg tables context query filters limit =
      let page =
        list_sessions host context
          (record {
            agent = present filters.agent;
            workspace = present filters.workspace;
            machine_id = none;
            model = none;
            since = filters.since;
            until = filters.until;
            cursor = none;
            limit = 100;
          })
          tables in
      let visible = visible_to filters.team_id page.items in
      let ranked =
        filter (λ (c : SearchCandidate S). scores.positive c.score)
          (map (candidate_of (terms_of (words texts query))) visible) in
      resolved (take limit (sort_by by_relevance ranked))

  -- `DisabledSemanticSearchProvider`
  unfoldable pub disabled_leg : Leg S
  disabled_leg context query filters limit =
      rejected (message (codes "semantic_provider_unavailable"))
