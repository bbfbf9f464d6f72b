-- ===== src/Search.antt =====
-- server/src/search/search.service.ts and team-search.ts: ranked lists, how they are fused, and
-- what a search answers when a leg of it fails. A search over a team runs its legs in any order:
-- they only read, and their lists stand in the order of the tenants.
pub mod Lexical
pub mod Fusing
pub mod Degrading
pub mod Visible
pub mod Semantic
pub mod Packs
pub mod Tests
use memoar.Prelude.{
  ℕ, suc, ◌+◌, Bool, true, false, ◌||◌, List, [], ◌∷◌, ◌++◌, map, Option, none, some, Ordering,
}
use memoar.Prelude.Tests.{if◌then◌else◌, is_some, ltb, or_else}
use memoar.Prelude.Lists.{length, sort_by, take}
use memoar.Prelude.Str.{Str, codes, truthy}
use memoar.Prelude.JsMap.{get, JsMap, set, values}
use memoar.Canonical.{ArchivedSession, machine, TenantContext}
use memoar.Host.{Host, then_by}

-- The floating-point numbers that rank the candidates: `a + b / c`, which is `a` where `c` is 0,
-- `1 / n`, a sum, the sign of `a - b`, and whether a score is above 0.
pub record Scores (S : Type 0) : Type 0 where
  pub whole_and_part : ℕ → ℕ → ℕ → S
  pub reciprocal : ℕ → S
  pub plus : S → S → S
  pub compare : S → S → Ordering
  pub positive : S → Bool

pub record SearchCandidate (S : Type 0) : Type 0 where
  pub session : ArchivedSession
  pub score : S
  pub highlight : Str

pub record SearchFilters : Type 0 where
  pub agent : Option Str
  pub workspace : Option Str
  pub since : Option ℕ
  pub until : Option ℕ
  pub team_id : Option Str

pub data Mode : Type 0 where
  hybrid lexical semantic : Mode

pub record SearchResult (S : Type 0) : Type 0 where
  pub candidates : List (SearchCandidate S)
  pub requested_mode : Mode
  pub realized_mode : Mode
  pub semantic_failure : Option Str

-- What a promise is rejected with: an `Error` and its message, or anything else.
pub data Reason : Type 0 where
  message : Str → Reason
  other : Reason

pub data Settled {ℓ} (A : Type ℓ) : Type ℓ where
  resolved : A → Settled A
  rejected : Reason → Settled A

-- The lexical backend or the semantic provider.
abbrev pub Leg : Type 0 → Type 0
Leg S = TenantContext → Str → SearchFilters → ℕ → Settled (List (SearchCandidate S))

pub semantic_failure_of : Reason → Str
semantic_failure_of (message m) = m
semantic_failure_of other = codes "semantic_provider_failed"

module _ {S : Type 0} (scores : Scores S) where
  -- The groups of `fuse`: the first candidate of each session, with what its places add up to.
  abbrev pub Fused : Type 0
  Fused = JsMap (SearchCandidate S × S)

  pub fuse_one : ℕ → SearchCandidate S → Fused → Fused
  fuse_one index candidate fused =
      let share = scores.reciprocal (60 + index + 1) in
      elim (get candidate.session.id fused) [
        | some (first, sum) ↦ set candidate.session.id (first, scores.plus sum share) fused
        | none ↦ set candidate.session.id (candidate, share) fused
      ]

  pub fuse_list : ℕ → List (SearchCandidate S) → Fused → Fused
  unfolding fuse_one
  fuse_list index [] fused = fused
  fuse_list index (candidate ∷ rest) fused =
      fuse_list (suc index) rest (fuse_one index candidate fused)

  pub fuse_lists : List (List (SearchCandidate S)) → Fused → Fused
  unfolding fuse_list
  fuse_lists [] fused = fused
  fuse_lists (list ∷ lists) fused = fuse_lists lists (fuse_list 0 list fused)

  pub by_score : Host → SearchCandidate S × S → SearchCandidate S × S → Ordering
  by_score host left right =
      then_by (scores.compare right.1 left.1)
        (host.locale_compare left.0.session.id right.0.session.id)

  pub scored : SearchCandidate S × S → SearchCandidate S
  scored (candidate, sum) = record candidate { score = sum }

  pub fuse : Host → List (List (SearchCandidate S)) → List (SearchCandidate S)
  unfolding fuse_lists by_score scored
  fuse host lists = map scored (sort_by (by_score host) (values (fuse_lists lists [])))

  -- Where lexical alone is answered: because it was asked for, or because the semantic leg failed.
  pub lexical_answer :
      Settled (List (SearchCandidate S)) → Mode → Option Str → Settled (SearchResult S)
  lexical_answer (rejected reason) mode failure = rejected reason
  lexical_answer (resolved candidates) mode failure = resolved (record {
    candidates = candidates;
    requested_mode = mode;
    realized_mode = lexical;
    semantic_failure = failure;
  })

  pub semantic_answer :
      Settled (List (SearchCandidate S))
      → Settled (List (SearchCandidate S))
      → Settled (SearchResult S)
  unfolding lexical_answer semantic_failure_of
  semantic_answer lexical_leg (rejected reason) =
      lexical_answer lexical_leg semantic (some (semantic_failure_of reason))
  semantic_answer lexical_leg (resolved candidates) = resolved (record {
    candidates = candidates;
    requested_mode = semantic;
    realized_mode = semantic;
    semantic_failure = none;
  })

  pub hybrid_answer :
      Host
      → ℕ
      → Settled (List (SearchCandidate S))
      → Settled (List (SearchCandidate S))
      → Settled (SearchResult S)
  unfolding fuse semantic_failure_of
  hybrid_answer host limit (rejected reason) _ = rejected reason
  hybrid_answer host limit (resolved words) (rejected reason) = resolved (record {
    candidates = words;
    requested_mode = hybrid;
    realized_mode = lexical;
    semantic_failure = some (semantic_failure_of reason);
  })
  hybrid_answer host limit (resolved words) (resolved meanings) = resolved (record {
    candidates = take limit (fuse host (words ∷ meanings ∷ []));
    requested_mode = hybrid;
    realized_mode = hybrid;
    semantic_failure = none;
  })

  -- `SearchService.execute`
  pub execute :
      Host
      → Leg S
      → Leg S
      → TenantContext
      → Str
      → Mode
      → SearchFilters
      → ℕ
      → Settled (SearchResult S)
  unfolding lexical_answer semantic_answer hybrid_answer
  execute host backend provider context query mode filters limit =
      let words = backend context query filters limit in
      let meanings = provider context query filters limit in
      elim mode [
        | lexical ↦ lexical_answer words lexical none
        | semantic ↦ semantic_answer words meanings
        | hybrid ↦ hybrid_answer host limit words meanings
      ]

  pub record TenantLeg : Type 0 where
    pub words : List (SearchCandidate S)
    pub meanings : Option (List (SearchCandidate S))
    pub failure : Option Str

  -- A read context for one member's tenant.
  abbrev pub context_for : Str → TenantContext
  context_for tenant_id = record {
    tenant_id = tenant_id;
    user_id = tenant_id;
    org_id = none;
    team_id = none;
    machine_id = none;
    scopes = codes "archive:read" ∷ [];
    auth_type = machine;
    credential_id = none;
  }

  pub is_lexical : Mode → Bool
  is_lexical lexical = true
  is_lexical _ = false

  pub leg_of : Mode → List (SearchCandidate S) → Settled (List (SearchCandidate S)) → TenantLeg
  unfolding is_lexical semantic_failure_of
  leg_of mode words meanings =
      if is_lexical mode
      then record { words = words; meanings = none; failure = none }
      else elim meanings [
        | resolved found ↦ record { words = words; meanings = some found; failure = none }
        | rejected reason ↦ record {
          words = words;
          meanings = none;
          failure = some (semantic_failure_of reason);
        }
      ]

  -- `TeamSearchService.leg`
  pub leg : Leg S → Leg S → Str → Str → Mode → SearchFilters → ℕ → Settled TenantLeg
  unfolding leg_of
  leg backend provider tenant_id query mode filters limit =
      elim (backend (context_for tenant_id) query filters limit) [
        | rejected reason ↦ rejected reason
        | resolved words ↦
            resolved (leg_of mode words (provider (context_for tenant_id) query filters limit))
      ]

  pub legs_of : Leg S → Leg S → List Str → Str → Mode → SearchFilters → ℕ → Settled (List TenantLeg)
  unfolding leg
  legs_of backend provider [] query mode filters limit = resolved []
  legs_of backend provider (tenant_id ∷ rest) query mode filters limit =
      let others = legs_of backend provider rest query mode filters limit in
      elim (leg backend provider tenant_id query mode filters limit) [
        | rejected reason ↦ rejected reason
        | resolved one ↦ elim others [
          | rejected reason ↦ rejected reason
          | resolved more ↦ resolved (one ∷ more)
        ]
      ]

  -- `legs.find((leg) => leg.failure)?.failure ?? null`: an empty message is no failure.
  pub failure_of : List TenantLeg → Option Str
  failure_of [] = none
  failure_of (one ∷ legs) = elim one.failure [
    | none ↦ failure_of legs
    | some m ↦ if truthy m then some m else failure_of legs
  ]

  -- The lists that are fused: all lexical, all semantic, or both of each tenant.
  pub words_of : List TenantLeg → List (List (SearchCandidate S))
  words_of = map (λ (one : TenantLeg). one.words)

  pub meanings_of : List TenantLeg → List (List (SearchCandidate S))
  meanings_of = map (λ (one : TenantLeg). or_else one.meanings [])

  pub both_of : List TenantLeg → List (List (SearchCandidate S))
  both_of [] = []
  both_of (one ∷ legs) = one.words ∷ or_else one.meanings [] ∷ both_of legs

  pub lists_of : Mode → Bool → List TenantLeg → List (List (SearchCandidate S))
  unfolding words_of meanings_of both_of
  lists_of mode true legs = words_of legs
  lists_of semantic false legs = meanings_of legs
  lists_of lexical false legs = both_of legs
  lists_of hybrid false legs = both_of legs

  abbrev pub max_team_search_tenants : ℕ
  max_team_search_tenants = 25

  -- `none` is the refusal of too many tenants.
  pub team_execute :
      Host
      → Leg S
      → Leg S
      → Str
      → List Str
      → Str
      → Mode
      → SearchFilters
      → ℕ
      → Option (Settled (SearchResult S))
  unfolding legs_of failure_of lists_of fuse is_lexical
  team_execute host backend provider team_id tenant_ids query mode filters limit =
      let found =
        legs_of backend provider tenant_ids query mode (record filters { team_id = some team_id })
          limit in
      if ltb max_team_search_tenants (length tenant_ids)
      then none
      else some (elim found [
        | rejected reason ↦ rejected reason
        | resolved legs ↦
            let failure = failure_of legs in
            let lexical_only = is_lexical mode || is_some failure in
            resolved (record {
              candidates = take limit (fuse host (lists_of mode lexical_only legs));
              requested_mode = mode;
              realized_mode = if lexical_only then lexical else mode;
              semantic_failure = failure;
            })
      ])
