-- ===== src/Search/Degrading.antt =====
-- A search whose semantic leg fails is still a search, over the words alone.
use memoar.Prelude.{ℕ, ◌≤◌, ◌≡◌, refl, List, [], ◌∷◌, Option, none, some}
use memoar.Prelude.Lists.{length, length-take-le, take}
use memoar.Prelude.Str.{Str}
use memoar.Canonical.{TenantContext}
use memoar.Host.{Host}
use memoar.Search.{
  execute, fuse, hybrid, hybrid_answer, Leg, lexical, lexical_answer, Mode, Settled, rejected,
  resolved, Scores, SearchCandidate, SearchFilters, SearchResult, semantic, semantic_answer,
  semantic_failure_of,
}

module _ {S : Type 0} (scores : Scores S) (host : Host) (limit : ℕ) where
  -- The words alone realize any mode whose semantic leg fails, and only then is a failure named.
  abbrev pub realized_for : Mode → Settled (List (SearchCandidate S)) → Mode
  realized_for mode (resolved found) = mode
  realized_for mode (rejected reason) = lexical

  abbrev pub failure_for : Mode → Settled (List (SearchCandidate S)) → Option Str
  failure_for lexical meanings = none
  failure_for semantic (resolved found) = none
  failure_for semantic (rejected reason) = some (semantic_failure_of reason)
  failure_for hybrid (resolved found) = none
  failure_for hybrid (rejected reason) = some (semantic_failure_of reason)

  of_words : (o : Settled (List (SearchCandidate S))) → lexical ≡ realized_for lexical o
  of_words (resolved found) = refl
  of_words (rejected reason) = refl

  -- What is shown: the words where they are asked for or the semantic leg fails, else what that leg
  -- found, which for a hybrid request is fused with the words.
  abbrev pub Shown :
      Mode
      → List (SearchCandidate S)
      → Settled (List (SearchCandidate S))
      → List (SearchCandidate S)
      → Type 0
  Shown lexical words meanings shown = shown ≡ words
  Shown semantic words (rejected reason) shown = shown ≡ words
  Shown hybrid words (rejected reason) shown = shown ≡ words
  Shown semantic words (resolved found) shown = shown ≡ found
  Shown hybrid words (resolved found) shown =
      shown ≡ take limit (fuse scores host (words ∷ found ∷ []))

  -- An answer to a request of this mode: what it says of its mode and of a failure agree.
  pub record Answered (mode : Mode) (words : List (SearchCandidate S))
      (meanings : Settled (List (SearchCandidate S))) (o : Settled (SearchResult S)) : Type 0 where
    pub result : SearchResult S
    pub answer : o ≡ resolved result
    pub requested : result.requested_mode ≡ mode
    pub shown : Shown mode words meanings result.candidates
    pub bounded : length result.candidates ≤ limit
    pub realized : result.realized_mode ≡ realized_for mode meanings
    pub honest : result.semantic_failure ≡ failure_for mode meanings

  abbrev Short : Settled (List (SearchCandidate S)) → Type 0
  Short (resolved cs) = length cs ≤ limit
  Short (rejected reason) = Unit

  hybrid-Answered :
      (words : List (SearchCandidate S)) (meanings : Settled (List (SearchCandidate S)))
      → length words ≤ limit
      → Answered hybrid words meanings (hybrid_answer scores host limit (resolved words) meanings)
  unfolding hybrid_answer
  hybrid-Answered words (resolved found) h = record {
    result = record {
      candidates = take limit (fuse scores host (words ∷ found ∷ []));
      requested_mode = hybrid;
      realized_mode = hybrid;
      semantic_failure = none;
    };
    answer = refl;
    requested = refl;
    shown = refl;
    bounded = length-take-le limit (fuse scores host (words ∷ found ∷ []));
    realized = refl;
    honest = refl;
  }
  hybrid-Answered words (rejected reason) h = record {
    result = record {
      candidates = words;
      requested_mode = hybrid;
      realized_mode = lexical;
      semantic_failure = some (semantic_failure_of reason);
    };
    answer = refl;
    requested = refl;
    shown = refl;
    bounded = h;
    realized = refl;
    honest = refl;
  }

  semantic-Answered :
      (words : List (SearchCandidate S)) (meanings : Settled (List (SearchCandidate S)))
      → length words ≤ limit
      → Short meanings
      → Answered semantic words meanings (semantic_answer scores (resolved words) meanings)
  unfolding semantic_answer lexical_answer
  semantic-Answered words (resolved found) h short = record {
    result = record {
      candidates = found;
      requested_mode = semantic;
      realized_mode = semantic;
      semantic_failure = none;
    };
    answer = refl;
    requested = refl;
    shown = refl;
    bounded = short;
    realized = refl;
    honest = refl;
  }
  semantic-Answered words (rejected reason) h short = record {
    result = record {
      candidates = words;
      requested_mode = semantic;
      realized_mode = lexical;
      semantic_failure = some (semantic_failure_of reason);
    };
    answer = refl;
    requested = refl;
    shown = refl;
    bounded = h;
    realized = refl;
    honest = refl;
  }

  -- If the words can be searched, every request is answered, in whatever way the semantic leg
  -- ends: by exactly the words found where that leg fails or only words are asked for, by what the
  -- leg found, or by both fused; within the limit, if the legs keep it; and with a failure named
  -- wherever the realized mode is not the requested one.
  pub execute-Answered :
      (backend provider : Leg S) (context : TenantContext) (query : Str) (mode : Mode)
      (filters : SearchFilters) (words : List (SearchCandidate S))
      → backend context query filters limit ≡ resolved words
      → length words ≤ limit
      → Short (provider context query filters limit)
      → Answered mode words
          (provider context query filters limit)
          (execute scores host backend provider context query mode filters limit)
  unfolding execute lexical_answer
  execute-Answered backend provider context query lexical filters words e h short =
      rw (e, lexical_answer)
        (record {
          result = record {
            candidates = words;
            requested_mode = lexical;
            realized_mode = lexical;
            semantic_failure = none;
          };
          answer = refl;
          requested = refl;
          shown = refl;
          bounded = h;
          realized = of_words (provider context query filters limit);
          honest = refl;
        })
  execute-Answered backend provider context query semantic filters words e h short =
      rw e (semantic-Answered words (provider context query filters limit) h short)
  execute-Answered backend provider context query hybrid filters words e h short =
      rw e (hybrid-Answered words (provider context query filters limit) h)
