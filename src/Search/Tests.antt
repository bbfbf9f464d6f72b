-- ===== src/Search/Tests.antt =====
-- Runs of searches and packs over one archive, with whole numbers for scores.
use memoar.Prelude.Lists.{filter}
use memoar.Search.Lexical.{join_lines}
use Prim.Native.Nat.{compare}
use memoar.Prelude.{ℕ, ◌+◌, ◌-◌, ◌≡◌, ◌≤◌, refl, [], ◌∷◌, ◌++◌, none, some, arith}
use memoar.Prelude.Tests.{ltb}
use memoar.Prelude.Lists.{All, length}
use memoar.Prelude.Str.{codes}
use memoar.Canonical.{ContentBlock, ContentBlockKind}
use memoar.Search.{execute, hybrid, Leg, resolved, Scores, SearchCandidate, SearchFilters}
use memoar.Search.Degrading.{Answered, execute-Answered}
use memoar.Search.Lexical.{disabled_leg, Texts}
use memoar.Search.Packs.{build, mixed, PackEvidence, PackRequest, prefix, concat}
use memoar.Search.Packs.Budget.{build-budget, build-whole, sections_of}
use memoar.Examples.{ann, host, session, session_named, turn}

abbrev pub scores : Scores ℕ
scores = record {
  whole_and_part = λ whole part of. whole + part;
  reciprocal = λ n. 1000 - n;
  plus = λ a b. a + b;
  compare = compare;
  positive = λ a. ltb 0 a;
}

-- A text is one word.
abbrev pub texts : Texts
texts = record { lower = λ text. text; matches = λ text. text ∷ []; squeeze = λ text. text }

abbrev pub filters : SearchFilters
filters = record { agent = none; workspace = none; since = none; until = none; team_id = none }

abbrev pub found : SearchCandidate ℕ
found = record { session = session; score = 2; highlight = codes "T\n" }

abbrev other_found : SearchCandidate ℕ
other_found = record found { session = session_named (codes "z") (codes "3") }

abbrev one_word : Leg ℕ
one_word context query within limit = resolved (found ∷ [])

execute-Answered_example :
    Answered scores host 5 hybrid
      (found ∷ [])
      (disabled_leg scores host texts ann (codes "T") filters 5)
      (execute scores host one_word
        (disabled_leg scores host texts)
        ann
        (codes "T")
        hybrid
        filters
        5)
unfolding disabled_leg
execute-Answered_example =
    execute-Answered scores host 5 one_word (disabled_leg scores host texts) ann (codes "T") hybrid
      filters (found ∷ []) refl (omega arith) tt

abbrev request : PackRequest
request = record {
  query = codes "q";
  max_tokens = 40;
  max_evidence = 2;
  max_sessions = 2;
  max_excerpt_chars = 20;
  freshness_policy = mixed;
  stale_after_days = none;
}

abbrev block : ContentBlock
block = record {
  id = codes "b";
  kind = ContentBlockKind.text;
  text = some (codes "a long answer that is cut");
  name = none;
  call_id = none;
  language = none;
  mime_type = none;
  artifact_ref = none;
  payload = none;
  ext = none;
}

abbrev told : SearchCandidate ℕ
told = record found {
  session = record session { turns = record turn { blocks = block ∷ [] } ∷ [] };
}

quoted :
    (build host request 0 (told ∷ [])).markdown
    ≡ codes "# Memoar evidence\n\nQuery: q\n\n## [1] s turns 0-0 age 0d\n[turn 0] a long answ\n"
unfolding build join_lines filter
quoted = refl

build-budget_example :
    (length (build host request 0 (told ∷ [])).markdown ≤ 160)
    × (length (build host request 0 (told ∷ [])).evidence ≤ 2)
    × All (λ (e : PackEvidence). length e.excerpt ≤ 20) (build host request 0 (told ∷ [])).evidence
build-budget_example = build-budget host request 0 (told ∷ [])

build-whole_example :
    (build host request 0 (told ∷ [])).markdown
    ≡ prefix request ++ concat (sections_of host request 0 (told ∷ []))
unfolding prefix
build-whole_example = build-whole host request 0 (told ∷ []) (omega arith)
