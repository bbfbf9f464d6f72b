-- ===== src/Store/TurnIdentity/Tests.antt =====
-- Runs of `scopeCollidingTurns`.
use memoar.Prelude.{◌≡◌, [], ◌∷◌, map}
use memoar.Prelude.Str.{codes}
use memoar.Store.TurnIdentity.{scope_colliding_turns}
use memoar.Store.TurnIdentity.Laws.{rename_turn, scope_colliding_turns-eq-rename}
use memoar.Examples.{host, session}

scope_colliding_turns-eq-rename_example :
    scope_colliding_turns host session (codes "x" ∷ [])
    ≡ record session { turns = map (rename_turn host session (codes "x" ∷ [])) session.turns }
scope_colliding_turns-eq-rename_example =
    scope_colliding_turns-eq-rename host session (codes "x" ∷ [])
