-- ===== src/Store/TurnIdentity.antt =====
-- server/src/store/turn-identity.ts: a turn whose identifier another session holds is given one
-- that is derived from its own session.
pub mod Laws
pub mod Tests
use memoar.Prelude.{Bool, Option, none, some, List, [], ◌∷◌, ◌++◌, map}
use memoar.Prelude.Tests.{if◌then◌else◌, or_else}
use memoar.Prelude.Str.{Str, codes, contains}
use memoar.Prelude.JsMap.{JsMap, get, set}
use memoar.Canonical.{Turn, ArchivedSession}
use memoar.Host.{Host}
use memoar.Ids.{uuid_v5}

-- `derivedUuid(`${session.id}:turn:${turn.id}`)`
pub scoped_id : Host → Str → Str → Str
scoped_id host session_id turn_id = uuid_v5 host (session_id ++ (codes ":turn:" ++ turn_id))

-- The loop that fills `rescoped`.
pub collect_rescoped : Host → Str → List Str → List Turn → JsMap Str → JsMap Str
unfolding scoped_id
collect_rescoped host session_id taken [] rescoped = rescoped
collect_rescoped host session_id taken (turn ∷ turns) rescoped =
    collect_rescoped host session_id taken turns (
      if contains taken turn.id
      then set turn.id (scoped_id host session_id turn.id) rescoped
      else rescoped)

pub remap : JsMap Str → Option Str → Option Str
remap rescoped none = none
remap rescoped (some id) = some (or_else (get id rescoped) id)

pub remap_turn : JsMap Str → Turn → Turn
unfolding remap
remap_turn rescoped turn = record turn {
  id = or_else (get turn.id rescoped) turn.id;
  parent_id = remap rescoped turn.parent_id;
}

-- `takenElsewhere` is a set: a list whose repetitions do not matter.
pub scope_colliding_turns : Host → ArchivedSession → List Str → ArchivedSession
unfolding collect_rescoped remap_turn
scope_colliding_turns host session [] = session
scope_colliding_turns host session (t ∷ taken) =
    let rescoped = collect_rescoped host session.id (t ∷ taken) session.turns [] in
    elim rescoped [
      | [] ↦ session
      | e ∷ es ↦ record session { turns = map (remap_turn (e ∷ es)) session.turns }
    ]
