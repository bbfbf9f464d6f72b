-- ===== src/Store/TurnIdentity/Laws.antt =====
-- `scopeCollidingTurns` against a description of it turn by turn.
use memoar.Prelude.{
  ◌≡◌, refl, ap, ◌∙◌, inl, inr, Bool, true, false, ◌&&◌, ◌||◌, List, [], ◌∷◌, map, Option, none,
  some, arith,
}
use memoar.Prelude.Tests.{if◌then◌else◌, or_else, Bool-cases}
use memoar.Prelude.Lists.{All}
use memoar.Prelude.Str.{Str, eq_iff, eq_refl, contains}
use memoar.Prelude.JsMap.{JsMap, get, set, get-set}
use memoar.Canonical.{Turn, ArchivedSession}
use memoar.Host.{Host}
use memoar.Store.TurnIdentity.{
  scoped_id, collect_rescoped, remap, remap_turn, scope_colliding_turns,
}

abbrev turn_ids : List Turn → List Str
turn_ids = map (λ (turn : Turn). turn.id)

-- The name of an identifier after the scoping: a taken one that a turn of the session bears is
-- replaced, every other is kept.
unfoldable pub renamed : Host → ArchivedSession → List Str → Str → Str
renamed host session taken id =
    if contains taken id && contains (turn_ids session.turns) id
    then scoped_id host session.id id
    else id

unfoldable pub rename_parent : Host → ArchivedSession → List Str → Option Str → Option Str
rename_parent host session taken none = none
rename_parent host session taken (some id) = some (renamed host session taken id)

unfoldable pub rename_turn : Host → ArchivedSession → List Str → Turn → Turn
unfolding rename_parent
rename_turn host session taken turn = record turn {
  id = renamed host session taken turn.id;
  parent_id = rename_parent host session taken turn.parent_id;
}

module _ (host : Host) (sid : Str) (taken : List Str) where
  get-collect_rescoped :
      (k : Str) (turns : List Turn) (acc : JsMap Str)
      → get k (collect_rescoped host sid taken turns acc) ≡ (
          if contains taken k && contains (turn_ids turns) k
          then some (scoped_id host sid k)
          else get k acc)
  unfolding collect_rescoped contains
  get-collect_rescoped k [] acc = ground arith
  get-collect_rescoped k (turn ∷ turns) acc = elim (Bool-cases (contains taken turn.id)) [
    | inl e ↦
        rw (e, get-collect_rescoped k turns (set turn.id (scoped_id host sid turn.id) acc))
          (ground (arith, eq_iff turn.id k, get-set turn.id k (scoped_id host sid turn.id) acc))
    | inr e ↦ rw (e, get-collect_rescoped k turns acc) (ground (arith, eq_iff turn.id k))
  ]

or-true : (b : Bool) → (b || true) ≡ true
or-true true = refl
or-true false = refl

map-ext : {A B : Type 0} (f g : A → B) (xs : List A) → ((x : A) → f x ≡ g x) → map f xs ≡ map g xs
map-ext f g [] h = refl
map-ext f g (x ∷ xs) h = cc (h x, map-ext f g xs h)

map_self : {A : Type 0} (f : A → A) (xs : List A) → ((x : A) → f x ≡ x) → xs ≡ map f xs
map_self f [] h = refl
map_self f (x ∷ xs) h = cc (h x, map_self f xs h)

module _ (host : Host) (session : ArchivedSession) (taken : List Str) where
  found : JsMap Str
  found = collect_rescoped host session.id taken session.turns []

  renamed-found : (k : Str) → or_else (get k found) k ≡ renamed host session taken k
  unfolding found renamed get
  renamed-found k =
      rw (get-collect_rescoped host session.id taken k session.turns []) (ground arith)

  remap-found : (o : Option Str) → remap found o ≡ rename_parent host session taken o
  unfolding remap rename_parent
  remap-found none = refl
  remap-found (some id) = ap {B = Option Str} some (renamed-found id)

  remap_turn-found : (turn : Turn) → remap_turn found turn ≡ rename_turn host session taken turn
  unfolding remap_turn rename_turn
  remap_turn-found turn =
      λ i. record turn { id = renamed-found turn.id i; parent_id = remap-found turn.parent_id i }

remap-nil : (o : Option Str) → remap [] o ≡ o
unfolding remap get
remap-nil none = refl
remap-nil (some id) = refl

remap_turn-nil : (turn : Turn) → remap_turn [] turn ≡ turn
unfolding remap_turn get
remap_turn-nil turn = λ i. record turn { parent_id = remap-nil turn.parent_id i }

rename_parent-nil :
    (host : Host) (session : ArchivedSession) (o : Option Str) → rename_parent host session [] o ≡ o
unfolding rename_parent renamed contains
rename_parent-nil host session none = refl
rename_parent-nil host session (some id) = refl

rename_turn-nil :
    (host : Host) (session : ArchivedSession) (turn : Turn)
    → rename_turn host session [] turn ≡ turn
unfolding rename_turn renamed contains
rename_turn-nil host session turn =
    λ i. record turn { parent_id = rename_parent-nil host session turn.parent_id i }

abbrev with_turns : ArchivedSession → List Turn → ArchivedSession
with_turns session turns = record session { turns = turns }

replaced :
    (session : ArchivedSession) (r : JsMap Str)
    → (elim r as (λ _. ArchivedSession) [
      | [] ↦ session
      | e ∷ es ↦ with_turns session (map (remap_turn (e ∷ es)) session.turns)
    ])
      ≡ with_turns session (map (remap_turn r) session.turns)
replaced session [] =
    ap (with_turns session) (map_self (remap_turn []) session.turns remap_turn-nil)
replaced session (e ∷ es) = refl

-- Scoping renames turns and nothing else: an identifier of the session's own turns that another
-- session holds becomes the one derived from the session and it, every other stays, and the
-- parent links follow the same renaming. The early exits of the code make no difference.
pub scope_colliding_turns-eq-rename :
    (host : Host) (session : ArchivedSession) (taken : List Str)
    → scope_colliding_turns host session taken
      ≡ record session { turns = map (rename_turn host session taken) session.turns }
unfolding scope_colliding_turns found
scope_colliding_turns-eq-rename host session [] =
    ap (with_turns session)
      (map_self (rename_turn host session []) session.turns (rename_turn-nil host session))
scope_colliding_turns-eq-rename host session (t ∷ taken) =
    replaced session (found host session (t ∷ taken))
    ∙ ap (with_turns session) (
        map-ext (remap_turn (found host session (t ∷ taken))) (rename_turn host session (t ∷ taken))
          session.turns (remap_turn-found host session (t ∷ taken)))

module _ (host : Host) (session : ArchivedSession) (taken : List Str) where
  renamed-free :
      (id : Str)
      → contains (turn_ids session.turns) id ≡ true
      → contains taken (scoped_id host session.id id) ≡ false
      → contains taken (renamed host session taken id) ≡ false
  unfolding renamed
  renamed-free id own fresh = elim (Bool-cases (contains taken id)) [
    | inl e ↦ rw (e, own) fresh
    | inr e ↦ rw e e
  ]

  rename_turn-free :
      (turns : List Turn)
      → ((id : Str)
          → contains (turn_ids turns) id ≡ true
          → contains (turn_ids session.turns) id ≡ true)
      → All (λ (turn : Turn). contains taken (scoped_id host session.id turn.id) ≡ false) turns
      → All
          (λ (turn : Turn). contains taken turn.id ≡ false)
          (map (rename_turn host session taken) turns)
  unfolding rename_turn contains
  rename_turn-free [] sub fresh = tt
  rename_turn-free (turn ∷ turns) sub fresh = (
    renamed-free turn.id (sub turn.id (rw (eq_refl turn.id) refl)) fresh.0,
    rename_turn-free turns (λ id h. sub id (rw (h, or-true) refl)) fresh.1,
  )

-- No turn of a scoped session keeps an identifier that another session holds, if none of the
-- identifiers that are derived for its turns is held.
pub scope_colliding_turns-free :
    (host : Host) (session : ArchivedSession) (taken : List Str)
    → All
        (λ (turn : Turn). contains taken (scoped_id host session.id turn.id) ≡ false)
        session.turns
    → All
        (λ (turn : Turn). contains taken turn.id ≡ false)
        (scope_colliding_turns host session taken).turns
scope_colliding_turns-free host session taken fresh =
    rw (scope_colliding_turns-eq-rename host session taken)
      (rename_turn-free host session taken session.turns (λ id h. h) fresh)
