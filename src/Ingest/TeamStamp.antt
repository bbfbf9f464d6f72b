-- ===== src/Ingest/TeamStamp.antt =====
-- server/src/ingest/team-stamp.ts: the visibility that a captured session is written with.
use memoar.Prelude.{
  ◌≡◌, refl, sym, ap, ◌∙◌, inl, inr, Bool, true, false, ◌&&◌, List, [], ◌∷◌, map, Option, none,
  some,
}
use memoar.Prelude.Tests.{if◌then◌else◌, Bool-cases, is_some, Option-cases}
use memoar.Prelude.Str.{Str, ◌==◌, eq_iff, truthy}
use memoar.Prelude.JsMap.{get, get-set, get-set_self, has, has-get, JsMap, set}
use memoar.Canonical.{
  ArchivedSession, clear, findings, link, org, private, RedactionStatus, reviewed, is_team, Scope,
  team, Visibility,
}
use memoar.Host.{Host}
use memoar.Store.Records.{TeamShareOptinRecord}
use memoar.Store.Tables.{MemoryTables}
use memoar.Store.TeamOptins.{resolve_ingest_team}
use memoar.Store.TeamOptins.Resolve.{Consents, resolve_ingest_team-Consents}
use memoar.Store.TeamVisibility.{is_team_visible}

is_clear : RedactionStatus → Bool
is_clear clear = true
is_clear _ = false

is_private : Scope → Bool
is_private private = true
is_private _ = false

-- Whether the stamp may touch a session at all.
unfoldable pub is_unspoken : ArchivedSession → Bool
unfolding is_clear is_private
is_unspoken session = is_clear session.redaction_status && is_private session.visibility.scope

is_clear_sound : (r : RedactionStatus) → is_clear r ≡ true → r ≡ clear
unfolding is_clear
is_clear_sound clear h = refl
is_clear_sound findings h = cc
is_clear_sound reviewed h = cc

is_private_sound : (s : Scope) → is_private s ≡ true → s ≡ private
unfolding is_private
is_private_sound private h = refl
is_private_sound team h = cc
is_private_sound org h = cc
is_private_sound link h = cc

unspoken_sound :
    (session : ArchivedSession)
    → is_unspoken session ≡ true
    → (session.redaction_status ≡ clear) × (session.visibility.scope ≡ private)
unfolding is_unspoken
unspoken_sound session h = elim (Bool-cases (is_clear session.redaction_status)) [
  | inr c ↦ cc (rw (is_unspoken, c) at h)
  | inl c ↦ (
    is_clear_sound session.redaction_status c,
    is_private_sound session.visibility.scope (rw (is_unspoken, c) at h),
  )
]

unfoldable pub stamped : Visibility → Option Str → Visibility
stamped visibility none = visibility
stamped visibility (some team_id) =
    if truthy team_id
    then record visibility { scope = team; team_id = some team_id }
    else visibility

-- `?? null`, on what the map holds
abbrev flat : Option (Option Str) → Option Str
flat none = none
flat (some team_id) = team_id

module _ (host : Host) (tenant_id : Str) (tables : MemoryTables) where
  -- `resolved`, after the question about one machine.
  unfoldable pub remember : Str → JsMap (Option Str) → JsMap (Option Str)
  remember machine_id resolved =
      if has machine_id resolved
      then resolved
      else set machine_id (resolve_ingest_team host tenant_id (some machine_id) tables) resolved

  unfoldable pub visibility_for :
      ArchivedSession → JsMap (Option Str) → JsMap (Option Str) × Visibility
  unfolding is_unspoken stamped remember
  visibility_for session resolved =
      let known = remember session.source.machine_id resolved in
      if is_unspoken session
      then (known, stamped session.visibility (flat (get session.source.machine_id known)))
      else (resolved, session.visibility)

  -- The visibilities of one capture's sessions, in turn.
  pub stamp_all : List ArchivedSession → JsMap (Option Str) → List Visibility
  unfolding visibility_for
  stamp_all [] resolved = []
  stamp_all (session ∷ rest) resolved =
      let (known, visibility) = visibility_for session resolved in visibility ∷ stamp_all rest known

  -- The same without the memory: every session asks for itself.
  unfoldable pub asked : ArchivedSession → Visibility
  unfolding stamped
  asked session =
      if is_unspoken session
      then stamped session.visibility
          (resolve_ingest_team host tenant_id (some session.source.machine_id) tables)
      else session.visibility

  -- What is remembered is what the store answers.
  abbrev Truthful : JsMap (Option Str) → Type 0
  Truthful resolved =
      (machine_id : Str) (t : Option Str)
      → get machine_id resolved ≡ some t
      → t ≡ resolve_ingest_team host tenant_id (some machine_id) tables

  abbrev answer : Str → Option Str
  answer machine_id = resolve_ingest_team host tenant_id (some machine_id) tables

  remembered_new :
      (m : Str) (resolved : JsMap (Option Str))
      → has m resolved ≡ false
      → remember m resolved ≡ set m (answer m) resolved
  unfolding remember
  remembered_new m resolved new = rw (remember, new) refl

  remembered_old :
      (m : Str) (resolved : JsMap (Option Str))
      → has m resolved ≡ true
      → remember m resolved ≡ resolved
  unfolding remember
  remembered_old m resolved there = rw (remember, there) refl

  remember-Truthful :
      (m : Str) (resolved : JsMap (Option Str)) → Truthful resolved → Truthful (remember m resolved)
  unfolding remember
  remember-Truthful m resolved h machine_id t e = elim (Bool-cases (has m resolved)) [
    | inl there ↦ h machine_id t (ap (get machine_id) (sym (remembered_old m resolved there)) ∙ e)
    | inr new ↦
        let kept : (if m == machine_id then some (answer m) else get machine_id resolved) ≡ some t =
          sym (get-set m machine_id (answer m) resolved)
          ∙ (ap (get machine_id) (sym (remembered_new m resolved new)) ∙ e) in
        elim (Bool-cases (m == machine_id)) [
          | inl q ↦
              let written : some (answer m) ≡ some t = rw q at kept in
              let same : answer m ≡ t = cc in sym same ∙ ap answer ((eq_iff m machine_id).0 q)
          | inr q ↦ h machine_id t (rw q at kept)
        ]
  ]

  known_after :
      (m : Str) (resolved : JsMap (Option Str)) → is_some (get m (remember m resolved)) ≡ true
  known_after m resolved = elim (Bool-cases (has m resolved)) [
    | inl there ↦
        ap (λ (r : JsMap (Option Str)). is_some (get m r)) (remembered_old m resolved there)
        ∙ (sym (has-get m resolved) ∙ there)
    | inr new ↦
        ap (λ (r : JsMap (Option Str)). is_some (get m r)) (remembered_new m resolved new)
        ∙ ap is_some (get-set_self m (answer m) resolved)
  ]

  get-remember :
      (m : Str) (resolved : JsMap (Option Str))
      → Truthful resolved
      → flat (get m (remember m resolved)) ≡ answer m
  get-remember m resolved h = elim (Option-cases (get m (remember m resolved))) [
    | inl e ↦ cc (sym (known_after m resolved) ∙ ap is_some e)
    | inr (t, e) ↦ ap flat e ∙ remember-Truthful m resolved h m t e
  ]

  -- Every session of a capture gets what it would get alone: remembering the answer for a machine
  -- changes no visibility.
  stamp_all_from :
      (sessions : List ArchivedSession) (resolved : JsMap (Option Str))
      → Truthful resolved
      → stamp_all sessions resolved ≡ map asked sessions
  unfolding stamp_all visibility_for asked
  stamp_all_from [] resolved h = refl
  stamp_all_from (s ∷ rest) resolved h = elim (Bool-cases (is_unspoken s)) [
    | inl u ↦
        rw (u, get-remember s.source.machine_id resolved h)
          (ap (◌∷◌ (stamped s.visibility (answer s.source.machine_id))) (
            stamp_all_from rest (remember s.source.machine_id resolved)
              (remember-Truthful s.source.machine_id resolved h)))
    | inr u ↦ rw u (ap (◌∷◌ s.visibility) (stamp_all_from rest resolved h))
  ]

  -- The sessions of a capture get what each would get from the store alone: that the answer for a
  -- machine is asked for once changes no visibility.
  pub stamp_all-eq-asked :
      (sessions : List ArchivedSession) → stamp_all sessions [] ≡ map asked sessions
  unfolding get
  stamp_all-eq-asked sessions = stamp_all_from sessions [] (λ machine_id t e. cc)

  stamped_visible :
      (v : Visibility) (t : Option Str) (team_id : Str)
      → is_team_visible v team_id ≡ false
      → is_team_visible (stamped v t) team_id ≡ true
      → t ≡ some team_id
  unfolding stamped is_team_visible is_team
  stamped_visible v none team_id before now = cc
  stamped_visible v (some []) team_id before now = cc
  stamped_visible v (some (c ∷ cs)) team_id before now = ap some ((eq_iff (c ∷ cs) team_id).0 now)

  asked-Consents :
      (session : ArchivedSession) (team_id : Str)
      → is_team_visible session.visibility team_id ≡ false
      → is_team_visible (asked session) team_id ≡ true
      → (is_unspoken session ≡ true)
        × ((o : TeamShareOptinRecord) × Consents tables tenant_id
              (some session.source.machine_id)
              team_id
              o)
  unfolding asked
  asked-Consents session team_id before now = elim (Bool-cases (is_unspoken session)) [
    | inr u ↦ cc (rw (asked, u) at now)
    | inl u ↦
        let shared =
          stamped_visible session.visibility (answer session.source.machine_id) team_id before
            (rw (asked, u) at now) in
        (
          u,
          resolve_ingest_team-Consents host tenant_id (some session.source.machine_id) team_id
              tables shared,
        )
  ]

  visibility_for-fresh : (session : ArchivedSession) → (visibility_for session []).1 ≡ asked session
  unfolding visibility_for asked get
  visibility_for-fresh session = elim (Bool-cases (is_unspoken session)) [
    | inl u ↦ rw u (
        ap (stamped session.visibility)
          (get-remember session.source.machine_id [] (λ machine_id t e. cc)))
    | inr u ↦ rw u refl
  ]

  -- A capture becomes visible to a team only if it is clear and was private, on the strength of a
  -- consent that stands in the table, for its machine, into that team.
  pub visibility_for-Consents :
      (session : ArchivedSession) (team_id : Str)
      → is_team_visible session.visibility team_id ≡ false
      → is_team_visible (visibility_for session []).1 team_id ≡ true
      → (session.redaction_status ≡ clear)
        × (session.visibility.scope ≡ private)
        × ((o : TeamShareOptinRecord) × Consents tables tenant_id
              (some session.source.machine_id)
              team_id
              o)
  visibility_for-Consents session team_id before now =
      let (unspoken, consent) = asked-Consents session team_id before (
        ap (λ (v : Visibility). is_team_visible v team_id) (sym (visibility_for-fresh session))
        ∙ now) in
      let (cleared, closed) = unspoken_sound session unspoken in (cleared, closed, consent)
