-- ===== src/Store/Sessions/Paging.antt =====
-- The pages of `listSessions`.
use memoar.Prelude.{
  ◌≡◌, ◌≤◌, refl, Bool, true, false, List, [], ◌∷◌, ◌++◌, Option, none, some, arith,
}
use memoar.Prelude.Lists.{
  All, All-take, All-filter, All-filter_self, All-sort_by, All-mono, length, drop, last?,
  take-append-drop, length-take-le, length-filter-le,
}
use memoar.Prelude.Str.{Str, str_lt, truthy}
use memoar.Host.{Host}
use memoar.Canonical.{ArchivedSession, SessionFilter, TenantContext}
use memoar.Store.Tables.{MemoryTables}
use memoar.Store.Sessions.{
  matches, matching, after_cursor, past_cursor, decoded_cursor, position, next_page, newest_first,
  tenant_sessions, list_sessions,
}

module _ (host : Host) (context : TenantContext) (filters : SessionFilter)
    (tables : MemoryTables) where
  abbrev page_items : List ArchivedSession
  page_items = (list_sessions host context filters tables).items

  matching-matches : All (λ s. matches host filters s ≡ true) (matching host context filters tables)
  unfolding matching
  matching-matches =
      All-sort_by (λ s. matches host filters s ≡ true) (newest_first host) _
        (All-filter_self (matches host filters) (tenant_sessions context.tenant_id tables.sessions))

  after_cursor-matches :
      All (λ s. matches host filters s ≡ true) (after_cursor host context filters tables)
  unfolding after_cursor
  after_cursor-matches =
      All-filter (λ s. matches host filters s ≡ true)
        (past_cursor (decoded_cursor host filters.cursor)) (matching host context filters tables)
        matching-matches

  -- A page is the first `limit` of the sessions behind the cursor: it holds no more than that,
  -- every item passes the filters, what it leaves out follows it, and the total counts at least all of
  -- these.
  pub list_sessions-page :
      (length page_items ≤ filters.limit)
      × All (λ s. matches host filters s ≡ true) page_items
      × (page_items ++ drop filters.limit (after_cursor host context filters tables)
          ≡ after_cursor host context filters tables)
      × (length (after_cursor host context filters tables)
          ≤ (list_sessions host context filters tables).total)
  unfolding list_sessions after_cursor
  list_sessions-page = (
    length-take-le filters.limit (after_cursor host context filters tables),
    All-take (λ s. matches host filters s ≡ true) filters.limit
        (after_cursor host context filters tables) after_cursor-matches,
    take-append-drop filters.limit (after_cursor host context filters tables),
    length-filter-le (past_cursor (decoded_cursor host filters.cursor))
        (matching host context filters tables),
  )

past_cursor-position :
    (pos : Str) (s : ArchivedSession)
    → truthy pos ≡ true
    → past_cursor (some pos) s ≡ true
    → str_lt (position s) pos ≡ true
unfolding past_cursor
past_cursor-position pos s t h = ground arith

position-truthy : (s : ArchivedSession) → truthy (position s) ≡ true
unfolding position
position-truthy s = go s.updated_at s.id
  where
    go : (u id : Str) → truthy (u ++ (b'|' ∷ id)) ≡ true
    go [] id = refl
    go (c ∷ u) id = refl

next_page-last :
    (host : Host) (more : Bool) (o : Option ArchivedSession) (c : Str)
    → next_page host more o ≡ some c
    → (last : ArchivedSession) × (o ≡ some last) × (host.to_base64url (position last) ≡ c)
unfolding next_page
next_page-last host true (some last) c h = (last, refl, cc)
next_page-last host false (some last) c h = cc
next_page-last host true none c h = cc
next_page-last host false none c h = cc

decoded-next :
    (host : Host) (pos cursor : Str)
    → host.from_base64url (host.to_base64url pos) ≡ pos
    → host.from_base64url [] ≡ []
    → truthy pos ≡ true
    → host.to_base64url pos ≡ cursor
    → decoded_cursor host (some cursor) ≡ some pos
unfolding decoded_cursor
decoded-next host pos [] inverse empty t e = cc
decoded-next host pos (c ∷ cursor) inverse empty t e = cc

-- A page that is asked for by the cursor of another holds only sessions that stand strictly
-- behind that page's last item, so following the cursors repeats none. The cursor's encoding is
-- one that decodes to what was encoded, and the empty text encodes nothing but itself.
pub list_sessions-next :
    (host : Host) (context : TenantContext) (filters : SessionFilter) (tables : MemoryTables)
    (cursor : Str)
    → ((s : Str) → host.from_base64url (host.to_base64url s) ≡ s)
    → host.from_base64url [] ≡ []
    → (list_sessions host context filters tables).next_cursor ≡ some cursor
    → (last : ArchivedSession) × (last? (list_sessions host context filters tables).items
        ≡ some last)
      × All
          (λ s. str_lt (position s) (position last) ≡ true)
          (list_sessions host context (record filters { cursor = some cursor }) tables).items
unfolding list_sessions after_cursor decoded_cursor
list_sessions-next host context filters tables cursor inverse empty h =
    let (last, is_last, encoded) = next_page-last host _ _ cursor h in
    let decoded =
      decoded-next host (position last) cursor (inverse (position last)) empty
        (position-truthy last) encoded in
    (
      last,
      is_last,
      All-take (λ s. str_lt (position s) (position last) ≡ true) filters.limit _
          (rw decoded (
            All-mono (λ s. past_cursor-position (position last) s (position-truthy last)) _
              (All-filter_self (past_cursor (some (position last)))
                (matching host context (record filters { cursor = some cursor }) tables)))),
    )
