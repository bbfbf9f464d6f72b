-- ===== src/Search/Visible.antt =====
-- What a search may show: every result comes from a leg, and every leg of a team's search shows
-- what its members made visible to the team.
use memoar.Prelude.{
  ℕ, suc, ◌≡◌, inl, inr, Bool, true, false, ◌||◌, List, [], ◌∷◌, Option, none, some,
}
use memoar.Prelude.Tests.{if◌then◌else◌, Bool-cases, is_some, ltb, Option-cases, or_else}
use memoar.Prelude.Lists.{
  All, All-filter, All-filter_self, All-map, All-sort_by, All-take, length, take,
}
use memoar.Prelude.Str.{Str, truthy}
use memoar.Prelude.JsMap.{All-set, get, get-All, JsMap, values}
use memoar.Canonical.{ArchivedSession, TenantContext}
use memoar.Host.{Host}
use memoar.Search.{
  by_score, fuse, fuse_list, fuse_lists, fuse_one, Leg, leg, legs_of, lexical, lists_of, Mode,
  hybrid, semantic, words_of, meanings_of, both_of, leg_of, semantic_failure_of,
  max_team_search_tenants, context_for, failure_of, is_lexical, Settled, rejected, resolved, scored,
  Scores, SearchCandidate, SearchFilters, SearchResult, team_execute, TenantLeg,
}
use memoar.Search.Lexical.{by_relevance, candidate_of, disabled_leg, lexical_leg, Texts, visible_to}
use memoar.Store.Tables.{MemoryTables}
use memoar.Store.TeamVisibility.{is_team_visible}

-- What is true of an outcome, if there is one.
abbrev pub IfResolved : {A : Type 0} → (A → Type 0) → Settled A → Type 0
IfResolved P (resolved a) = P a
IfResolved P (rejected reason) = Unit

-- What is true of the sessions that an outcome shows.
abbrev pub Shows : {S : Type 0} → (ArchivedSession → Type 0) → List (SearchCandidate S) → Type 0
Shows {S = S} P = All (λ (c : SearchCandidate S). P c.session)

module _ {S : Type 0} (scores : Scores S) (host : Host) (P : ArchivedSession → Type 0) where
  abbrev Entry : Str × (SearchCandidate S × S) → Type 0
  Entry e = P e.1.0.session

  fuse_one-Shows :
      (index : ℕ) (c : SearchCandidate S) (fused : JsMap (SearchCandidate S × S))
      → P c.session
      → All Entry fused
      → All Entry (fuse_one scores index c fused)
  unfolding fuse_one
  fuse_one-Shows index c fused own h = elim (Option-cases (get c.session.id fused)) [
    | inl e ↦ rw (fuse_one, e) (All-set Entry c.session.id _ fused own h)
    | inr ((first, sum), e) ↦
        rw (fuse_one, e)
          (All-set Entry c.session.id _ fused (get-All Entry c.session.id fused h e) h)
  ]

  fuse_list-Shows :
      (index : ℕ) (cs : List (SearchCandidate S)) (fused : JsMap (SearchCandidate S × S))
      → Shows P cs
      → All Entry fused
      → All Entry (fuse_list scores index cs fused)
  unfolding fuse_list
  fuse_list-Shows index [] fused own h = h
  fuse_list-Shows index (c ∷ cs) fused own h =
      fuse_list-Shows (suc index) cs (fuse_one scores index c fused) own.1
        (fuse_one-Shows index c fused own.0 h)

  fuse_lists-Shows :
      (lists : List (List (SearchCandidate S))) (fused : JsMap (SearchCandidate S × S))
      → All (Shows P) lists
      → All Entry fused
      → All Entry (fuse_lists scores lists fused)
  unfolding fuse_lists
  fuse_lists-Shows [] fused own h = h
  fuse_lists-Shows (list ∷ lists) fused own h =
      fuse_lists-Shows lists (fuse_list scores 0 list fused) own.1
        (fuse_list-Shows 0 list fused own.0 h)

  -- A fusion shows what its lists show.
  pub fuse-Shows :
      (lists : List (List (SearchCandidate S)))
      → All (Shows P) lists
      → Shows P (fuse scores host lists)
  unfolding fuse scored
  fuse-Shows lists own =
      let fused = fuse_lists scores lists [] in
      All-map (λ (c : SearchCandidate S). P c.session) (scored scores) _
        (All-sort_by (λ (e : SearchCandidate S × S). P e.0.session) (by_score scores host)
          (values fused)
          (All-map (λ (e : SearchCandidate S × S). P e.0.session) _ fused
            (fuse_lists-Shows lists [] own tt)))

  abbrev LegShows : TenantLeg scores → Type 0
  LegShows l = Shows P l.words × Shows P (or_else l.meanings [])

  words_of-Shows :
      (legs : List (TenantLeg scores)) → All LegShows legs → All (Shows P) (words_of scores legs)
  unfolding words_of
  words_of-Shows [] h = tt
  words_of-Shows (l ∷ legs) h = (h.0.0, words_of-Shows legs h.1)

  meanings_of-Shows :
      (legs : List (TenantLeg scores)) → All LegShows legs → All (Shows P) (meanings_of scores legs)
  unfolding meanings_of
  meanings_of-Shows [] h = tt
  meanings_of-Shows (l ∷ legs) h = (h.0.1, meanings_of-Shows legs h.1)

  both_of-Shows :
      (legs : List (TenantLeg scores)) → All LegShows legs → All (Shows P) (both_of scores legs)
  unfolding both_of
  both_of-Shows [] h = tt
  both_of-Shows (l ∷ legs) h = (h.0.0, (h.0.1, both_of-Shows legs h.1))

  lists_of-Shows :
      (mode : Mode) (only : Bool) (legs : List (TenantLeg scores))
      → All LegShows legs
      → All (Shows P) (lists_of scores mode only legs)
  unfolding lists_of
  lists_of-Shows mode true legs h = words_of-Shows legs h
  lists_of-Shows semantic false legs h = meanings_of-Shows legs h
  lists_of-Shows lexical false legs h = both_of-Shows legs h
  lists_of-Shows hybrid false legs h = both_of-Shows legs h

  leg_of-Shows :
      (mode : Mode) (words : List (SearchCandidate S))
      (meanings : Settled (List (SearchCandidate S)))
      → Shows P words
      → IfResolved (Shows P) meanings
      → LegShows (leg_of scores mode words meanings)
  unfolding leg_of
  leg_of-Shows mode words meanings hw hm = elim (Bool-cases (is_lexical scores mode)) [
    | inl e ↦ rw (leg_of, e) (hw, tt)
    | inr e ↦ rw (leg_of, e) (go meanings hm)
  ]
    where
      go :
          (m : Settled (List (SearchCandidate S)))
          → IfResolved (Shows P) m
          → LegShows (elim m [
            | resolved found ↦ record { words = words; meanings = some found; failure = none }
            | rejected reason ↦ record {
              words = words;
              meanings = none;
              failure = some (semantic_failure_of reason);
            }
          ])
      go (resolved found) h = (hw, h)
      go (rejected reason) h = (hw, tt)

module _ {S : Type 0} (scores : Scores S) (host : Host) (P : ArchivedSession → Type 0)
    (backend provider : Leg S) (query : Str) (mode : Mode) (filters : SearchFilters) (limit : ℕ)
    (shows_words : (tenant : Str)
      → IfResolved (Shows P) (backend (context_for scores tenant) query filters limit))
    (shows_meanings : (tenant : Str)
      → IfResolved (Shows P) (provider (context_for scores tenant) query filters limit)) where
  leg-Shows :
      (tenant : Str)
      → IfResolved
          (LegShows scores host P)
          (leg scores backend provider tenant query mode filters limit)
  unfolding leg
  leg-Shows tenant =
      go (backend (context_for scores tenant) query filters limit) (shows_words tenant)
    where
      go :
          (o : Settled (List (SearchCandidate S)))
          → IfResolved (Shows P) o
          → IfResolved (LegShows scores host P) (elim o [
            | rejected reason ↦ rejected reason
            | resolved words ↦ resolved (
                leg_of scores mode words (provider (context_for scores tenant) query filters limit))
          ])
      go (rejected reason) h = tt
      go (resolved words) h = leg_of-Shows scores host P mode words _ h (shows_meanings tenant)

  legs_of-Shows :
      (tenants : List Str)
      → IfResolved
          (All (LegShows scores host P))
          (legs_of scores backend provider tenants query mode filters limit)
  unfolding legs_of
  legs_of-Shows [] = tt
  legs_of-Shows (tenant ∷ rest) =
      go (leg scores backend provider tenant query mode filters limit)
        (legs_of scores backend provider rest query mode filters limit) (leg-Shows tenant)
        (legs_of-Shows rest)
    where
      go :
          (one : Settled (TenantLeg scores)) (others : Settled (List (TenantLeg scores)))
          → IfResolved (LegShows scores host P) one
          → IfResolved (All (LegShows scores host P)) others
          → IfResolved (All (LegShows scores host P)) (elim one [
            | rejected reason ↦ rejected reason
            | resolved one ↦ elim others [
              | rejected reason ↦ rejected reason
              | resolved more ↦ resolved (one ∷ more)
            ]
          ])
      go (rejected reason) others h hs = tt
      go (resolved one) (rejected reason) h hs = tt
      go (resolved one) (resolved more) h hs = (h, hs)

-- The lexical leg of a team's search shows what is visible to the team.
module _ {S : Type 0} (scores : Scores S) (host : Host) (texts : Texts) (tables : MemoryTables)
    (team_id : Str) (named : truthy team_id ≡ true) where
  abbrev pub TeamVisible : ArchivedSession → Type 0
  TeamVisible s = is_team_visible s.visibility team_id ≡ true

  visible_to-TeamVisible :
      (sessions : List ArchivedSession)
      → All TeamVisible (visible_to scores host texts (some team_id) sessions)
  unfolding visible_to
  visible_to-TeamVisible sessions =
      rw (visible_to, named)
        (All-filter_self (λ (s : ArchivedSession). is_team_visible s.visibility team_id) sessions)

  pub lexical_leg-TeamVisible :
      (context : TenantContext) (query : Str) (filters : SearchFilters) (limit : ℕ)
      → IfResolved (Shows TeamVisible) (
          lexical_leg scores host texts tables context query
            (record filters { team_id = some team_id })
            limit)
  unfolding lexical_leg candidate_of
  lexical_leg-TeamVisible context query filters limit =
      let Visible = λ (c : SearchCandidate S). TeamVisible c.session in
      All-take Visible limit _ (
        All-sort_by Visible (by_relevance scores host texts) _ (
          All-filter Visible (λ (c : SearchCandidate S). scores.positive c.score) _
            (All-map Visible (candidate_of scores host texts _) _ (visible_to-TeamVisible _))))

  -- A provider that shows what is visible to the team that the filters name.
  unfoldable pub RespectsTeam : Leg S → Str → SearchFilters → ℕ → Type 0
  RespectsTeam provider query filters limit =
      (context : TenantContext)
      → IfResolved (Shows TeamVisible)
          (provider context query (record filters { team_id = some team_id }) limit)

  -- Without a semantic provider nothing is asked of it.
  pub disabled_leg-RespectsTeam :
      (query : Str) (filters : SearchFilters) (limit : ℕ)
      → RespectsTeam (disabled_leg scores host texts) query filters limit
  unfolding RespectsTeam disabled_leg
  disabled_leg-RespectsTeam query filters limit context = tt

  abbrev pub Found : Option (Settled (SearchResult S)) → Type 0
  Found none = Unit
  Found (some o) = IfResolved (λ (r : SearchResult S). Shows TeamVisible r.candidates) o

  pub Found-team_execute :
      (mode : Mode) (filters : SearchFilters) (query : Str) (limit : ℕ) (provider : Leg S)
      (tenants : List Str)
      → RespectsTeam provider query filters limit
      → Found (
          team_execute scores host
            (lexical_leg scores host texts tables)
            provider
            team_id
            tenants
            query
            mode
            filters
            limit)
  unfolding team_execute RespectsTeam
  Found-team_execute mode filters query limit provider tenants respects =
      elim (Bool-cases (ltb (max_team_search_tenants scores) (length tenants))) [
        | inl e ↦ rw (team_execute, e) tt
        | inr e ↦
            rw (team_execute, e)
              (go _ (
                legs_of-Shows scores host TeamVisible (lexical_leg scores host texts tables)
                  provider query mode (record filters { team_id = some team_id }) limit
                  (λ tenant.
                    lexical_leg-TeamVisible (context_for scores tenant) query filters limit)
                  (λ tenant. respects (context_for scores tenant)) tenants))
      ]
    where
      go :
          (o : Settled (List (TenantLeg scores)))
          → IfResolved (All (LegShows scores host TeamVisible)) o
          → Found (
              some (elim o [
                | rejected reason ↦ rejected reason
                | resolved legs ↦
                    let failure = failure_of scores legs in
                    let lexical_only = is_lexical scores mode || is_some failure in
                    resolved (record {
                      candidates =
                          take limit (fuse scores host (lists_of scores mode lexical_only legs));
                      requested_mode = mode;
                      realized_mode = if lexical_only then lexical else mode;
                      semantic_failure = failure;
                    })
              ]))
      go (rejected reason) h = tt
      go (resolved legs) h =
          let only = is_lexical scores mode || is_some (failure_of scores legs) in
          let lists = lists_of scores mode only legs in
          All-take (λ (c : SearchCandidate S). TeamVisible c.session) limit (fuse scores host lists)
            (fuse-Shows scores host TeamVisible lists
              (lists_of-Shows scores host TeamVisible mode only legs h))
