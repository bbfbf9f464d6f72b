-- ===== src/Search/Fusing.antt =====
-- A fusion names each session of its lists once.
use memoar.Prelude.{
  ℕ, suc, ◌≡◌, refl, sym, ap, ◌∙◌, inl, inr, arith, Bool, ◌||◌, List, [], ◌∷◌, map, Ordering,
}
use memoar.Prelude.Tests.{if◌then◌else◌, Bool-cases, Option-cases}
use memoar.Prelude.Lists.{All, any, insert_by, sort_by}
use memoar.Prelude.Str.{Str, ◌==◌, eq_iff}
use memoar.Prelude.JsMap.{All-set, get, get-All, has, has-set, IsMap, IsMap-set, JsMap, values}
use memoar.Host.{Host}
use memoar.Search.{by_score, fuse, fuse_list, fuse_lists, fuse_one, scored, Scores, SearchCandidate}

-- How many pass a test.
unfoldable how_many : {A : Type 0} → (A → Bool) → List A → ℕ
how_many p [] = 0
how_many p (x ∷ xs) = let rest = how_many p xs in if p x then suc rest else rest

module _ {A : Type 0} (p : A → Bool) (c : A → A → Ordering) where
  how_many-insert_by : (x : A) (xs : List A) → how_many p (insert_by c x xs) ≡ how_many p (x ∷ xs)
  unfolding how_many insert_by
  how_many-insert_by x [] = refl
  how_many-insert_by x (y ∷ ys) = go (c x y) (how_many-insert_by x ys)
    where
      go :
          (o : Ordering)
          → how_many p (insert_by c x ys) ≡ how_many p (x ∷ ys)
          → how_many p (elim o [ Ordering.gt ↦ y ∷ insert_by c x ys | _ ↦ x ∷ y ∷ ys ])
            ≡ how_many p (x ∷ y ∷ ys)
      go Ordering.gt r = ground (arith, r)
      go Ordering.lt r = refl
      go Ordering.eq r = refl

  how_many-sort_by : (xs : List A) → how_many p (sort_by c xs) ≡ how_many p xs
  unfolding how_many sort_by
  how_many-sort_by [] = refl
  how_many-sort_by (x ∷ xs) =
      how_many-insert_by x (sort_by c xs) ∙ ap (λ n. if p x then suc n else n) (how_many-sort_by xs)

module _ {S : Type 0} (scores : Scores S) (host : Host) where
  -- The session's identifier, of a candidate and of a group.
  abbrev is_of : Str → SearchCandidate S → Bool
  is_of id candidate = candidate.session.id == id

  abbrev group_of : Str → SearchCandidate S × S → Bool
  group_of id group = group.0.session.id == id

  abbrev IsKeyed : Str × (SearchCandidate S × S) → Type 0
  IsKeyed e = e.1.0.session.id ≡ e.0

  abbrev IsSound : JsMap (SearchCandidate S × S) → Type 0
  IsSound fused = IsMap fused × All IsKeyed fused

  fuse_one-IsSound :
      (index : ℕ) (c : SearchCandidate S) (fused : JsMap (SearchCandidate S × S))
      → IsSound fused
      → IsSound (fuse_one scores index c fused)
  unfolding fuse_one
  fuse_one-IsSound index c fused h = elim (Option-cases (get c.session.id fused)) [
    | inl e ↦
        rw (fuse_one, e)
          (IsMap-set c.session.id _ fused h.0, All-set IsKeyed c.session.id _ fused refl h.1)
    | inr ((first, sum), e) ↦
        rw (fuse_one, e)
          (
            IsMap-set c.session.id _ fused h.0,
            All-set IsKeyed c.session.id _ fused (get-All IsKeyed c.session.id fused h.1 e) h.1,
          )
  ]

  has-fuse_one :
      (id : Str) (index : ℕ) (c : SearchCandidate S) (fused : JsMap (SearchCandidate S × S))
      → has id (fuse_one scores index c fused) ≡ (is_of id c || has id fused)
  unfolding fuse_one
  has-fuse_one id index c fused = elim (Option-cases (get c.session.id fused)) [
    | inl e ↦ rw (fuse_one, e) (has-set c.session.id id _ fused)
    | inr ((first, sum), e) ↦ rw (fuse_one, e) (has-set c.session.id id _ fused)
  ]

  fuse_list-groups :
      (id : Str) (index : ℕ) (cs : List (SearchCandidate S)) (fused : JsMap (SearchCandidate S × S))
      → IsSound fused
      → IsSound (fuse_list scores index cs fused)
        × (has id (fuse_list scores index cs fused) ≡ (any (is_of id) cs || has id fused))
  unfolding fuse_list any
  fuse_list-groups id index [] fused h = (h, refl)
  fuse_list-groups id index (c ∷ cs) fused h =
      let next = fuse_one scores index c fused in
      let (sound, found) =
        fuse_list-groups id (suc index) cs next (fuse_one-IsSound index c fused h) in
      (sound, ground (arith, found, has-fuse_one id index c fused))

  fuse_lists-groups :
      (id : Str) (lists : List (List (SearchCandidate S))) (fused : JsMap (SearchCandidate S × S))
      → IsSound fused
      → IsSound (fuse_lists scores lists fused)
        × (has id (fuse_lists scores lists fused) ≡ (any (any (is_of id)) lists || has id fused))
  unfolding fuse_lists any
  fuse_lists-groups id [] fused h = (h, refl)
  fuse_lists-groups id (list ∷ lists) fused h =
      let next = fuse_list scores 0 list fused in
      let (kept, there) = fuse_list-groups id 0 list fused h in
      let (sound, found) = fuse_lists-groups id lists next kept in
      (sound, ground (arith, found, there))

  how_many-values :
      (id : Str) (fused : JsMap (SearchCandidate S × S))
      → IsSound fused
      → how_many (group_of id) (values fused) ≡ (if has id fused then 1 else 0)
  unfolding how_many has IsMap
  how_many-values id [] h = refl
  how_many-values id ((k, g) ∷ fused) h =
      let same = ap (λ (j : Str). j == id) h.1.0 in
      let rest = how_many-values id fused (h.0.1, h.1.1) in
      elim (Bool-cases (k == id)) [
        | inl e ↦
            let absent = ap (λ (j : Str). has j fused) (sym ((eq_iff k id).0 e)) ∙ h.0.0 in
            ground (arith, e, same, rest, absent)
        | inr e ↦ ground (arith, e, same, rest)
      ]

  how_many-scored :
      (id : Str) (groups : List (SearchCandidate S × S))
      → how_many (is_of id) (map (scored scores) groups) ≡ how_many (group_of id) groups
  unfolding how_many scored
  how_many-scored id [] = refl
  how_many-scored id ((c, s) ∷ groups) = ground (arith, how_many-scored id groups)

  -- A fusion names every session of its lists exactly once, however many lists rank it, and no
  -- other session.
  how_many-fuse :
      (id : Str) (lists : List (List (SearchCandidate S)))
      → how_many (is_of id) (fuse scores host lists) ≡ (if any (any (is_of id)) lists then 1 else 0)
  unfolding fuse has IsMap
  how_many-fuse id lists =
      let fused = fuse_lists scores lists [] in
      let (sound, found) = fuse_lists-groups id lists [] (tt, tt) in
      how_many-scored id (sort_by (by_score scores host) (values fused))
      ∙ (how_many-sort_by (group_of id) (by_score scores host) (values fused)
          ∙ (how_many-values id fused sound ∙ ground (arith, found)))
