-- ===== src/Auth/Granting.antt =====
-- A key never outranks the one who issues it.
use memoar.Prelude.{
  ◌≡◌, ◌↔◌, ◌⊎◌, refl, inl, inr, arith, Bool, true, false, not, ◌||◌, List, [], ◌∷◌, Option, none,
  some,
}
use memoar.Prelude.Tests.{Bool-cases}
use memoar.Prelude.Lists.{All, All-mono, filter}
use memoar.Prelude.Str.{Str, codes, contains}
use memoar.Auth.{
  assert_grantable_scopes, GrantRefusal, known_scopes, scope_escalation, unknown_scope,
}

List-cases : (ss : List Str) → (ss ≡ []) ⊎ ((s : Str) × (rest : List Str) × (ss ≡ s ∷ rest))
List-cases [] = inl refl
List-cases (s ∷ rest) = inr (s, rest, refl)

module _ (p : Str → Bool) where
  abbrev failing : List Str → List Str
  failing = filter (λ (s : Str). not (p s))

  failing-nil : (ss : List Str) → failing ss ≡ [] → All (λ (s : Str). p s ≡ true) ss
  unfolding filter
  failing-nil [] e = tt
  failing-nil (s ∷ ss) e = elim (Bool-cases (p s)) [
    | inl q ↦ (q, failing-nil ss (rw q at e))
    | inr q ↦ cc (rw q at e)
  ]

  nil-failing : (ss : List Str) → All (λ (s : Str). p s ≡ true) ss → failing ss ≡ []
  unfolding filter
  nil-failing [] h = refl
  nil-failing (s ∷ ss) h = rw (h.0) (nil-failing ss h.1)

-- What a caller may pass on: a scope of the vocabulary that the caller holds, or any of it for the
-- holder of the wildcard.
abbrev MayPassOn : List Str → Str → Type 0
MayPassOn held s =
    (contains known_scopes s ≡ true) × ((contains held (codes "*") || contains held s) ≡ true)

All-pair :
    (P Q : Str → Type 0) (ss : List Str) → All P ss → All Q ss → All (λ (s : Str). P s × Q s) ss
All-pair P Q [] hp hq = tt
All-pair P Q (s ∷ ss) hp hq = ((hp.0, hq.0), All-pair P Q ss hp.1 hq.1)

module _ (requested held : List Str) where
  abbrev outcome : Option GrantRefusal
  outcome = assert_grantable_scopes requested held

  abbrev known : Str → Bool
  known s = contains known_scopes s

  abbrev held_by : Str → Bool
  held_by s = contains held s

  abbrev star : Bool
  star = contains held (codes "*")

  -- One lemma for each way through the test.
  refused_unknown :
      (s : Str) (rest : List Str)
      → failing known requested ≡ s ∷ rest
      → outcome ≡ some (unknown_scope (s ∷ rest))
  unfolding assert_grantable_scopes
  refused_unknown s rest e = rw (outcome, assert_grantable_scopes, e) refl

  granted_to_star : failing known requested ≡ [] → star ≡ true → outcome ≡ none
  unfolding assert_grantable_scopes
  granted_to_star e t = rw (outcome, assert_grantable_scopes, e, t) refl

  granted_to_holder :
      failing known requested ≡ [] → star ≡ false → failing held_by requested ≡ [] → outcome ≡ none
  unfolding assert_grantable_scopes
  granted_to_holder e t b = rw (outcome, assert_grantable_scopes, e, t, b) refl

  refused_beyond :
      (s : Str) (rest : List Str)
      → failing known requested ≡ []
      → star ≡ false
      → failing held_by requested ≡ s ∷ rest
      → outcome ≡ some (scope_escalation (s ∷ rest))
  unfolding assert_grantable_scopes
  refused_beyond s rest e t b = rw (outcome, assert_grantable_scopes, e, t, b) refl

  granted_may : outcome ≡ none → All (MayPassOn held) requested
  granted_may h = elim (List-cases (failing known requested)) [
    | inr (s, rest, e) ↦ cc (refused_unknown s rest e)
    | inl e ↦
        let all_known = failing-nil known requested e in
        elim (Bool-cases star) [
          | inl t ↦ All-mono (λ s k. (k, rw t refl)) requested all_known
          | inr t ↦ elim (List-cases (failing held_by requested)) [
            | inr (s, rest, b) ↦ cc (refused_beyond s rest e t b)
            | inl b ↦
                All-mono (λ s h. (h.0, ground (arith, h.1))) requested
                  (All-pair (λ (s : Str). known s ≡ true) (λ (s : Str). held_by s ≡ true) requested
                    all_known (failing-nil held_by requested b))
          ]
        ]
  ]

  may_granted : All (MayPassOn held) requested → outcome ≡ none
  may_granted h =
      let e = nil-failing known requested (All-mono (λ s m. m.0) requested h) in
      elim (Bool-cases star) [
        | inl t ↦ granted_to_star e t
        | inr t ↦
            granted_to_holder e t
              (nil-failing held_by requested (All-mono (λ s m. ground (arith, m.1, t)) requested h))
      ]

  -- A grant is allowed exactly if every scope of it is one of the vocabulary, and is held by the
  -- caller unless the caller holds the wildcard.
  assert_grantable_scopes-MayPassOn :
      (assert_grantable_scopes requested held ≡ none) ↔ All (MayPassOn held) requested
  assert_grantable_scopes-MayPassOn = (granted_may, may_granted)
