-- ===== src/Prelude/JsMap.antt =====
-- A `Map` with string keys: its entries in the order of insertion.
use mathlib.Core.Path.{◌≡◌, refl, subst}
use mathlib.Core.Logic.{inl, inr}
use mathlib.Core.Bool.{Bool, false, not, ◌||◌}
use mathlib.Core.List.{List, [], ◌∷◌, map}
use mathlib.Core.Option.{Option, none, some}
use mathlib.Core.Option
use native.Mathlib.Omega.{arith}
use memoar.Prelude.Tests.{if◌then◌else◌, Bool-cases, is_some}
use memoar.Prelude.Lists.{All, filter}
use memoar.Prelude.Str.{Str, ◌==◌, eq_iff, eq_refl}

abbrev pub JsMap {ℓ} : Type ℓ → Type ℓ
JsMap V = List (Str × V)

module _ {ℓ} {V : Type ℓ} where
  -- `m.get(k)`
  unfoldable pub get : Str → JsMap V → Option V
  get k [] = none
  get k ((j, v) ∷ m) = if j == k then some v else get k m

  -- `m.has(k)`
  unfoldable pub has : Str → JsMap V → Bool
  has k [] = false
  has k ((j, v) ∷ m) = j == k || has k m

  -- `m.set(k, v)`: a key that is there keeps its place.
  unfoldable pub set : Str → V → JsMap V → JsMap V
  set k v [] = (k, v) ∷ []
  set k v ((j, w) ∷ m) = let rest = set k v m in if j == k then (k, v) ∷ m else (j, w) ∷ rest

  -- `m.delete(k)`
  unfoldable pub delete : Str → JsMap V → JsMap V
  delete k [] = []
  delete k ((j, w) ∷ m) = let rest = delete k m in if j == k then rest else (j, w) ∷ rest

  -- `[...m.values()]`
  abbrev pub values : JsMap V → List V
  values = map (λ e. e.1)

  -- `for (const [k, v] of m)` with a body that assigns to `v` or replaces it
  unfoldable pub update_each : (Str → V → V) → JsMap V → JsMap V
  update_each f [] = []
  update_each f ((j, v) ∷ m) = (j, f j v) ∷ update_each f m

  -- `for (const [k, v] of m)` with a body that deletes the entries of the test
  unfoldable pub delete_where : (Str → V → Bool) → JsMap V → JsMap V
  unfolding filter
  delete_where p = filter (λ (e : Str × V). not (p e.0 e.1))

  -- No key stands twice.
  unfoldable pub IsMap : JsMap V → Type 0
  IsMap [] = Unit
  IsMap ((j, v) ∷ m) = (has j m ≡ false) × IsMap m

module _ {ℓ} {V : Type ℓ} where
  pub get-set :
      (k j : Str) (v : V) (m : JsMap V) → get j (set k v m) ≡ (if k == j then some v else get j m)
  unfolding get set
  get-set k j v [] = refl
  get-set k j v ((i, w) ∷ m) = ground (arith, eq_iff k j, eq_iff i k, eq_iff i j, get-set k j v m)

  pub get-set_self : (k : Str) (v : V) (m : JsMap V) → get k (set k v m) ≡ some v
  get-set_self k v m = simp (get-set, eq_refl)

  pub get-delete :
      (k j : Str) (m : JsMap V) → get j (delete k m) ≡ (if k == j then none else get j m)
  unfolding get delete
  get-delete k j [] = ground arith
  get-delete k j ((i, w) ∷ m) = ground (arith, get-delete k j m, eq_iff i k, eq_iff i j, eq_iff k j)

  pub has-get : (k : Str) (m : JsMap V) → has k m ≡ is_some (get k m)
  unfolding get has
  has-get k [] = refl
  has-get k ((j, v) ∷ m) = ground (arith, has-get k m)

  pub has-set : (k j : Str) (v : V) (m : JsMap V) → has j (set k v m) ≡ (k == j || has j m)
  unfolding has set
  has-set k j v [] = refl
  has-set k j v ((i, w) ∷ m) = ground (arith, eq_iff k j, eq_iff i k, eq_iff i j, has-set k j v m)

  pub IsMap-set : (k : Str) (v : V) (m : JsMap V) → IsMap m → IsMap (set k v m)
  unfolding IsMap set has
  IsMap-set k v [] h = (refl, tt)
  IsMap-set k v ((j, w) ∷ m) h = elim (Bool-cases (j == k)) [
    | inl e ↦ rw e (ground (arith, eq_iff j k), h.1)
    | inr e ↦ rw e (ground (arith, has-set k j v m, eq_iff k j, eq_iff j k), IsMap-set k v m h.1)
  ]

  pub has-filter :
      (p : Str × V → Bool) (k : Str) (m : JsMap V) → has k m ≡ false → has k (filter p m) ≡ false
  unfolding has filter
  has-filter p k [] h = refl
  has-filter p k ((j, w) ∷ m) h = ground (arith, has-filter p k m)

  pub IsMap-delete_where : (p : Str → V → Bool) (m : JsMap V) → IsMap m → IsMap (delete_where p m)
  unfolding IsMap delete_where
  IsMap-delete_where p [] h = tt
  IsMap-delete_where p ((j, w) ∷ m) h = elim (Bool-cases (p j w)) [
    | inl e ↦ rw e (IsMap-delete_where p m h.1)
    | inr e ↦
        rw e (has-filter (λ (e : Str × V). not (p e.0 e.1)) j m h.0, IsMap-delete_where p m h.1)
  ]

  pub get-absent : (k : Str) (m : JsMap V) → has k m ≡ false → get k m ≡ none
  unfolding get has
  get-absent k [] h = refl
  get-absent k ((j, w) ∷ m) h = ground (arith, get-absent k m)

  pub get-update_each :
      (f : Str → V → V) (k : Str) (m : JsMap V)
      → get k (update_each f m) ≡ Option.map (f k) (get k m)
  unfolding get update_each
  get-update_each f k [] = refl
  get-update_each f k ((j, v) ∷ m) = elim (Bool-cases (j == k)) [
    | inl e ↦ rw ((eq_iff j k).0 e, eq_refl)
    | inr e ↦ rw e (get-update_each f k m)
  ]

-- What a key finds, kept if the test spares it.
abbrev pub spared {ℓ} : {V : Type ℓ} → (V → Bool) → Option V → Option V
spared p none = none
spared p (some v) = if p v then none else some v

module _ {ℓ} {V : Type ℓ} where
  pub get-delete_where :
      (p : Str → V → Bool) (k : Str) (m : JsMap V)
      → IsMap m
      → get k (delete_where p m) ≡ spared (p k) (get k m)
  unfolding get delete_where IsMap
  get-delete_where p k [] h = refl
  get-delete_where p k ((j, v) ∷ m) h = elim (Bool-cases (p j v)) [
    | inl q ↦ ground (arith, q, get-delete_where p k m h.1, eq_iff j k, get-absent j m)
    | inr q ↦ ground (arith, q, get-delete_where p k m h.1, eq_iff j k)
  ]

module _ {ℓ κ} {V : Type ℓ} (P : Str × V → Type κ) where
  -- What holds of each entry holds of what a key finds.
  pub get-All : (k : Str) (m : JsMap V) {v : V} → All P m → get k m ≡ some v → P (k, v)
  unfolding get
  get-All k [] h e = cc
  get-All k ((j, w) ∷ m) {v} h e = elim (Bool-cases (j == k)) [
    | inl t ↦
        let same : w ≡ v = cc (rw t at e) in
        subst P {x = (j, w)} {y = (k, v)} (λ i. ((eq_iff j k).0 t i, same i)) h.0
    | inr f ↦ get-All k m h.1 (rw f at e)
  ]

  pub All-set : (k : Str) (v : V) (m : JsMap V) → P (k, v) → All P m → All P (set k v m)
  unfolding set
  All-set k v [] hv h = (hv, tt)
  All-set k v ((j, w) ∷ m) hv h = elim (Bool-cases (j == k)) [
    | inl t ↦ rw t (hv, h.1)
    | inr f ↦ rw f (h.0, All-set k v m hv h.1)
  ]

  pub All-delete : (k : Str) (m : JsMap V) → All P m → All P (delete k m)
  unfolding delete
  All-delete k [] h = tt
  All-delete k ((j, w) ∷ m) h = elim (Bool-cases (j == k)) [
    | inl t ↦ rw t (All-delete k m h.1)
    | inr f ↦ rw f (h.0, All-delete k m h.1)
  ]

  pub All-update_each :
      (f : Str → V → V) (m : JsMap V)
      → ((e : Str × V) → P e → P (e.0, f e.0 e.1))
      → All P m
      → All P (update_each f m)
  unfolding update_each
  All-update_each f [] step h = tt
  All-update_each f ((j, v) ∷ m) step h = (step (j, v) h.0, All-update_each f m step h.1)
