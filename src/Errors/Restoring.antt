-- ===== src/Errors/Restoring.antt =====
-- What a restart keeps: the state that is written, read back into a new aggregator.
use memoar.Prelude.{
  suc, ◌+◌, ◌≤◌, ◌≡◌, refl, ap, ◌∙◌, inl, inr, arith, false, List, [], ◌∷◌, ◌++◌, none,
}
use memoar.Prelude.Tests.{Bool-cases, leb, Option-cases}
use memoar.Prelude.Lists.{All, length, take, take_all}
use memoar.Prelude.Str.{Str, ◌==◌, eq_iff}
use memoar.Prelude.JsMap.{
  All-set, get, get-absent, get-All, has, IsMap, IsMap-set, JsMap, set, values,
}
use memoar.Errors.{
  empty, ErrorAggregator, ErrorGroup, first_group, max_groups, persistable, record_print, restore,
  restore_group, restore_groups, seen_again,
}
use memoar.Errors.Counting.{after, again, begun, dropped, Occurrence, record_print-accounts}

append_nil : {A : Type 0} (xs : List A) → xs ≡ xs ++ []
append_nil [] = refl
append_nil (x ∷ xs) = ap (◌∷◌ x) (append_nil xs)

append_one : {A : Type 0} (x : A) (xs ys : List A) → (xs ++ (x ∷ [])) ++ ys ≡ xs ++ (x ∷ ys)
append_one x [] ys = refl
append_one x (y ∷ xs) ys = ap (◌∷◌ y) (append_one x xs ys)

length-values : (m : JsMap ErrorGroup) → length (values m) ≡ length m
length-values [] = refl
length-values (e ∷ m) = ap suc (length-values m)

set-new :
    (k : Str) (g : ErrorGroup) (m : JsMap ErrorGroup)
    → has k m ≡ false
    → set k g m ≡ m ++ ((k, g) ∷ [])
unfolding has set
set-new k g [] h = refl
set-new k g ((j, v) ∷ m) h = elim (Bool-cases (j == k)) [
  | inl e ↦ absurd (ground (arith, h, e))
  | inr e ↦ rw e (ap (◌∷◌ (j, v)) (set-new k g m (ground (arith, h, e))))
]

has-append_one :
    (j k : Str) (g : ErrorGroup) (m : JsMap ErrorGroup)
    → has j m ≡ false
    → (k == j) ≡ false
    → has j (m ++ ((k, g) ∷ [])) ≡ false
unfolding has
has-append_one j k g [] h ne = ground (arith, ne)
has-append_one j k g ((i, v) ∷ m) h ne = ground (arith, h, has-append_one j k g m)

-- Every group is under its own identifier.
abbrev pub IsKeyed : JsMap ErrorGroup → Type 0
IsKeyed = All (λ (e : Str × ErrorGroup). e.1.print.id ≡ e.0)

-- No key of the second is in the first.
abbrev IsApart : JsMap ErrorGroup → JsMap ErrorGroup → Type 0
IsApart acc = All (λ (e : Str × ErrorGroup). has e.0 acc ≡ false)

IsApart-nil : (m : JsMap ErrorGroup) → IsApart [] m
unfolding has
IsApart-nil [] = tt
IsApart-nil (e ∷ m) = (refl, IsApart-nil m)

IsApart-grown :
    (k : Str) (g : ErrorGroup) (acc m : JsMap ErrorGroup)
    → has k m ≡ false
    → IsApart acc m
    → IsApart (acc ++ ((k, g) ∷ [])) m
unfolding has
IsApart-grown k g acc [] new apart = tt
IsApart-grown k g acc ((j, v) ∷ m) new apart = (
  has-append_one j k g acc apart.0 (ground (arith, new, eq_iff j k, eq_iff k j)),
  IsApart-grown k g acc m (ground (arith, new)) apart.1,
)

restore_group-new :
    (k : Str) (g : ErrorGroup) (acc : JsMap ErrorGroup)
    → g.print.id ≡ k
    → has k acc ≡ false
    → restore_group g acc ≡ acc ++ ((k, g) ∷ [])
unfolding restore_group
restore_group-new k g acc e new =
    let absent : get g.print.id acc ≡ none = ap (λ (j : Str). get j acc) e ∙ get-absent k acc new in
    let stored : restore_group g acc ≡ set g.print.id g acc = rw (restore_group, absent) refl in
    stored ∙ (ap (λ (j : Str). set j g acc) e ∙ set-new k g acc new)

restore_groups-apart :
    (m acc : JsMap ErrorGroup)
    → IsKeyed m
    → IsMap m
    → IsApart acc m
    → restore_groups (values m) acc ≡ acc ++ m
unfolding restore_groups restore_group IsMap
restore_groups-apart [] acc keyed map apart = append_nil acc
restore_groups-apart ((k, g) ∷ m) acc keyed map apart =
    ap (λ (acc' : JsMap ErrorGroup). restore_groups (values m) acc')
      (restore_group-new k g acc keyed.0 apart.0)
    ∙ (restore_groups-apart m (acc ++ ((k, g) ∷ [])) keyed.1 map.1
          (IsApart-grown k g acc m map.0 apart.1)
        ∙ append_one (k, g) acc m)

-- What every history leaves: at most two hundred groups, each once, under its identifier.
pub IsSound : ErrorAggregator → Type 0
IsSound a = (length a.groups ≤ max_groups) × (IsMap a.groups × IsKeyed a.groups)

record_print-IsSound :
    (o : Occurrence) (a : ErrorAggregator)
    → IsSound a
    → IsSound (record_print o.print o.context o.at_time a).0
unfolding IsSound seen_again first_group
record_print-IsSound o a h =
    let bound = (record_print-accounts o.print o.context o.at_time a h.0).0 in
    let keyed = λ (e : Str × ErrorGroup). e.1.print.id ≡ e.0 in
    elim (Option-cases (get o.print.id a.groups)) [
      | inr (g, e) ↦
          let v = seen_again g o.context o.at_time in
          let own = get-All keyed o.print.id a.groups h.1.1 e in
          (
            bound,
            rw (again o.print o.context o.at_time a g e) (
              IsMap-set o.print.id v a.groups h.1.0,
              All-set keyed o.print.id v a.groups own h.1.1,
            ),
          )
      | inl e ↦ elim (Bool-cases (leb max_groups (length a.groups))) [
        | inl full ↦ (bound, rw (dropped o.print o.context o.at_time a e full) h.1)
        | inr room ↦
            let v = first_group o.print o.context o.at_time in
            (
              bound,
              rw (begun o.print o.context o.at_time a e room) (
                IsMap-set o.print.id v a.groups h.1.0,
                All-set keyed o.print.id v a.groups refl h.1.1,
              ),
            )
      ]
    ]

after-IsSound : (history : List Occurrence) → IsSound (after history)
unfolding after IsSound IsMap
after-IsSound [] = (omega arith, (tt, tt))
after-IsSound (o ∷ earlier) = record_print-IsSound o (after earlier) (after-IsSound earlier)

-- A restart loses nothing: what is written after any history and read by a new process makes the
-- aggregator that was there.
pub restore-persistable :
    (history : List Occurrence) (now : Str)
    → restore (persistable now (after history)) empty ≡ after history
unfolding restore persistable IsSound
restore-persistable history now =
    let a = after history in
    let (bound, (map, keyed)) = after-IsSound history in
    let whole =
      take_all max_groups (values a.groups) (omega (arith, bound, length-values a.groups)) in
    let groups : restore_groups (take max_groups (values a.groups)) [] ≡ a.groups =
      ap (λ (groups : List ErrorGroup). restore_groups groups []) whole
      ∙ restore_groups-apart a.groups [] keyed map (IsApart-nil a.groups) in
    let overflow : 0 + a.overflow ≡ a.overflow = omega arith in
    λ i. record { groups = groups i; overflow = overflow i }
