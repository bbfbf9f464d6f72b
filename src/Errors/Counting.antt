-- ===== src/Errors/Counting.antt =====
-- The aggregator against the history of what was recorded.
use memoar.Prelude.{
  ℕ, suc, ◌+◌, ◌≤◌, ◌≡◌, ◌⊎◌, refl, sym, ap, ◌∙◌, inl, inr, arith, true, false, List, [], ◌∷◌,
  Option, none, some,
}
use memoar.Prelude.Tests.{if◌then◌else◌, Bool-cases, leb, leb→le, Option-cases}
use memoar.Prelude.Lists.{length}
use memoar.Prelude.Str.{Str, ◌==◌, eq_iff}
use memoar.Prelude.JsMap.{get, get-set, JsMap, set}
use memoar.Errors.{
  empty, ErrorAggregator, ErrorContext, ErrorGroup, Fingerprint, first_group, max_groups,
  record_print, seen_again,
}

pub length-set_there :
    (k : Str) (v w : ErrorGroup) (m : JsMap ErrorGroup)
    → get k m ≡ some w
    → length (set k v m) ≡ length m
unfolding get set
length-set_there k v w [] h = cc
length-set_there k v w ((j, u) ∷ m) h = ground (arith, h, length-set_there k v w m)

pub length-set_new :
    (k : Str) (v : ErrorGroup) (m : JsMap ErrorGroup)
    → get k m ≡ none
    → length (set k v m) ≡ suc (length m)
unfolding get set
length-set_new k v [] h = refl
length-set_new k v ((j, u) ∷ m) h = ground (arith, h, length-set_new k v m)

-- The occurrences that the groups count.
unfoldable pub counted : JsMap ErrorGroup → ℕ
counted [] = 0
counted ((k, g) ∷ m) = g.count + counted m

pub counted-set_there :
    (k : Str) (v w : ErrorGroup) (m : JsMap ErrorGroup)
    → get k m ≡ some w
    → counted (set k v m) + w.count ≡ counted m + v.count
unfolding get set counted
counted-set_there k v w [] h = cc
counted-set_there k v w ((j, u) ∷ m) h = elim (Bool-cases (j == k)) [
  | inl e ↦
      let same : u ≡ w = cc (rw e at h) in
      rw e (omega (arith, ap (λ (g : ErrorGroup). g.count) same))
  | inr e ↦ rw e (omega (arith, counted-set_there k v w m (rw e at h)))
]

pub counted-set_new :
    (k : Str) (v : ErrorGroup) (m : JsMap ErrorGroup)
    → get k m ≡ none
    → counted (set k v m) ≡ counted m + v.count
unfolding get set counted
counted-set_new k v [] h = omega arith
counted-set_new k v ((j, u) ∷ m) h = ground (arith, h, counted-set_new k v m)

-- One recorded failure, and the aggregator after a history of them, the latest first.
pub record Occurrence : Type 0 where
  pub print : Fingerprint
  pub context : ErrorContext
  pub at_time : Str

unfoldable pub after : List Occurrence → ErrorAggregator
after [] = empty
after (o ∷ earlier) = (record_print o.print o.context o.at_time (after earlier)).0

unfoldable pub occurrences : Str → List Occurrence → ℕ
occurrences id [] = 0
occurrences id (o ∷ earlier) =
    let rest = occurrences id earlier in if o.print.id == id then suc rest else rest

module _ (print : Fingerprint) (context : ErrorContext) (at_time : Str) (a : ErrorAggregator) where
  abbrev next : ErrorAggregator
  next = (record_print print context at_time a).0

  pub again :
      (g : ErrorGroup)
      → get print.id a.groups ≡ some g
      → next ≡ record a { groups = set print.id (seen_again g context at_time) a.groups }
  unfolding record_print
  again g e = rw (next, record_print, e) refl

  pub dropped :
      get print.id a.groups ≡ none
      → leb max_groups (length a.groups) ≡ true
      → next ≡ record a { overflow = suc a.overflow }
  unfolding record_print
  dropped e full = rw (next, record_print, e, full) refl

  pub begun :
      get print.id a.groups ≡ none
      → leb max_groups (length a.groups) ≡ false
      → next ≡ record a { groups = set print.id (first_group print context at_time) a.groups }
  unfolding record_print
  begun e room = rw (next, record_print, e, room) refl

-- What is found under an identifier agrees with the number of its occurrences: a group counts all
-- of them, and without a group there were none, or the aggregator is full.
abbrev pub Agrees : ℕ → ℕ → Option ErrorGroup → Type 0
Agrees n size none = (n ≡ 0) ⊎ (max_groups ≤ size)
Agrees n size (some g) = g.count ≡ n

Agrees-grown :
    (n size larger : ℕ) (o : Option ErrorGroup)
    → size ≤ larger
    → Agrees n size o
    → Agrees n larger o
Agrees-grown n size larger none le (inl e) = inl e
Agrees-grown n size larger none le (inr e) = inr (omega (arith, le, e))
Agrees-grown n size larger (some g) le h = h

abbrev pub Counts : List Occurrence → ErrorAggregator → Str → Type 0
Counts history a id = Agrees (occurrences id history) (length a.groups) (get id a.groups)

module _ (o : Occurrence) (earlier : List Occurrence) (a : ErrorAggregator) (id : Str)
    (h : Counts earlier a id) where
  this_one : (o.print.id == id) ≡ true → occurrences id (o ∷ earlier) ≡ suc (occurrences id earlier)
  unfolding occurrences
  this_one q = rw (q, occurrences) refl

  another : (o.print.id == id) ≡ false → occurrences id (o ∷ earlier) ≡ occurrences id earlier
  unfolding occurrences
  another q = rw (q, occurrences) refl

  found_here :
      (r : Option ErrorGroup)
      → (o.print.id == id) ≡ true
      → get o.print.id a.groups ≡ r
      → get id a.groups ≡ r
  found_here r q e = ap (λ (k : Str). get k a.groups) (sym ((eq_iff o.print.id id).0 q)) ∙ e

  none_before :
      (o.print.id == id) ≡ true
      → get o.print.id a.groups ≡ none
      → (occurrences id earlier ≡ 0) ⊎ (max_groups ≤ length a.groups)
  none_before q e = rw (found_here none q e) at h

  -- Another identifier's group is written.
  Counts-other :
      (v : ErrorGroup)
      → (o.print.id == id) ≡ false
      → length a.groups ≤ length (set o.print.id v a.groups)
      → Agrees
          (occurrences id (o ∷ earlier))
          (length (set o.print.id v a.groups))
          (get id (set o.print.id v a.groups))
  Counts-other v q grown =
      rw (get-set o.print.id id v a.groups, q, another q)
        (Agrees-grown (occurrences id earlier) (length a.groups) _ (get id a.groups) grown h)

  Counts-again :
      (g : ErrorGroup)
      → get o.print.id a.groups ≡ some g
      → Counts
          (o ∷ earlier)
          (record a { groups = set o.print.id (seen_again g o.context o.at_time) a.groups })
          id
  unfolding seen_again
  Counts-again g e = elim (Bool-cases (o.print.id == id)) [
    | inl q ↦
        rw (get-set o.print.id id (seen_again g o.context o.at_time) a.groups, q, this_one q)
          (ap suc (rw (found_here (some g) q e) at h))
    | inr q ↦
        Counts-other (seen_again g o.context o.at_time) q (
          omega
            (arith, length-set_there o.print.id (seen_again g o.context o.at_time) g a.groups e))
  ]

  Counts-dropped :
      get o.print.id a.groups ≡ none
      → leb max_groups (length a.groups) ≡ true
      → Counts (o ∷ earlier) (record a { overflow = suc a.overflow }) id
  Counts-dropped e full = elim (Bool-cases (o.print.id == id)) [
    | inl q ↦ rw (found_here none q e) (inr (leb→le max_groups (length a.groups) full))
    | inr q ↦ rw (another q) h
  ]

  Counts-begun :
      get o.print.id a.groups ≡ none
      → leb max_groups (length a.groups) ≡ false
      → Counts
          (o ∷ earlier)
          (record a { groups = set o.print.id (first_group o.print o.context o.at_time) a.groups })
          id
  unfolding first_group
  Counts-begun e room = elim (Bool-cases (o.print.id == id)) [
    | inl q ↦
        rw (get-set o.print.id id (first_group o.print o.context o.at_time) a.groups, q, this_one q)
          (elim (none_before q e) [
            | inl z ↦ ap suc (sym z)
            | inr full ↦ absurd (ground (arith, full, room))
          ])
    | inr q ↦ Counts-other (first_group o.print o.context o.at_time) q (
        omega
          (arith, length-set_new o.print.id (first_group o.print o.context o.at_time) a.groups e))
  ]

-- The groups count every occurrence since the start of each failure they name, exactly; a failure
-- that is not named has not occurred, or came when there were two hundred groups.
pub after-Counts : (history : List Occurrence) (id : Str) → Counts history (after history) id
unfolding after get occurrences
after-Counts [] id = inl refl
after-Counts (o ∷ earlier) id =
    let a = after earlier in
    let h = after-Counts earlier id in
    elim (Option-cases (get o.print.id a.groups)) [
      | inr (g, e) ↦
          rw (again o.print o.context o.at_time a g e) (Counts-again o earlier a id h g e)
      | inl e ↦ elim (Bool-cases (leb max_groups (length a.groups))) [
        | inl full ↦
            rw (dropped o.print o.context o.at_time a e full)
              (Counts-dropped o earlier a id h e full)
        | inr room ↦
            rw (begun o.print o.context o.at_time a e room) (Counts-begun o earlier a id h e room)
      ]
    ]

-- One record step keeps an aggregator of no more than two hundred groups so, and adds one to what
-- its groups and its overflow count.
pub record_print-accounts :
    (print : Fingerprint) (context : ErrorContext) (at_time : Str) (a : ErrorAggregator)
    → length a.groups ≤ max_groups
    → (length (record_print print context at_time a).0.groups ≤ max_groups)
      × (counted (record_print print context at_time a).0.groups
            + (record_print print context at_time a).0.overflow
          ≡ suc (counted a.groups + a.overflow))
unfolding seen_again first_group
record_print-accounts print context at_time a bound = elim (Option-cases (get print.id a.groups)) [
  | inr (g, e) ↦
      let v = seen_again g context at_time in
      rw (again print context at_time a g e) (
        omega (arith, bound, length-set_there print.id v g a.groups e),
        omega (arith, counted-set_there print.id v g a.groups e),
      )
  | inl e ↦ elim (Bool-cases (leb max_groups (length a.groups))) [
    | inl full ↦ rw (dropped print context at_time a e full) (bound, omega arith)
    | inr room ↦
        let v = first_group print context at_time in
        rw (begun print context at_time a e room) (
          ground (arith, room, length-set_new print.id v a.groups e),
          omega (arith, counted-set_new print.id v a.groups e),
        )
  ]
]

-- Whatever is recorded, one failure after another from the start and with nothing restored: there
-- are no more than two hundred groups, and their counts and the overflow add up to the number of
-- failures recorded.
pub after-accounts :
    (history : List Occurrence)
    → (length (after history).groups ≤ max_groups)
      × (counted (after history).groups + (after history).overflow ≡ length history)
unfolding after counted
after-accounts [] = (omega arith, omega arith)
after-accounts (o ∷ earlier) =
    let (bound, total) = after-accounts earlier in
    let step = record_print-accounts o.print o.context o.at_time (after earlier) bound in
    (step.0, omega (arith, step.1, total))
