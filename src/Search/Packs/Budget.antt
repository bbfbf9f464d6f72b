-- ===== src/Search/Packs/Budget.antt =====
-- What a pack may hold: nothing past its budget, and no section cut in two.
use Prim.Native.Nat.{◌*◌, min}
use memoar.Prelude.{
  ℕ, ◌+◌, ◌≤◌, ◌<◌, ◌≡◌, refl, inl, inr, arith, true, false, ◌&&◌, ◌||◌, List, [], ◌∷◌, ◌++◌,
  Option,
}
use memoar.Prelude.Tests.{Bool-cases, leb, ltb}
use memoar.Prelude.Lists.{All, All-append, length, length-append, length-take-le, take, take_all}
use memoar.Prelude.Str.{Str}
use memoar.Canonical.{ArchivedSession}
use memoar.Host.{Host}
use memoar.Search.{SearchCandidate}
use memoar.Search.Packs.{
  add_selected, age_of, available_excerpt, build, concat, consider, excerpt_of, Gathered, gather,
  go_on, is_stale, is_strict, PackEvidence, PackRequest, prefix, quote, section_of, start_pack,
  Considered, stop, textual_turns, with_section,
}

length-concat_one :
    (xs : List Str) (x : Str) → length (concat (xs ++ (x ∷ []))) ≡ length (concat xs) + length x
unfolding concat
length-concat_one [] x = omega (arith, length-append x [])
length-concat_one (y ∷ ys) x = omega (
  arith,
  length-append y (concat (ys ++ (x ∷ []))),
  length-append y (concat ys),
  length-concat_one ys x,
)

length-one_more :
    {A : Type 0} (xs : List A) (x : A) (n : ℕ) → length xs < n → length (xs ++ (x ∷ [])) ≤ n
length-one_more xs x n h = omega (arith, h, length-append xs (x ∷ []))

length-take-min : {A : Type 0} (a b : ℕ) (xs : List A) → length (take (min a b) xs) ≤ a
length-take-min a b xs = omega (arith, length-take-le (min a b) xs)

length-add_selected :
    (id : Str) (selected : List Str) → length (add_selected id selected) ≤ length selected + 1
unfolding add_selected
length-add_selected id selected = ground (arith, length-append selected (id ∷ []))

-- What holds of the loop's state: the sections and the rest of the budget make up the whole, and
-- the request's limits are kept.
record Fits (request : PackRequest) (g : Gathered) : Type 0 where
  whole : length (concat g.sections) + g.remaining ≡ (start_pack request).remaining
  few : length g.evidence ≤ request.max_evidence
  sessions : length g.selected ≤ request.max_sessions
  short : All (λ (e : PackEvidence). length e.excerpt ≤ request.max_excerpt_chars) g.evidence
  fresh : is_strict request.freshness_policy ≡ true → g.stale_count ≡ 0

abbrev IfGoesOn : (Gathered → Type 0) → Considered → Type 0
IfGoesOn P stop = Unit
IfGoesOn P (go_on g) = P g

module _ (request : PackRequest) (session : ArchivedSession) (age : Option ℕ) (first : ℕ × Str)
    (rest : List (ℕ × Str)) (g : Gathered) (fits : Fits request g)
    (more : length g.evidence < request.max_evidence)
    (other : length g.selected < request.max_sessions)
    (fresh : (is_stale request age && is_strict request.freshness_policy) ≡ false) where
  length-excerpt_of :
      length (excerpt_of request session age first rest g) ≤ request.max_excerpt_chars
  unfolding excerpt_of available_excerpt
  length-excerpt_of = length-take-min request.max_excerpt_chars _ _

  with_section-Fits :
      length (section_of request session age first rest g) ≤ g.remaining
      → Fits request (with_section request session age first rest g)
  unfolding with_section
  with_section-Fits room = record {
    whole = omega (
      arith,
      fits.whole,
      room,
      length-concat_one g.sections (section_of request session age first rest g),
    );
    few = length-one_more g.evidence _ request.max_evidence more;
    sessions = omega (arith, other, length-add_selected session.id g.selected);
    short =
        All-append (λ (e : PackEvidence). length e.excerpt ≤ request.max_excerpt_chars) g.evidence _
          fits.short (length-excerpt_of, tt);
    fresh = λ s. ground (arith, fits.fresh s, fresh, s);
  }

  quote-Fits : IfGoesOn (Fits request) (quote request session age first rest g)
  unfolding quote
  quote-Fits = elim (Bool-cases (ltb (available_excerpt request session age first rest g) 1)) [
    | inl a ↦ rw (quote, a) tt
    | inr a ↦
        elim (Bool-cases (ltb g.remaining (length (section_of request session age first rest g)))) [
          | inl b ↦ rw (quote, a, b) tt
          | inr b ↦ rw (quote, a, b) (with_section-Fits (ground (arith, b)))
        ]
  ]

module _ (host : Host) (request : PackRequest) (now : ℕ) where
  consider-Fits :
      (session : ArchivedSession) (g : Gathered)
      → Fits request g
      → IfGoesOn (Fits request) (consider host request now session g)
  unfolding consider
  consider-Fits session g fits =
      let age = age_of host now session in
      elim (Bool-cases (
        leb request.max_evidence (length g.evidence)
        || leb request.max_sessions (length g.selected))) [
          | inl full ↦ rw (consider, full) tt
          | inr room ↦
              elim (Bool-cases (is_stale request age && is_strict request.freshness_policy)) [
                | inl old ↦ rw (consider, room, old) fits
                | inr fresh ↦
                    rw (consider, room, fresh)
                      (go age (textual_turns session.turns) (ground (arith, room))
                        (ground (arith, room)) fresh)
              ]
        ]
    where
      go :
          (age : Option ℕ) (turns : List (ℕ × Str))
          → length g.evidence < request.max_evidence
          → length g.selected < request.max_sessions
          → (is_stale request age && is_strict request.freshness_policy) ≡ false
          → IfGoesOn
              (Fits request)
              (elim turns [ [] ↦ go_on g | first ∷ rest ↦ quote request session age first rest g ])
      go age [] more other fresh = fits
      go age (first ∷ rest) more other fresh =
          quote-Fits request session age first rest g fits more other fresh

  gather-Fits :
      {S : Type 0} (candidates : List (SearchCandidate S)) (g : Gathered)
      → Fits request g
      → Fits request (gather host request now candidates g)
  unfolding gather
  gather-Fits [] g fits = fits
  gather-Fits (c ∷ rest) g fits =
      go (consider host request now c.session g) (consider-Fits c.session g fits) (gather-Fits rest)
    where
      go :
          (s : Considered)
          → IfGoesOn (Fits request) s
          → ((next : Gathered)
              → Fits request next
              → Fits request (gather host request now rest next))
          → Fits request (elim s [ stop ↦ g | go_on next ↦ gather host request now rest next ])
      go stop h later = fits
      go (go_on next) h later = later next h

  start_pack-Fits : Fits request (start_pack request)
  unfolding start_pack concat
  start_pack-Fits = record {
    whole = omega arith;
    few = omega arith;
    sessions = omega arith;
    short = tt;
    fresh = λ s. refl;
  }

  -- The sections of a pack before its text is cut to the budget.
  abbrev pub sections_of : {S : Type 0} → List (SearchCandidate S) → List Str
  sections_of candidates = (gather host request now candidates (start_pack request)).sections

  -- A pack keeps its request: no more characters than four for each token, no more evidence than
  -- asked, and no longer excerpts.
  pub build-budget :
      {S : Type 0} (candidates : List (SearchCandidate S))
      → (length (build host request now candidates).markdown ≤ request.max_tokens * 4)
        × (length (build host request now candidates).evidence ≤ request.max_evidence)
        × All
            (λ (e : PackEvidence). length e.excerpt ≤ request.max_excerpt_chars)
            (build host request now candidates).evidence
  unfolding build
  build-budget candidates =
      let fits = gather-Fits candidates (start_pack request) start_pack-Fits in
      (length-take-le (request.max_tokens * 4) _, fits.few, fits.short)

  -- Nothing stale is quoted under a strict policy.
  pub build-fresh :
      {S : Type 0} (candidates : List (SearchCandidate S))
      → is_strict request.freshness_policy ≡ true
      → (build host request now candidates).stale_count ≡ 0
  unfolding build
  build-fresh candidates = (gather-Fits candidates (start_pack request) start_pack-Fits).fresh

  -- Where the heading of the pack fits the budget, the pack's text is the heading and the whole of
  -- every section: no section is cut.
  pub build-whole :
      {S : Type 0} (candidates : List (SearchCandidate S))
      → length (prefix request) ≤ request.max_tokens * 4
      → (build host request now candidates).markdown
        ≡ prefix request ++ concat (sections_of candidates)
  unfolding build start_pack
  build-whole candidates room =
      let fits = gather-Fits candidates (start_pack request) start_pack-Fits in
      take_all (request.max_tokens * 4) (prefix request ++ concat (sections_of candidates)) (
        omega (
          arith,
          room,
          fits.whole,
          length-append (prefix request) (concat (sections_of candidates)),
        ))
