-- ===== src/Prelude/Str.antt =====
-- A JavaScript string: the sequence of its UTF-16 code units.
use Prim.Native.Char.{code}
use Prim.Native.Nat.{ℕ, compare, Ordering}
use Prim.Native.String.{String}
use mathlib.Core.Path.{◌≡◌, refl}
use mathlib.Core.Logic.{◌↔◌, ◌≢◌}
use mathlib.Core.Bool.{Bool, true, false, ◌&&◌, ◌||◌}
use mathlib.Core.Option.{Option, none, some}
use mathlib.Core.List.{List, [], ◌∷◌, ◌++◌}
use native.Mathlib.Omega.{arith}
use memoar.Prelude.Tests.{nat_eq, nat_eq_iff}

abbrev pub Str : Type 0
Str = List ℕ

-- The code units of a literal (the literals of the program are ASCII).
abbrev pub codes : String → Str
codes String.[] = []
codes (String.◌∷◌ c s) = code c ∷ codes s

infix 50 ◌==◌
-- `a === b`
unfoldable pub ◌==◌ : Str → Str → Bool
[] == [] = true
[] == (c ∷ s) = false
(c ∷ s) == [] = false
(c ∷ s) == (d ∷ t) = nat_eq c d && s == t

pub eq_refl : (s : Str) → (s == s) ≡ true
unfolding ◌==◌
eq_refl [] = refl
eq_refl (c ∷ s) = ground (arith, eq_refl s)

pub eq_sound : (s t : Str) → (s == t) ≡ true → s ≡ t
unfolding ◌==◌
eq_sound [] [] h = refl
eq_sound [] (c ∷ s) h = cc
eq_sound (c ∷ s) [] h = cc
eq_sound (c ∷ s) (d ∷ t) h = ground (arith, eq_sound s t)

pub eq_iff : (s t : Str) → ((s == t) ≡ true) ↔ (s ≡ t)
eq_iff s t = (eq_sound s t, λ e. rw e (eq_refl t))

pub ne→eq_false : (s t : Str) → s ≢ t → (s == t) ≡ false
ne→eq_false s t h = ground (arith, eq_sound s t)

-- `a < b`: the order of code units
unfoldable pub str_lt : Str → Str → Bool
str_lt [] [] = false
str_lt [] (d ∷ t) = true
str_lt (c ∷ s) [] = false
str_lt (c ∷ s) (d ∷ t) =
    let rest = str_lt s t in
    elim (compare c d) [ Ordering.lt ↦ true | Ordering.eq ↦ rest | Ordering.gt ↦ false ]

-- `s.startsWith(p)`
unfoldable pub starts_with : Str → Str → Bool
starts_with s [] = true
starts_with [] (d ∷ p) = false
starts_with (c ∷ s) (d ∷ p) = nat_eq c d && starts_with s p

-- What a prefix leaves.
pub starts_with-rest : (s p : Str) → starts_with s p ≡ true → (rest : Str) × (s ≡ p ++ rest)
unfolding starts_with
starts_with-rest s [] h = (s, refl)
starts_with-rest [] (d ∷ p) h = cc
starts_with-rest (c ∷ s) (d ∷ p) h =
    let (rest, e) = starts_with-rest s p (ground (arith, h)) in
    let same : c ≡ d = (nat_eq_iff c d).0 (ground (arith, h)) in (rest, λ i. same i ∷ e i)

-- `s.includes(p)`
unfoldable pub includes : Str → Str → Bool
unfolding starts_with
includes [] p = starts_with [] p
includes (c ∷ s) p = starts_with (c ∷ s) p || includes s p

-- A string as a condition: only the empty one is false.
abbrev pub truthy : Str → Bool
truthy [] = false
truthy (c ∷ s) = true

-- An optional string as a condition.
abbrev pub truthy? : Option Str → Bool
truthy? none = false
truthy? (some s) = truthy s

-- `a === b` where either may be absent
abbrev pub opt_eq : Option Str → Option Str → Bool
opt_eq none none = true
opt_eq none (some s) = false
opt_eq (some s) none = false
opt_eq (some s) (some t) = s == t

-- `list.includes(s)`
unfoldable pub contains : List Str → Str → Bool
contains [] s = false
contains (t ∷ l) s = t == s || contains l s
