-- ===== src/Redaction/Masks.antt =====
-- `applyMasks` over ranges that do not overlap: every range is taken off the stored text.
use memoar.Prelude.{
  ℕ, zero, suc, ◌-◌, ◌≤◌, ◌<◌, ◌≡◌, ◌∙◌, refl, ap, sym, inl, inr, List, [], ◌∷◌, ◌++◌, arith,
}
use memoar.Prelude.Tests.{leb, Bool-cases, leb→le}
use memoar.Prelude.Lists.{length, length-append, sort_by, take, drop}
use memoar.Prelude.Str.{Str}
use memoar.Redaction.{
  apply_in_order, apply_mask, apply_masks, by_start_descending, marker, ReviewedMask,
}
use mathlib.Core.List.{append_assoc, append-nil}
use Prim.Native.Nat.{min}

pub take-append : (n : ℕ) (p r : Str) → n ≤ length p → take n (p ++ r) ≡ take n p
take-append zero p r h = refl
take-append (suc n) [] r h = absurd (omega arith)
take-append (suc n) (c ∷ p) r h = ap (◌∷◌ c) (take-append n p r (omega arith))

pub drop-append_le : (n : ℕ) (p r : Str) → n ≤ length p → drop n (p ++ r) ≡ drop n p ++ r
drop-append_le zero p r h = refl
drop-append_le (suc n) [] r h = absurd (omega arith)
drop-append_le (suc n) (c ∷ p) r h = drop-append_le n p r (omega arith)

pub drop-append_ge : (n : ℕ) (p r : Str) → length p ≤ n → drop n (p ++ r) ≡ drop (n - length p) r
drop-append_ge n [] r h = ap (λ (k : ℕ). drop k r) (omega arith)
drop-append_ge zero (c ∷ p) r h = absurd (omega arith)
drop-append_ge (suc n) (c ∷ p) r h =
    drop-append_ge n p r (omega arith) ∙ ap (λ (k : ℕ). drop k r) (omega arith)

pub drop-nil : (n : ℕ) → drop {A = ℕ} n [] ≡ []
drop-nil zero = refl
drop-nil (suc n) = refl

pub drop-all : (n : ℕ) (s : Str) → length s ≤ n → drop n s ≡ []
drop-all zero [] h = refl
drop-all zero (c ∷ s) h = absurd (omega arith)
drop-all (suc n) [] h = refl
drop-all (suc n) (c ∷ s) h = drop-all n s (omega arith)

pub drop-min : (n : ℕ) (s : Str) → drop (min n (length s)) s ≡ drop n s
drop-min n s = elim (Bool-cases (leb n (length s))) [
  | inl t ↦ ap (λ (k : ℕ). drop k s) (omega (arith, leb→le n (length s) t))
  | inr f ↦
      let long : length s ≤ n = ground (arith, f) in
      ap (λ (k : ℕ). drop k s) (omega (arith, long))
      ∙ (drop-all (length s) s (omega arith) ∙ sym (drop-all n s long))
]

pub length-take : (n : ℕ) (s : Str) → n ≤ length s → length (take n s) ≡ n
length-take zero s h = omega arith
length-take (suc n) [] h = absurd (omega arith)
length-take (suc n) (c ∷ s) h = omega (arith, length-take n s)

-- Ranges from right to left, none empty, each ending where the one before begins or earlier, and
-- all ending at or before `bound`.
unfoldable pub IsDescending : ℕ → List ReviewedMask → Type 0
IsDescending bound [] = Unit
IsDescending bound (m ∷ ms) = (m.start < m.stop) × (m.stop ≤ bound) × IsDescending m.start ms

-- The text with each range replaced by its marker, read off the stored text.
pub redacted : Str → List ReviewedMask → Str
redacted text [] = text
redacted text (m ∷ ms) = redacted (take m.start text) ms ++ (marker m.kind ++ drop m.stop text)

pub apply_mask-in :
    (p : Str) (m : ReviewedMask)
    → m.start < m.stop
    → m.stop ≤ length p
    → apply_mask p m ≡ take m.start p ++ (marker m.kind ++ drop m.stop p)
unfolding apply_mask
apply_mask-in p m h k = elim (Bool-cases (leb (length p) m.start)) [
  | inl t ↦ absurd (omega (arith, leb→le (length p) m.start t))
  | inr f ↦ rw (f, drop-min m.stop p) refl
]

apply_mask-append :
    (p r : Str) (m : ReviewedMask)
    → m.start < m.stop
    → m.stop ≤ length p
    → apply_mask (p ++ r) m ≡ apply_mask p m ++ r
apply_mask-append p r m h k =
    let long : m.stop ≤ length (p ++ r) = omega (arith, length-append p r) in
    apply_mask-in (p ++ r) m h long
    ∙ (ap (◌++ (marker m.kind ++ drop m.stop (p ++ r))) (take-append m.start p r (omega arith))
        ∙ (ap (λ (d : Str). take m.start p ++ (marker m.kind ++ d)) (drop-append_le m.stop p r k)
            ∙ (ap (take m.start p ++◌) (sym (append_assoc (marker m.kind) (drop m.stop p) r))
                ∙ (sym (append_assoc (take m.start p) (marker m.kind ++ drop m.stop p) r)
                    ∙ ap (◌++ r) (sym (apply_mask-in p m h k))))))

-- What one range leaves, when the other ranges lie left of it.
apply_in_order-IsDescending :
    (ms : List ReviewedMask) (p : Str) (r : Str) (n : ℕ)
    → n ≤ length p
    → IsDescending n ms
    → apply_in_order (p ++ r) ms ≡ redacted p ms ++ r
unfolding apply_in_order IsDescending redacted
apply_in_order-IsDescending [] p r n h d = refl
apply_in_order-IsDescending (m ∷ ms) p r n h (a, b, c) =
    let t = take m.start p in
    let rest : Str = marker m.kind ++ drop m.stop p in
    ap (λ (s : Str). apply_in_order s ms)
      (apply_mask-append p r m a (omega arith)
        ∙ (ap (◌++ r) (apply_mask-in p m a (omega arith)) ∙ append_assoc t rest r))
    ∙ (apply_in_order-IsDescending ms t (rest ++ r) m.start
          (omega (arith, length-take m.start p (omega arith))) c
        ∙ sym (append_assoc (redacted t ms) rest r))

-- When the masks of a block, sorted as `applyMasks` sorts them, do not overlap and end inside the
-- text, the result is the stored text with every masked range cut out of it at its stored
-- offsets and its marker put there: no range is shifted by the markers written before it.
pub apply_masks-IsDescending :
    (text : Str) (masks : List ReviewedMask)
    → IsDescending (length text) (sort_by by_start_descending masks)
    → apply_masks text masks ≡ redacted text (sort_by by_start_descending masks)
unfolding apply_masks
apply_masks-IsDescending text masks d =
    let sorted = sort_by by_start_descending masks in
    ap (λ (t : Str). apply_in_order t sorted) (sym (append-nil text))
    ∙ (apply_in_order-IsDescending sorted text [] (length text) (omega arith) d
        ∙ append-nil (redacted text sorted))
