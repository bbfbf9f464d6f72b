-- ===== src/Redaction/Leak.antt =====
-- `applyMasks` on a range inside another one.
use memoar.Prelude.{
  ℕ, zero, suc, ◌+◌, ◌-◌, ◌≤◌, ◌<◌, ◌≡◌, ◌∙◌, Ordering, ap, refl, sym, [], ◌∷◌, ◌++◌, arith,
}
use memoar.Prelude.Lists.{length, length-append, take, drop, sort_by, insert_by}
use memoar.Prelude.Str.{Str}
use memoar.Redaction.{
  ReviewedMask, apply_in_order, apply_mask, apply_masks, by_start_descending, marker,
}
use Prim.Native.Nat.{compare}
use memoar.Redaction.Masks.{apply_mask-in, drop-append_ge, drop-nil, length-take}

drop-drop : (i j : ℕ) (s : Str) → drop i (drop j s) ≡ drop (i + j) s
drop-drop i zero s = let e : i ≡ i + 0 = omega arith in ap (λ (k : ℕ). drop k s) e
drop-drop i (suc j) [] = drop-nil i ∙ sym (drop-nil (i + suc j))
drop-drop i (suc j) (c ∷ s) =
    let e : suc (i + j) ≡ i + suc j = omega arith in
    drop-drop i j s ∙ ap (λ (k : ℕ). drop k (c ∷ s)) e

abbrev pub covering : Str → Str → Str → ReviewedMask
covering block text kind = record { block_id = block; start = 0; stop = length text; kind = kind }

compare_gt : (m n : ℕ) → n < m → compare m n ≡ Ordering.gt
compare_gt m n h = ground arith

in_order :
    (outer inner : ReviewedMask)
    → outer.start < inner.start
    → sort_by by_start_descending (outer ∷ inner ∷ []) ≡ inner ∷ outer ∷ []
unfolding by_start_descending sort_by insert_by
in_order outer inner h =
    let e : by_start_descending outer inner ≡ Ordering.gt = compare_gt inner.start outer.start h in
    rw (sort_by, insert_by, e) refl

length-drop : (n : ℕ) (s : Str) → length (drop n s) ≡ length s - n
length-drop zero s = omega arith
length-drop (suc n) [] = omega arith
length-drop (suc n) (c ∷ s) = omega (arith, length-drop n s)

length-masked :
    (text m : Str) (a b n : ℕ)
    → a < b
    → b ≤ length text
    → a + length m ≡ b + n
    → length (take a text ++ (m ++ drop b text)) ≡ length text + n
length-masked text m a b n h k e = omega (
  arith,
  length-append (take a text) (m ++ drop b text),
  length-append m (drop b text),
  length-take a text (omega arith),
  length-drop b text,
)

left_over :
    (text m : Str) (a b n : ℕ)
    → a < b
    → b ≤ length text
    → a + length m ≤ length text
    → a + length m ≡ b + n
    → drop (length text) (take a text ++ (m ++ drop b text)) ≡ drop (length text - n) text
left_over text m a b n h k l e =
    let la : length (take a text) ≡ a = length-take a text (omega arith) in
    drop-append_ge (length text) (take a text) (m ++ drop b text) (omega (arith, la))
    ∙ (drop-append_ge (length text - length (take a text)) m (drop b text) (omega (arith, la))
        ∙ (drop-drop (length text - length (take a text) - length m) b text
            ∙ ap (λ (i : ℕ). drop i text) (omega (arith, la))))

-- One mask covers the whole text of a block and a second one lies inside it, not at its start.
-- When the marker of the inner mask is longer than its range by `n`, the last `n` characters of
-- the text are left in the result, though the outer mask hides the whole text.
pub apply_masks-nested :
    (text : Str) (outer : Str) (inner : ReviewedMask) (n : ℕ)
    → 0 < inner.start
    → inner.start < inner.stop
    → inner.stop ≤ length text
    → inner.start + length (marker inner.kind) ≤ length text
    → inner.start + length (marker inner.kind) ≡ inner.stop + n
    → apply_masks text (covering inner.block_id text outer ∷ inner ∷ [])
      ≡ marker outer ++ drop (length text - n) text
unfolding apply_masks apply_in_order
apply_masks-nested text outer inner n p h k l e =
    let whole = covering inner.block_id text outer in
    let m = marker inner.kind in
    let rest = take inner.start text ++ (m ++ drop inner.stop text) in
    let size : length rest ≡ length text + n =
      length-masked text m inner.start inner.stop n h k e in
    ap (apply_in_order text) (in_order whole inner p)
    ∙ (ap (λ (t : Str). apply_mask t whole) (apply_mask-in text inner h k)
        ∙ (apply_mask-in rest whole (omega arith) (omega (arith, size))
            ∙ ap (marker outer ++◌) (left_over text m inner.start inner.stop n h k l e)))
