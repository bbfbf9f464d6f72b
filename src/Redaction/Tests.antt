-- ===== src/Redaction/Tests.antt =====
-- Runs of `applyMasks`.
use memoar.Prelude.{◌-◌, ◌≡◌, arith, [], ◌∷◌, ◌++◌}
use memoar.Prelude.Lists.{drop, insert_by, length, sort_by}
use memoar.Prelude.Str.{Str, codes}
use memoar.Redaction.{apply_masks, by_start_descending, marker, ReviewedMask}
use memoar.Redaction.Leak.{apply_masks-nested, covering}
use memoar.Redaction.Masks.{apply_masks-IsDescending, IsDescending, redacted}

abbrev long_text : Str
long_text = codes "the customer is called Ada and lives here"

abbrev name_mask : ReviewedMask
name_mask = record { block_id = codes "b"; start = 23; stop = 26; kind = codes "n" }

abbrev place_mask : ReviewedMask
place_mask = record { block_id = codes "b"; start = 37; stop = 41; kind = codes "p" }

apply_masks-IsDescending_example :
    apply_masks long_text (name_mask ∷ place_mask ∷ [])
    ≡ redacted long_text (sort_by by_start_descending (name_mask ∷ place_mask ∷ []))
unfolding IsDescending sort_by insert_by by_start_descending
apply_masks-IsDescending_example =
    apply_masks-IsDescending long_text (name_mask ∷ place_mask ∷ [])
      (omega arith, omega arith, (omega arith, omega arith, tt))

apply_masks-nested_example :
    apply_masks long_text (covering (codes "b") long_text (codes "o") ∷ name_mask ∷ [])
    ≡ marker (codes "o") ++ drop (length long_text - 9) long_text
unfolding marker
apply_masks-nested_example =
    apply_masks-nested long_text (codes "o") name_mask 9 (omega arith) (omega arith) (omega arith)
      (omega arith) (omega arith)
