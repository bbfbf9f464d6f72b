-- ===== src/Redaction/Projection.antt =====
-- What the redaction projection makes of a session, described block by block.
use mathlib.Core.List.{append_assoc, append-nil}
use mathlib.Core.Option
use memoar.Prelude.{
  ◌≡◌, ◌⊎◌, refl, sym, ap, ◌∙◌, inl, inr, Bool, true, false, List, [], ◌∷◌, ◌++◌, map, Option, none,
  some,
}
use memoar.Prelude.Tests.{Bool-cases, or_else}
use memoar.Prelude.Lists.{All, filter}
use memoar.Prelude.Str.{Str, ◌==◌, eq_iff}
use memoar.Prelude.JsMap.{get, get-set, JsMap, set}
use memoar.Canonical.{ArchivedSession, ContentBlock, Fields, is_tool_payload, Turn}
use memoar.Redaction.{
  apply_masks, apply_redaction_projection, Engine, group_masks, map_text, mask_literals,
  project_block, project_turn, ReviewedMask, SecretPattern, strip, stripped,
}

-- The masks of one block, in their order.
abbrev pub masks_on : Str → List ReviewedMask → List ReviewedMask
masks_on id = filter (λ (m : ReviewedMask). m.block_id == id)

-- The text of a block that may be shown: without the reviewed ranges, and without what the patterns
-- match in the rest.
abbrev pub shown_text : Engine → List SecretPattern → List ReviewedMask → ContentBlock → Option Str
shown_text engine patterns masks b =
    Option.map
      (λ (text : Str). mask_literals engine (apply_masks text (masks_on b.id masks)) patterns)
      b.text

abbrev pub HidesPayload : ContentBlock → Type 0
HidesPayload b =
    (is_tool_payload b.kind ≡ false) ⊎ ((b.payload ≡ none) ⊎ (b.payload ≡ some stripped))

-- A session that shows no more of another than the patterns and the masks leave.
pub record Redacted (engine : Engine) (patterns : List SecretPattern) (masks : List ReviewedMask)
    (s shown : ArchivedSession) : Type 0 where
  pub title : shown.title ≡ mask_literals engine s.title patterns
  pub summary :
      shown.summary ≡ Option.map (λ (text : Str). mask_literals engine text patterns) s.summary
  pub path : shown.workspace.path ≡ mask_literals engine s.workspace.path patterns
  pub git_remote :
      shown.workspace.git_remote
      ≡ Option.map (λ (text : Str). mask_literals engine text patterns) s.workspace.git_remote
  pub texts :
      map (λ (t : Turn). map (λ (b : ContentBlock). b.text) t.blocks) shown.turns
      ≡ map (λ (t : Turn). map (shown_text engine patterns masks) t.blocks) s.turns
  pub payloads : All (λ (t : Turn). All HidesPayload t.blocks) shown.turns

-- The masks grouped under a block are the masks on it.
get-group_masks :
    (id : Str) (ms : List ReviewedMask) (by_block : JsMap (List ReviewedMask))
    → or_else (get id (group_masks ms by_block)) [] ≡ or_else (get id by_block) [] ++ masks_on id ms
unfolding group_masks filter
get-group_masks id [] by_block = sym (append-nil (or_else (get id by_block) []))
get-group_masks id (m ∷ ms) by_block =
    let own = or_else (get m.block_id by_block) [] ++ (m ∷ []) in
    get-group_masks id ms (set m.block_id own by_block) ∙ elim (Bool-cases (m.block_id == id)) [
      | inl e ↦
          let same : m.block_id ≡ id = (eq_iff m.block_id id).0 e in
          rw (get-set m.block_id id own by_block, e)
            (append_assoc (or_else (get m.block_id by_block) []) (m ∷ []) (masks_on id ms)
              ∙ ap (λ (k : Str). or_else (get k by_block) [] ++ (m ∷ masks_on id ms)) same)
      | inr e ↦ rw (get-set m.block_id id own by_block, e) refl
    ]

strip-hides :
    (tool : Bool) (payload : Option Fields)
    → (tool ≡ false) ⊎ ((strip tool payload ≡ none) ⊎ (strip tool payload ≡ some stripped))
unfolding strip
strip-hides true (some payload) = inr (inr refl)
strip-hides true none = inr (inl refl)
strip-hides false payload = inl refl

map_text-map : (f : Str → Str) (o : Option Str) → map_text f o ≡ Option.map f o
unfolding map_text
map_text-map f none = refl
map_text-map f (some text) = refl

module _ (engine : Engine) (patterns : List SecretPattern) (masks : List ReviewedMask) where
  abbrev projected_block : ContentBlock → ContentBlock
  projected_block = project_block engine patterns (group_masks masks [])

  block_text : (b : ContentBlock) → (projected_block b).text ≡ shown_text engine patterns masks b
  unfolding project_block get
  block_text b = rw (get-group_masks b.id masks []) (map_text-map _ b.text)

  blocks_text :
      (bs : List ContentBlock)
      → map (λ (b : ContentBlock). b.text) (map projected_block bs)
        ≡ map (shown_text engine patterns masks) bs
  blocks_text [] = refl
  blocks_text (b ∷ bs) = λ i. block_text b i ∷ blocks_text bs i

  turns_text :
      (ts : List Turn)
      → map
          (λ (t : Turn). map (λ (b : ContentBlock). b.text) t.blocks)
          (map (project_turn engine patterns (group_masks masks [])) ts)
        ≡ map (λ (t : Turn). map (shown_text engine patterns masks) t.blocks) ts
  unfolding project_turn
  turns_text [] = refl
  turns_text (t ∷ ts) = λ i. blocks_text t.blocks i ∷ turns_text ts i

  blocks-HidesPayload : (bs : List ContentBlock) → All HidesPayload (map projected_block bs)
  unfolding project_block
  blocks-HidesPayload [] = tt
  blocks-HidesPayload (b ∷ bs) =
      (strip-hides (is_tool_payload b.kind) b.payload, blocks-HidesPayload bs)

  turns-HidesPayload :
      (ts : List Turn)
      → All
          (λ (t : Turn). All HidesPayload t.blocks)
          (map (project_turn engine patterns (group_masks masks [])) ts)
  unfolding project_turn
  turns-HidesPayload [] = tt
  turns-HidesPayload (t ∷ ts) = (blocks-HidesPayload t.blocks, turns-HidesPayload ts)

  -- The projection shows a session redacted: of each text what the masks on its block and the
  -- patterns leave, and of a tool's payload nothing.
  pub apply_redaction_projection-Redacted :
      (s : ArchivedSession)
      → Redacted engine patterns masks s
          (apply_redaction_projection engine s (record { patterns = patterns; masks = masks }))
  unfolding apply_redaction_projection
  apply_redaction_projection-Redacted s = record {
    title = refl;
    summary = map_text-map _ s.summary;
    path = refl;
    git_remote = map_text-map _ s.workspace.git_remote;
    texts = turns_text s.turns;
    payloads = turns-HidesPayload s.turns;
  }
