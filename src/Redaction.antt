-- ===== src/Redaction.antt =====
-- server/src/redaction.ts: the secret patterns, the masks of a review, and the outbound projection.
-- The platform's regular expressions are arguments: how one replaces its matches in a text, and
-- whether a source compiles.
pub mod Projection
pub mod Masks
pub mod Leak
pub mod Tests
use memoar.Prelude.{
  ℕ, suc, ◌+◌, ◌-◌, Bool, true, false, not, ◌&&◌, ◌||◌, List, [], ◌∷◌, ◌++◌, map, Option, none,
  some, Ordering,
}
use memoar.Prelude.Tests.{if◌then◌else◌, leb, ltb, or_else}
use memoar.Prelude.Int.{ℤ, pos, negsuc}
use memoar.Prelude.Lists.{length, take, drop, sort_by}
use memoar.Prelude.Str.{Str, codes, truthy, ◌==◌}
use memoar.Prelude.JsMap.{JsMap, get, set}
use memoar.Canonical.{
  Annotation, ArchivedSession, ContentBlock, Fields, Json, str, Turn, end, field, is_mask,
  is_tool_payload, lookup_field, string_of,
}
use memoar.Store.Records.{RedactionSettingsRecord, default_tenant_settings}
use Prim.Native.Nat.{compare, min}

pub data SecretKind : Type 0 where
  api_key jwt env private_key email path custom : SecretKind

pub kind_text : SecretKind → Str
kind_text api_key = codes "api_key"
kind_text jwt = codes "jwt"
kind_text env = codes "env"
kind_text private_key = codes "private_key"
kind_text email = codes "email"
kind_text path = codes "path"
kind_text custom = codes "custom"

pub record RegExp : Type 0 where
  pub source : Str
  pub flags : Str

pub record SecretPattern : Type 0 where
  pub kind : SecretKind
  pub expression : RegExp

-- `text.replace(expression, replacement)`; whether `new RegExp(source, "g")` throws; and
-- `Number(value)`, if it is an integer.
pub record Engine : Type 0 where
  pub replace : RegExp → Str → Str → Str
  pub compiles : Str → Bool
  pub integer : Option Json → Option ℤ

pattern : SecretKind → Str → Str → SecretPattern
pattern kind source flags = record {
  kind = kind;
  expression = record { source = source; flags = flags };
}

unfoldable pub secret_patterns : List SecretPattern
unfolding pattern
secret_patterns =
    pattern api_key (codes "\\b(?:sk|ghp|github_pat|xoxb|memoar)[_-][A-Za-z0-9_-]{16,}\\b")
      (codes "gu")
    ∷ pattern jwt (codes "\\beyJ[A-Za-z0-9_-]+\\.[A-Za-z0-9_-]+\\.[A-Za-z0-9_-]+\\b") (codes "gu")
    ∷ pattern env (codes "^(?:[A-Z][A-Z0-9_]{2,})\\s*=\\s*[^\\s#]+$") (codes "gmu")
    ∷ pattern private_key
        (codes
          "-----BEGIN (?:RSA |EC |OPENSSH )?PRIVATE KEY-----[\\s\\S]{1,8000}?-----END (?:RSA |EC |OPENSSH )?PRIVATE KEY-----")
        (codes "gu")
    ∷ []

unfoldable pub email_pattern : SecretPattern
unfolding pattern
email_pattern =
    pattern email (codes "\\b[A-Za-z0-9._%+-]+@[A-Za-z0-9.-]+\\.[A-Za-z]{2,}\\b") (codes "gu")

unfoldable pub path_pattern : SecretPattern
unfolding pattern
path_pattern =
    pattern path
      (codes
        "(?:\\/(?:Users|home)\\/[^\\s\"'`,;:)\\]}]+|[A-Za-z]:\\\\Users\\\\[^\\s\"'`,;:)\\]}]+)")
      (codes "gu")

-- A source that does not compile masks nothing.
custom_of : Engine → List Str → List SecretPattern
unfolding pattern
custom_of engine [] = []
custom_of engine (source ∷ sources) =
    let rest = custom_of engine sources in
    if engine.compiles source then pattern custom source (codes "g") ∷ rest else rest

unfoldable pub redaction_patterns : Engine → RedactionSettingsRecord → List SecretPattern
unfolding secret_patterns email_pattern path_pattern custom_of
redaction_patterns engine settings =
    (if settings.secret_scan then secret_patterns else [])
    ++ ((if settings.email_scan then email_pattern ∷ [] else [])
        ++ ((if settings.path_scan then path_pattern ∷ [] else [])
            ++ custom_of engine settings.custom_patterns))

-- `[REDACTED ${kind}]`
pub marker : Str → Str
marker kind = codes "[REDACTED " ++ (kind ++ codes "]")

unfoldable pub mask_literals : Engine → Str → List SecretPattern → Str
unfolding marker kind_text
mask_literals engine text [] = text
mask_literals engine text (p ∷ patterns) =
    mask_literals engine (engine.replace p.expression (marker (kind_text p.kind)) text) patterns

pub mask_secret_literals : Engine → Str → Str
unfolding mask_literals secret_patterns
mask_secret_literals engine text = mask_literals engine text secret_patterns

pub record ReviewedMask : Type 0 where
  pub block_id : Str
  pub start : ℕ
  pub stop : ℕ
  pub kind : Str

-- `!Number.isInteger(start) || !Number.isInteger(end) || end <= start || start < 0` skips.
range_of : Option ℤ → Option ℤ → Option (ℕ × ℕ)
range_of (some (pos start)) (some (pos stop)) = if leb stop start then none else some (start, stop)
range_of _ _ = none

-- `annotation.blockId ?? (typeof annotation.value.blockId === "string" ? … : null)`
block_of : Annotation → Option Str
block_of a = elim a.block_id [
  | some id ↦ some id
  | none ↦ string_of (lookup_field (codes "blockId") a.value)
]

mask_of : Str → Fields → Option (ℕ × ℕ) → List ReviewedMask
mask_of block value none = []
mask_of block value (some (start, stop)) =
    record {
      block_id = block;
      start = start;
      stop = stop;
      kind = or_else (string_of (lookup_field (codes "kind") value)) (codes "manual");
    }
    ∷ []

masks_of : Engine → Annotation → List ReviewedMask
unfolding range_of block_of mask_of
masks_of engine a =
    let range =
      range_of (engine.integer (lookup_field (codes "start") a.value))
        (engine.integer (lookup_field (codes "end") a.value)) in
    if not (is_mask a.kind) then [] else elim (block_of a) [
      | none ↦ []
      | some block ↦ if truthy block then mask_of block a.value range else []
    ]

pub reviewed_masks : Engine → List Annotation → List ReviewedMask
unfolding masks_of
reviewed_masks engine [] = []
reviewed_masks engine (a ∷ rest) = masks_of engine a ++ reviewed_masks engine rest

-- One round of the loop of `applyMasks`.
pub apply_mask : Str → ReviewedMask → Str
unfolding marker
apply_mask masked mask =
    if leb (length masked) mask.start
    then masked
    else take mask.start masked ++ (marker mask.kind ++ drop (min mask.stop (length masked)) masked)

pub apply_in_order : Str → List ReviewedMask → Str
unfolding apply_mask
apply_in_order masked [] = masked
apply_in_order masked (mask ∷ masks) = apply_in_order (apply_mask masked mask) masks

-- Right to left.
pub by_start_descending : ReviewedMask → ReviewedMask → Ordering
by_start_descending left right = compare right.start left.start

unfoldable pub apply_masks : Str → List ReviewedMask → Str
unfolding apply_in_order by_start_descending
apply_masks text masks = apply_in_order text (sort_by by_start_descending masks)

pub record ProjectionOptions : Type 0 where
  pub patterns : List SecretPattern
  pub masks : List ReviewedMask

pub group_masks : List ReviewedMask → JsMap (List ReviewedMask) → JsMap (List ReviewedMask)
group_masks [] by_block = by_block
group_masks (mask ∷ masks) by_block =
    group_masks masks
      (set mask.block_id (or_else (get mask.block_id by_block) [] ++ mask ∷ []) by_block)

-- `{ memoarRedacted: "raw payload removed by redaction projection" }`
unfoldable pub stripped : Fields
stripped =
    field (codes "memoarRedacted") (str (codes "raw payload removed by redaction projection")) end

pub map_text : (Str → Str) → Option Str → Option Str
map_text f none = none
map_text f (some text) = some (f text)

pub strip : Bool → Option Fields → Option Fields
unfolding stripped
strip true (some payload) = some stripped
strip true none = none
strip false payload = payload

pub project_block :
    Engine → List SecretPattern → JsMap (List ReviewedMask) → ContentBlock → ContentBlock
unfolding map_text strip
project_block engine patterns by_block block = record block {
  text =
      map_text
        (λ text.
          mask_literals engine (apply_masks text (or_else (get block.id by_block) [])) patterns)
        block.text;
  payload = strip (is_tool_payload block.kind) block.payload;
}

pub project_turn : Engine → List SecretPattern → JsMap (List ReviewedMask) → Turn → Turn
unfolding project_block
project_turn engine patterns by_block turn = record turn {
  blocks = map (project_block engine patterns by_block) turn.blocks;
}

unfoldable pub apply_redaction_projection :
    Engine → ArchivedSession → ProjectionOptions → ArchivedSession
unfolding group_masks project_turn map_text
apply_redaction_projection engine session options =
    let mask = λ (text : Str). mask_literals engine text options.patterns in
    record session {
      title = mask session.title;
      summary = map_text mask session.summary;
      workspace = record session.workspace {
        path = mask session.workspace.path;
        git_remote = map_text mask session.workspace.git_remote;
      };
      turns =
          map (project_turn engine options.patterns (group_masks options.masks [])) session.turns;
    }
