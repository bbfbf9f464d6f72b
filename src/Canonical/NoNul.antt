-- ===== src/Canonical/NoNul.antt =====
-- After the walk of nul-bytes.ts no string of a session holds U+0000.
use memoar.Prelude.{ℕ, ◌≢◌, inl, inr, List, [], ◌∷◌, map, Option, none, some, arith}
use memoar.Prelude.Tests.{Bool-cases}
use memoar.Prelude.Lists.{All}
use memoar.Prelude.Str.{Str, ◌==◌}
use memoar.Canonical.{
  Json, null, bool, num, str, arr, obj, Items, nil, cons, Fields, end, field, set_field,
  SourceDescriptor, WorkspaceDescriptor, ProvenanceEntry, Visibility, ContentBlock, Turn,
  ArchivedSession,
}
use memoar.Canonical.Clean.{
  clean_str, clean, clean_items, clean_into, clean?, clean_fields, clean_provenance, clean_block,
  clean_turn, without_nul_bytes,
}

-- No unit of the string is U+0000.
abbrev pub NoNul : Str → Type 0
NoNul = All (λ (c : ℕ). c ≢ 0)

abbrev NoNul? : Option Str → Type 0
NoNul? none = Unit
NoNul? (some s) = NoNul s

unfoldable mutual
  pub CleanJson : Json → Type 0
  CleanJson null = Unit
  CleanJson (bool b) = Unit
  CleanJson (num n) = Unit
  CleanJson (str s) = NoNul s
  CleanJson (arr xs) = CleanItems xs
  CleanJson (obj fs) = CleanFields fs

  pub CleanItems : Items → Type 0
  CleanItems nil = Unit
  CleanItems (cons x xs) = CleanJson x × CleanItems xs

  pub CleanFields : Fields → Type 0
  CleanFields end = Unit
  CleanFields (field k v fs) = NoNul k × CleanJson v × CleanFields fs

abbrev CleanFields? : Option Fields → Type 0
CleanFields? none = Unit
CleanFields? (some fs) = CleanFields fs

clean_str-NoNul : (s : Str) → NoNul (clean_str s)
unfolding clean_str
clean_str-NoNul [] = tt
clean_str-NoNul (c ∷ s) = (ground arith, clean_str-NoNul s)

clean?-NoNul : (o : Option Str) → NoNul? (clean? o)
clean?-NoNul none = tt
clean?-NoNul (some s) = clean_str-NoNul s

set_field-CleanFields :
    (k : Str) (v : Json) (fs : Fields)
    → NoNul k
    → CleanJson v
    → CleanFields fs
    → CleanFields (set_field k v fs)
unfolding set_field CleanFields
set_field-CleanFields k v end hk hv h = (hk, hv, tt)
set_field-CleanFields k v (field j w fs) hk hv h = elim (Bool-cases (j == k)) [
  | inl e ↦ rw e (hk, hv, h.2)
  | inr e ↦ rw e (h.0, h.1, set_field-CleanFields k v fs hk hv h.2)
]

mutual
  unfolding clean CleanJson

  clean-CleanJson : (j : Json) → CleanJson (clean j)
  clean-CleanJson null = tt
  clean-CleanJson (bool b) = tt
  clean-CleanJson (num n) = tt
  clean-CleanJson (str s) = clean_str-NoNul s
  clean-CleanJson (arr xs) = clean_items-CleanItems xs
  clean-CleanJson (obj fs) = clean_into-CleanFields end fs tt

  clean_items-CleanItems : (xs : Items) → CleanItems (clean_items xs)
  clean_items-CleanItems nil = tt
  clean_items-CleanItems (cons x xs) = (clean-CleanJson x, clean_items-CleanItems xs)

  clean_into-CleanFields : (out fs : Fields) → CleanFields out → CleanFields (clean_into out fs)
  clean_into-CleanFields out end h = h
  clean_into-CleanFields out (field k v fs) h =
      clean_into-CleanFields (set_field (clean_str k) (clean v) out) fs (
        set_field-CleanFields (clean_str k) (clean v) out (clean_str-NoNul k) (clean-CleanJson v) h)

clean_fields-CleanFields : (o : Option Fields) → CleanFields? (clean_fields o)
unfolding CleanFields
clean_fields-CleanFields none = tt
clean_fields-CleanFields (some fs) = clean_into-CleanFields end fs tt

pub record CleanSource (s : SourceDescriptor) : Type 0 where
  pub vendor : NoNul s.vendor
  pub tool : NoNul s.tool
  pub version : NoNul s.version
  pub machine_id : NoNul s.machine_id
  pub native_session_id : NoNul? s.native_session_id

pub record CleanWorkspace (w : WorkspaceDescriptor) : Type 0 where
  pub path : NoNul w.path
  pub git_remote : NoNul? w.git_remote
  pub branch : NoNul? w.branch

pub record CleanProvenance (p : ProvenanceEntry) : Type 0 where
  pub source_id : NoNul? p.source_id
  pub captured_at : NoNul p.captured_at
  pub parser_version : NoNul? p.parser_version
  pub details : CleanFields? p.details

pub record CleanVisibility (v : Visibility) : Type 0 where
  pub owner_id : NoNul v.owner_id
  pub team_id : NoNul? v.team_id
  pub org_id : NoNul? v.org_id

pub record CleanBlock (b : ContentBlock) : Type 0 where
  pub id : NoNul b.id
  pub text : NoNul? b.text
  pub name : NoNul? b.name
  pub call_id : NoNul? b.call_id
  pub language : NoNul? b.language
  pub mime_type : NoNul? b.mime_type
  pub artifact_ref : NoNul? b.artifact_ref
  pub payload : CleanFields? b.payload
  pub ext : CleanFields? b.ext

pub record CleanTurn (t : Turn) : Type 0 where
  pub id : NoNul t.id
  pub parent_id : NoNul? t.parent_id
  pub created_at : NoNul t.created_at
  pub model : NoNul? t.model
  pub blocks : All CleanBlock t.blocks
  pub ext : CleanFields? t.ext

-- Every string of the session is free of U+0000.
pub record CleanSession (s : ArchivedSession) : Type 0 where
  pub id : NoNul s.id
  pub source : CleanSource s.source
  pub workspace : CleanWorkspace s.workspace
  pub created_at : NoNul s.created_at
  pub updated_at : NoNul s.updated_at
  pub title : NoNul s.title
  pub summary : NoNul? s.summary
  pub models : All NoNul s.models
  pub provenance : All CleanProvenance s.provenance
  pub visibility : CleanVisibility s.visibility
  pub turns : All CleanTurn s.turns
  pub ext : CleanFields? s.ext

clean_block-CleanBlock : (b : ContentBlock) → CleanBlock (clean_block b)
unfolding clean_block
clean_block-CleanBlock b = record {
  id = clean_str-NoNul b.id;
  text = clean?-NoNul b.text;
  name = clean?-NoNul b.name;
  call_id = clean?-NoNul b.call_id;
  language = clean?-NoNul b.language;
  mime_type = clean?-NoNul b.mime_type;
  artifact_ref = clean?-NoNul b.artifact_ref;
  payload = clean_fields-CleanFields b.payload;
  ext = clean_fields-CleanFields b.ext;
}

-- A property of every image holds of the mapped list.
All-map_self :
    {A : Type 0} (P : A → Type 0) (f : A → A) (xs : List A) → ((x : A) → P (f x)) → All P (map f xs)
All-map_self P f [] h = tt
All-map_self P f (x ∷ xs) h = (h x, All-map_self P f xs h)

clean_turn-CleanTurn : (t : Turn) → CleanTurn (clean_turn t)
unfolding clean_turn
clean_turn-CleanTurn t = record {
  id = clean_str-NoNul t.id;
  parent_id = clean?-NoNul t.parent_id;
  created_at = clean_str-NoNul t.created_at;
  model = clean?-NoNul t.model;
  blocks = All-map_self CleanBlock clean_block t.blocks clean_block-CleanBlock;
  ext = clean_fields-CleanFields t.ext;
}

clean_provenance-CleanProvenance : (p : ProvenanceEntry) → CleanProvenance (clean_provenance p)
unfolding clean_provenance
clean_provenance-CleanProvenance p = record {
  source_id = clean?-NoNul p.source_id;
  captured_at = clean_str-NoNul p.captured_at;
  parser_version = clean?-NoNul p.parser_version;
  details = clean_fields-CleanFields p.details;
}

-- Whatever session is given, no string of the cleaned one holds U+0000: not in its texts, its
-- identifiers, its metadata, nor in a key or value of its JSON payloads.
pub without_nul_bytes-CleanSession : (s : ArchivedSession) → CleanSession (without_nul_bytes s)
unfolding without_nul_bytes
without_nul_bytes-CleanSession s = record {
  id = clean_str-NoNul s.id;
  source = record {
    vendor = clean_str-NoNul s.source.vendor;
    tool = clean_str-NoNul s.source.tool;
    version = clean_str-NoNul s.source.version;
    machine_id = clean_str-NoNul s.source.machine_id;
    native_session_id = clean?-NoNul s.source.native_session_id;
  };
  workspace = record {
    path = clean_str-NoNul s.workspace.path;
    git_remote = clean?-NoNul s.workspace.git_remote;
    branch = clean?-NoNul s.workspace.branch;
  };
  created_at = clean_str-NoNul s.created_at;
  updated_at = clean_str-NoNul s.updated_at;
  title = clean_str-NoNul s.title;
  summary = clean?-NoNul s.summary;
  models = All-map_self NoNul clean_str s.models clean_str-NoNul;
  provenance =
      All-map_self CleanProvenance clean_provenance s.provenance clean_provenance-CleanProvenance;
  visibility = record {
    owner_id = clean_str-NoNul s.visibility.owner_id;
    team_id = clean?-NoNul s.visibility.team_id;
    org_id = clean?-NoNul s.visibility.org_id;
  };
  turns = All-map_self CleanTurn clean_turn s.turns clean_turn-CleanTurn;
  ext = clean_fields-CleanFields s.ext;
}
