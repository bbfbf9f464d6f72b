-- ===== src/Canonical/Clean.antt =====
-- server/src/store/nul-bytes.ts: the character U+0000 is replaced in every string of a value,
-- the keys of its objects included. The walk of the source goes over any value; here it is
-- written out over the fields of a session.
use memoar.Prelude.{[], ◌∷◌, map, Option}
use memoar.Prelude.Tests.{nat_eq, if◌then◌else◌}
use memoar.Prelude.Str.{Str}
use memoar.Canonical.{
  Json, null, bool, num, str, arr, obj, Items, nil, cons, Fields, end, field, set_field,
  SourceDescriptor, WorkspaceDescriptor, ProvenanceEntry, Visibility, ContentBlock, Turn,
  ArchivedSession,
}
use mathlib.Core.Option

-- `value.replaceAll(NUL, REPLACEMENT)`
unfoldable pub clean_str : Str → Str
clean_str [] = []
clean_str (c ∷ s) = (if nat_eq c 0 then 0xfffd else c) ∷ clean_str s

unfoldable mutual
  unfolding clean_str set_field

  pub clean : Json → Json
  clean null = null
  clean (bool b) = bool b
  clean (num n) = num n
  clean (str s) = str (clean_str s)
  clean (arr xs) = arr (clean_items xs)
  clean (obj fs) = obj (clean_into end fs)

  pub clean_items : Items → Items
  clean_items nil = nil
  clean_items (cons x xs) = cons (clean x) (clean_items xs)

  -- `out` is built up field by field.
  pub clean_into : Fields → Fields → Fields
  clean_into out end = out
  clean_into out (field k v fs) = clean_into (set_field (clean_str k) (clean v) out) fs

abbrev pub clean? : Option Str → Option Str
clean? = Option.map clean_str

abbrev pub clean_fields : Option Fields → Option Fields
clean_fields = Option.map (clean_into end)

unfoldable pub clean_source : SourceDescriptor → SourceDescriptor
clean_source s = record {
  vendor = clean_str s.vendor;
  tool = clean_str s.tool;
  version = clean_str s.version;
  machine_id = clean_str s.machine_id;
  native_session_id = clean? s.native_session_id;
}

unfoldable pub clean_workspace : WorkspaceDescriptor → WorkspaceDescriptor
clean_workspace w = record {
  path = clean_str w.path;
  git_remote = clean? w.git_remote;
  branch = clean? w.branch;
}

unfoldable pub clean_provenance : ProvenanceEntry → ProvenanceEntry
clean_provenance p = record p {
  source_id = clean? p.source_id;
  captured_at = clean_str p.captured_at;
  parser_version = clean? p.parser_version;
  details = clean_fields p.details;
}

unfoldable pub clean_visibility : Visibility → Visibility
clean_visibility v = record v {
  owner_id = clean_str v.owner_id;
  team_id = clean? v.team_id;
  org_id = clean? v.org_id;
}

unfoldable pub clean_block : ContentBlock → ContentBlock
clean_block b = record b {
  id = clean_str b.id;
  text = clean? b.text;
  name = clean? b.name;
  call_id = clean? b.call_id;
  language = clean? b.language;
  mime_type = clean? b.mime_type;
  artifact_ref = clean? b.artifact_ref;
  payload = clean_fields b.payload;
  ext = clean_fields b.ext;
}

unfoldable pub clean_turn : Turn → Turn
clean_turn t = record t {
  id = clean_str t.id;
  parent_id = clean? t.parent_id;
  created_at = clean_str t.created_at;
  model = clean? t.model;
  blocks = map clean_block t.blocks;
  ext = clean_fields t.ext;
}

-- `withoutNulBytes(session)`
unfoldable pub without_nul_bytes : ArchivedSession → ArchivedSession
unfolding clean_source clean_workspace clean_provenance clean_visibility clean_turn clean_block
without_nul_bytes s = record s {
  id = clean_str s.id;
  source = clean_source s.source;
  workspace = clean_workspace s.workspace;
  created_at = clean_str s.created_at;
  updated_at = clean_str s.updated_at;
  title = clean_str s.title;
  summary = clean? s.summary;
  models = map clean_str s.models;
  provenance = map clean_provenance s.provenance;
  visibility = clean_visibility s.visibility;
  turns = map clean_turn s.turns;
  ext = clean_fields s.ext;
}
