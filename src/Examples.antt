-- ===== src/Examples.antt =====
-- Data that the tests run on: two tenants, a session of the first that a team may see, a reviewed
-- offer of it to the second, and a platform of simple functions.
use memoar.Prelude.{◌≢◌, arith, ap, true, [], ◌∷◌, none, some, Ordering}
use memoar.Prelude.Tests.{if◌then◌else◌}
use memoar.Prelude.Lists.{length}
use memoar.Prelude.Str.{Str, codes, str_lt}
use memoar.Canonical.{ArchivedSession, browser, clear, Role, team, TenantContext, Turn, Visibility}
use memoar.Host.{Host}
use memoar.Redaction.{Engine}
use memoar.Store.Records.{
  active, CollectionRecord, completed, pending, RawArtifactRecord, parsed, RedactionReviewRecord,
}
use memoar.Store.Keys.{NoColon}
use memoar.Store.Sharing.{World}
use memoar.Store.Tables.{MemoryTables, TransferOffer}

abbrev order : Str → Str → Ordering
order a b = if str_lt a b then Ordering.lt else if str_lt b a then Ordering.gt else Ordering.eq

abbrev pub host : Host
host = record {
  sha1 = λ bytes. bytes;
  sha256 = λ text. text;
  utf8 = λ text. text;
  time_of = λ text. some (length text);
  to_iso = λ time. time ∷ [];
  to_base64url = λ text. text;
  from_base64url = λ text. text;
  locale_compare = order;
  trim = λ text. text;
  to_lower = λ text. text;
}

-- No pattern matches anything.
abbrev pub engine : Engine
engine = record {
  replace = λ expression replacement text. text;
  compiles = λ source. true;
  integer = λ value. none;
}

abbrev pub world : World
world = record {
  host = host;
  engine = engine;
  stringify = λ reviewed. reviewed.updated_at;
  fresh = λ n. b'n' ∷ n ∷ [];
  now = codes "9";
}

abbrev context_of : Str → Str → TenantContext
context_of tenant user = record {
  tenant_id = tenant;
  user_id = user;
  org_id = none;
  team_id = none;
  machine_id = none;
  scopes = [];
  auth_type = browser;
  credential_id = none;
}

abbrev pub ann : TenantContext
ann = context_of (codes "a") (codes "ann")

abbrev pub bob : TenantContext
bob = context_of (codes "bb") (codes "bob")

abbrev pub crew : Visibility
crew = record { scope = team; owner_id = codes "ann"; team_id = some (codes "t"); org_id = none }

abbrev pub turn : Turn
turn = record {
  id = codes "x";
  ordinal = 0;
  parent_id = none;
  role = Role.user;
  created_at = codes "1";
  model = none;
  tokens = none;
  blocks = [];
  ext = none;
}

abbrev pub session_named : Str → Str → ArchivedSession
session_named id updated_at = record {
  id = id;
  source = record {
    vendor = codes "v";
    tool = codes "cli";
    version = codes "1";
    machine_id = codes "m";
    native_session_id = none;
  };
  workspace = record { path = codes "/w"; git_remote = none; branch = none };
  created_at = codes "1";
  updated_at = updated_at;
  title = codes "T";
  summary = none;
  models = [];
  token_totals = record { input = 1; output = 1; cache_read = none; cache_write = none };
  provenance = [];
  visibility = crew;
  turns = turn ∷ [];
  ext = none;
  redaction_status = clear;
}

abbrev pub session : ArchivedSession
session = session_named (codes "s") (codes "2")

abbrev pub offer : TransferOffer
offer = record {
  id = codes "o";
  sender_tenant_id = codes "a";
  sender_user_id = codes "ann";
  session_id = codes "s";
  recipient_email = codes "bob@local.invalid";
  status = pending;
}

abbrev review : RedactionReviewRecord
review = record {
  id = codes "r";
  tenant_id = codes "a";
  session_id = codes "s";
  reviewer_user_id = codes "ann";
  status = completed;
  content_digest = codes "2";
  masks = [];
  completed_at = some (codes "3");
}

abbrev pub collection : CollectionRecord
collection = record {
  id = codes "c";
  tenant_id = codes "a";
  name = codes "C";
  description = none;
  team_id = none;
  session_ids = codes "s" ∷ [];
  updated_at = codes "1";
}

abbrev artifact : RawArtifactRecord
artifact = record {
  id = codes "f";
  tenant_id = codes "a";
  session_ids = codes "s" ∷ [];
  sha256 = codes "h";
  size = 3;
  object_key = codes "k";
  status = parsed;
  source = codes "cli";
  source_path = none;
  captured_at = codes "1";
  diagnostic = none;
}

abbrev pub tables : MemoryTables
tables = record {
  machines = [];
  retired_machines = [];
  machine_commands = [];
  sessions = (codes "a:s", session) ∷ [];
  session_identities = [];
  session_embeddings = [];
  annotations = [];
  collections = (codes "a:c", collection) ∷ [];
  reviews = (codes "a:r", review) ∷ [];
  grants = [];
  transfers = [];
  transfer_offers = (codes "o", offer) ∷ [];
  artifacts = (codes "a:f", artifact) ∷ [];
  jobs = [];
  distillation = [];
  tenant_settings = [];
  teams = [];
  team_members =
      (
        codes "t",
        record {
          user_id = codes "ann";
          tenant_id = codes "a";
          email = codes "ann@x";
          status = active;
        }
            ∷ [],
      )
      ∷ [];
  team_share_optins = [];
  memory_documents = [];
  memory_revisions = [];
  accounts_by_email = [];
}

pub ann-NoColon : NoColon ann.tenant_id
ann-NoColon = (omega arith, tt)

pub bob-NoColon : NoColon bob.tenant_id
bob-NoColon = (omega arith, (omega arith, tt))

pub ann_is_not_bob : ann.tenant_id ≢ bob.tenant_id
ann_is_not_bob = λ e. omega (arith, ap length e)
