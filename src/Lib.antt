-- ===== src/Lib.antt =====
-- memoar's archive server, its core: what a tenant's archive holds, who may see it, and what leaves it.
--
-- The program keeps sessions that coding agents recorded, for many tenants. A request passes the
-- rate limit and the guard, which knows its caller and the scopes that its route asks for, and then reads or changes the archive through a store: sessions with
-- their annotations and collections, memory documents with their revisions, machines and their
-- commands, raw artifacts, settings with a distillation budget, and retention. Three ways lead out of
-- a tenant: a transfer, which copies a reviewed and redacted session to its recipient; a team, whose
-- members read and search what is visible to it; and a standing consent to share captures into a
-- team. The sharing service also lends a reviewed session by a link, and a search quotes what it
-- finds in packs of evidence. Failures are counted by their kind.
--
-- Which file models which part of the repository:
--   Ids             server/src/ids.ts: `uuidV7` with its two module variables, and `uuidV5`
--   Canonical       server/libs/canonical/src/generated.ts and server/src/store/context.ts
--   Canonical/Clean server/src/store/nul-bytes.ts
--   Redaction       server/src/redaction.ts
--   Store/Records   server/src/store/records.ts
--   Store/Tables    server/src/store/memory/tables.ts; Store/Keys has the facts on compound keys
--   Store/Sessions, TurnIdentity    server/src/store/memory/sessions.ts, store/turn-identity.ts
--   Store/Curation                  server/src/store/memory/curation.ts
--   Store/MemoryDocuments           server/src/store/memory/memory-documents.ts
--   Store/Sharing, TransferCopy     server/src/store/memory/sharing.ts, store/transfer-copy.ts and
--                                   store/review-digest.ts
--   Store/Teams, TeamVisibility     server/src/store/memory/sharing.ts, store/team-visibility.ts
--   Store/TeamOptins                server/src/store/memory/team-optins.ts
--   Store/Artifacts, Machines, Settings, Retention   server/src/store/memory/operations.ts
--   RateLimits      server/src/rate-limit.ts
--   ToolScopes      server/src/mcp/tool-scopes.ts
--   Auth            server/src/auth/auth.guard.ts and scopes.ts
--   Auth/Sessions   server/src/auth/session-cutoff.ts, token-liveness.ts, browser-sessions.ts and
--                   password-change.ts
--   Auth/Tokens     server/src/auth/tokens.ts: TokenService
--   Ingest/TeamStamp    server/src/ingest/team-stamp.ts
--   Ingest/Scanner      server/src/ingest/detection.ts: SecretScanner
--   Convert/BundleGuard server/src/convert/bundle-guard.ts
--   Convert/WorkspaceName  server/src/convert/workspace-name.ts
--   Services/Sharing  server/src/sharing/sharing.service.ts, over the stores
--   Search, Search/Lexical, Search/Packs  server/src/search/search.service.ts, team-search.ts and
--                   backends.ts
--   Search/Semantic  server/src/search/embeddings.ts: the provider over a database with vectors
--   Errors          server/src/errors/fingerprint.ts and error-aggregator.ts
-- A method in camel case is a function in snake case: `acceptTransferOffer` is
-- `accept_transfer_offer`. The fields of a store are the fields of `MemoryTables`; a method takes the
-- tables and returns them with its result. A `Map` is an association list in insertion order
-- (Prelude/JsMap), a string a list of code units (Prelude/Str), a thrown error a value of `Error`.
-- What a call draws from the clock or from the generator of identifiers is an argument.
--
-- All loops are structural recursion over lists or JSON values, so no fuel is needed; the digits of
-- a number in Search/Packs have the number and one as fuel, which is more than it has digits.
-- Numbers are natural numbers; the places where the source goes below 0 or wraps write that out.
--
-- The platform (hashes, dates, `localeCompare`, base64url, regular expressions, `JSON.stringify`,
-- environment variables) is a record of functions, `Host`, `Engine`, `World`, `Platform`, `Texts`,
-- `Patterns` or `Scores` (floating-point scores), that the definitions take as arguments.
--
-- Not modelled: the stores on PostgreSQL, which are SQL texts for a database; Redis; the facade that
-- delegates to the stores; controllers and modules, which are framework wiring; the
-- hashing of secrets, sign-in and its providers; the rest of ingest, parsers and the writers of
-- vendor formats; metrics; the agent, the web application and the packages.
-- `accept_transfer_offer` runs the two parts of an acceptance with nothing in between; what may come
-- between them is in Store/Sharing/Interleaving.
pub mod Prelude
pub mod Host
pub mod Ids
pub mod Canonical
pub mod Redaction
pub mod Store
pub mod RateLimits
pub mod ToolScopes
pub mod Auth
pub mod Ingest
pub mod Convert
pub mod Services
pub mod Search
pub mod Errors
pub mod Examples
pub mod Tests
