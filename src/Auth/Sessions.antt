-- ===== src/Auth/Sessions.antt =====
-- server/src/auth/session-cutoff.ts, token-liveness.ts, browser-sessions.ts and password-change.ts:
-- which tokens still count, for a server without a database. Times are in milliseconds, and the
-- minting of a token too, which the token itself states as a fraction of seconds; its end is in
-- seconds.
pub mod Cutting
pub mod SigningOut
use Prim.Native.Nat.{◌/◌}
use memoar.Prelude.{ℕ, Bool, true, false, not, ◌&&◌, ◌||◌, List, [], ◌∷◌, Option, none, some}
use memoar.Prelude.Tests.{if◌then◌else◌, leb, nat_eq}
use memoar.Prelude.Lists.{find, length}
use memoar.Prelude.Str.{Str, codes, ◌==◌, contains, opt_eq, truthy?}
use memoar.Prelude.JsMap.{delete_where, has, JsMap, set, values}
use memoar.Canonical.{AuthType, browser, TenantContext}
use memoar.Auth.{is_mcp}

pub record TokenClaims : Type 0 where
  pub jti : Str
  pub sub : Str
  pub tenant_id : Str
  pub scopes : List Str
  pub type : AuthType
  pub exp : ℕ
  pub iat : Option ℕ
  pub machine_id : Option Str
  pub credential_id : Option Str

pub record SessionCutoff : Type 0 where
  pub not_before : Option ℕ
  pub kept_jti : Option Str

pub record DevAccount : Type 0 where
  pub id : Str
  pub tenant_id : Str
  pub email : Str
  pub password_hash : Str
  pub display_name : Str
  pub passwordless : Bool
  pub sessions_not_before : Option ℕ
  pub sessions_kept_jti : Option Str

unfoldable pub minted_after : ℕ → Option ℕ → Bool
minted_after not_before none = false
minted_after not_before (some iat) = leb not_before iat

pub survives_cutoff : TokenClaims → SessionCutoff → Bool
unfolding minted_after
survives_cutoff claims cutoff = elim cutoff.not_before [
  | none ↦ true
  | some not_before ↦ opt_eq cutoff.kept_jti (some claims.jti) || minted_after not_before claims.iat
]

pub dev_cutoff_of : DevAccount → SessionCutoff
dev_cutoff_of user = record {
  not_before = user.sessions_not_before;
  kept_jti = user.sessions_kept_jti;
}

pub cut_dev_sessions : ℕ → Option Str → DevAccount → DevAccount
cut_dev_sessions now kept_jti user = record user {
  sessions_not_before = some now;
  sessions_kept_jti = kept_jti;
}

-- `revokedInMemory`: the tokens that were signed out, each with its end.
pub forget_expired : ℕ → JsMap ℕ → JsMap ℕ
forget_expired now = delete_where (λ jti exp. leb exp (now / 1000))

pub revoke_session : ℕ → TokenClaims → JsMap ℕ → JsMap ℕ
unfolding forget_expired
revoke_session now claims revoked = forget_expired now (set claims.jti claims.exp revoked)

-- What is remembered after the question, and its answer.
pub is_revoked_session : ℕ → TokenClaims → JsMap ℕ → JsMap ℕ × Bool
unfolding forget_expired
is_revoked_session now claims revoked =
    let kept = forget_expired now revoked in (kept, has claims.jti kept)

-- What the liveness of a token asks of the keys, and whether development is enabled.
pub record Credentials : Type 0 where
  pub has_live_api_key : Str → Str → Bool
  pub api_key_credential_live : Str → Str → Str → Bool
  pub development : Bool

pub mcp_token_live : Credentials → TokenClaims → Bool
mcp_token_live credentials claims = elim claims.credential_id [
  | none ↦ credentials.development
  | some id ↦
      if truthy? (some id)
      then credentials.api_key_credential_live claims.tenant_id claims.sub id
      else credentials.development
]

pub minted_by_legacy_handshake : TokenClaims → Bool
minted_by_legacy_handshake claims =
    nat_eq (length claims.scopes) 1 && contains claims.scopes (codes "mcp:use")

pub is_account : Str → Str → DevAccount → Bool
is_account id tenant_id user = user.id == id && user.tenant_id == tenant_id

pub sign_in_identity_live : TokenClaims → JsMap DevAccount → Bool
unfolding is_account survives_cutoff dev_cutoff_of
sign_in_identity_live claims accounts =
    elim (find (is_account claims.sub claims.tenant_id) (values accounts)) [
      | none ↦ false
      | some user ↦ survives_cutoff claims (dev_cutoff_of user)
    ]

pub session_token_live : Credentials → ℕ → TokenClaims → JsMap ℕ → JsMap DevAccount → Bool
unfolding is_revoked_session mcp_token_live minted_by_legacy_handshake sign_in_identity_live is_mcp
session_token_live credentials now claims revoked accounts =
    if (is_revoked_session now claims revoked).1
    then false
    else if is_mcp claims.type
    then mcp_token_live credentials claims
    else if minted_by_legacy_handshake claims
    then credentials.has_live_api_key claims.tenant_id claims.sub
    else sign_in_identity_live claims accounts

pub data PasswordProblem : Type 0 where
  browser_session_required no_password wrong_password : PasswordProblem

-- `verifySecret` and `hashSecret`, whose salt is random
pub record Passwords : Type 0 where
  pub verify_secret : Str → Str → Bool
  pub hash_secret : Str → Str

is_browser : AuthType → Bool
is_browser browser = true
is_browser _ = false

-- Whether the caller's own token, if it is one, is a browser's.
pub is_browser_session : TenantContext → Option TokenClaims → Bool
unfolding is_browser
is_browser_session context none = false
is_browser_session context (some claims) =
    is_browser context.auth_type && (is_browser claims.type && claims.sub == context.user_id)

-- An assignment to the first account that passes the test.
pub update_first :
    (DevAccount → Bool) → (DevAccount → DevAccount) → JsMap DevAccount → JsMap DevAccount
update_first p f [] = []
update_first p f ((email, user) ∷ accounts) =
    let rest = update_first p f accounts in
    if p user then (email, f user) ∷ accounts else (email, user) ∷ rest

pub with_password : Passwords → ℕ → Str → Str → DevAccount → DevAccount
unfolding cut_dev_sessions
with_password passwords now jti new_password user =
    cut_dev_sessions now (some jti)
      (record user { password_hash = passwords.hash_secret new_password })

-- The refusal, if any; `claims` is the caller's token.
unfoldable pub change_account_password :
    Passwords
    → ℕ
    → TenantContext
    → TokenClaims
    → Str
    → Str
    → JsMap DevAccount
    → JsMap DevAccount × Option PasswordProblem
unfolding is_browser_session is_account update_first with_password
change_account_password passwords now context claims current_password new_password accounts =
    if not (is_browser_session context (some claims))
    then (accounts, some browser_session_required)
    else elim (find (is_account context.user_id context.tenant_id) (values accounts)) [
      | none ↦ (accounts, some no_password)
      | some user ↦
          if user.passwordless
          then (accounts, some no_password)
          else if not (passwords.verify_secret current_password user.password_hash)
          then (accounts, some wrong_password)
          else (
            update_first (is_account context.user_id context.tenant_id)
                (with_password passwords now claims.jti new_password) accounts,
            none,
          )
    ]
