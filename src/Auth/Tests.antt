-- ===== src/Auth/Tests.antt =====
-- Runs of the guard, of grants, and of sessions that end.
use memoar.Prelude.Lists.{find}
use memoar.Prelude.JsMap.{IsMap}
use memoar.Prelude.Lists.{any}
use memoar.Prelude.Str.{contains}
use memoar.Prelude.Str.{includes}
use memoar.Prelude.{◌≡◌, refl, true, false, [], ◌∷◌, none, some, arith}
use memoar.Prelude.Str.{Str, codes, ◌==◌}
use memoar.Prelude.JsMap.{JsMap}
use memoar.Canonical.{browser, TenantContext}
use memoar.Auth.{admitted, can_activate, Guard, RequestLike}
use memoar.Auth.Admitting.{Admitted, can_activate-Admitted}
use memoar.Auth.Sessions.{
  change_account_password, Credentials, DevAccount, minted_after, Passwords, revoke_session,
  session_token_live, sign_in_identity_live, TokenClaims,
}
use memoar.Auth.Sessions.Cutting.{sign_in_identity_live-change_account_password}
use memoar.Auth.Sessions.SigningOut.{session_token_live-sign_outs, sign_outs}
use memoar.Examples.{ann}

abbrev reader : TenantContext
reader = record ann { scopes = codes "archive:read" ∷ [] }

abbrev guard : Guard
guard = record {
  to_upper = λ text. text;
  authenticate_api_key = λ secret. some reader;
  authenticate_bearer = λ token. none;
  development = false;
}

abbrev request : RequestLike
request = record {
  api_key = some (codes "k");
  authorization = none;
  tenant_header = none;
  user_header = none;
  method = some (codes "GET");
  url = some (codes "/v1/sessions?q=/mcp");
  route_path = none;
  body_machine_id = none;
}

passed : can_activate guard false none request ≡ admitted reader
unfolding can_activate contains ◌==◌ any includes
passed = refl

can_activate-Admitted_example : Admitted guard none request reader
can_activate-Admitted_example = can_activate-Admitted guard false none request reader passed

abbrev claims_of : Str → TokenClaims
claims_of jti = record {
  jti = jti;
  sub = codes "ann";
  tenant_id = codes "a";
  scopes = codes "archive:read" ∷ [];
  type = browser;
  exp = 60;
  iat = some 5;
  machine_id = none;
  credential_id = none;
}

abbrev accounts : JsMap DevAccount
accounts =
    (
      codes "ann@x",
      record {
        id = codes "ann";
        tenant_id = codes "a";
        email = codes "ann@x";
        password_hash = codes "old";
        display_name = codes "Ann";
        passwordless = false;
        sessions_not_before = none;
        sessions_kept_jti = none;
      },
    )
    ∷ []

abbrev passwords : Passwords
passwords = record {
  verify_secret = λ secret stored. secret == stored;
  hash_secret = λ secret. secret;
}

sign_in_identity_live-change_account_password_example :
    sign_in_identity_live
      (claims_of (codes "2"))
      (change_account_password passwords 9 ann
        (claims_of (codes "1"))
        (codes "old")
        (codes "new")
        accounts).0
    ≡ false
unfolding minted_after change_account_password ◌==◌ find
sign_in_identity_live-change_account_password_example =
    sign_in_identity_live-change_account_password passwords 9 ann (claims_of (codes "1"))
      (codes "old") (codes "new") accounts (claims_of (codes "2")) refl refl refl

abbrev credentials : Credentials
credentials = record {
  has_live_api_key = λ tenant user. true;
  api_key_credential_live = λ tenant user id. true;
  development = true;
}

session_token_live-sign_outs_example :
    session_token_live credentials 7000
      (claims_of (codes "1"))
      (sign_outs
        (record { now = 6000; claims = claims_of (codes "2") } ∷ [])
        (revoke_session 5000 (claims_of (codes "1")) []))
      accounts
    ≡ false
unfolding IsMap ◌==◌
session_token_live-sign_outs_example =
    session_token_live-sign_outs (claims_of (codes "1")) credentials accounts 5000 7000
      (record { now = 6000; claims = claims_of (codes "2") } ∷ []) [] tt (omega arith)
      ((omega arith, refl), tt) (omega arith)
