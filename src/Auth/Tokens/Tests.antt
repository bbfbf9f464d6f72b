-- ===== src/Auth/Tokens/Tests.antt =====
-- A state and a token of a server whose base64url shifts each character past the dot.
use memoar.Prelude.{◌+◌, ◌-◌, ◌≡◌, refl, ap, ◌∙◌, arith, true, ◌&&◌, [], ◌∷◌, ◌++◌, none, some}
use memoar.Prelude.Tests.{if◌then◌else◌, ltb}
use memoar.Prelude.Str.{Str, codes, ◌==◌, truthy}
use memoar.Host.{Host}
use memoar.Canonical.{browser}
use memoar.Examples.{host}
use memoar.Auth.Sessions.{TokenClaims}
use memoar.Auth.Tokens.{
  Crypto, issue, issue_oauth_state, issued_claims, issued_state, OauthState, same_bytes, verify,
  verify_oauth_state,
}
use memoar.Auth.Tokens.Verifying.{
  HasNoDot, IsCodec, verify-issue, verify_oauth_state-issue_oauth_state,
}

abbrev shifted : Str → Str
shifted [] = []
shifted (c ∷ s) = (c + 47) ∷ shifted s

abbrev unshifted : Str → Str
unshifted [] = []
unshifted (c ∷ s) = (c - 47) ∷ unshifted s

abbrev shifting : Host
shifting = record host { to_base64url = shifted; from_base64url = unshifted }

abbrev begun : OauthState
begun = record { provider = some (codes "github"); nonce = codes "n"; exp = some 609 }

abbrev minted : TokenClaims
minted = record {
  jti = codes "j";
  sub = codes "ann";
  tenant_id = codes "a";
  scopes = [];
  type = browser;
  exp = 69;
  iat = some 9000;
  machine_id = none;
  credential_id = none;
}

abbrev crypto : Crypto
crypto = record {
  hmac = λ key text. b'h' ∷ (key ++ text);
  bytes_to_base64url = shifted;
  bytes_from_base64url = unshifted;
  sha256_base64url = λ text. text;
  state_text = λ state. codes "{}";
  parse_state = λ text. some begun;
  claims_text = λ claims. codes "{}";
  parse_claims = λ text. some minted;
}

shifted-HasNoDot : (s : Str) → HasNoDot (shifted s)
shifted-HasNoDot [] = tt
shifted-HasNoDot (c ∷ s) = (ground arith, shifted-HasNoDot s)

unshifted-shifted : (s : Str) → unshifted (shifted s) ≡ s
unshifted-shifted [] = refl
unshifted-shifted (c ∷ s) =
    let back : (c + 47) - 47 ≡ c = omega arith in
    ap (◌∷ unshifted (shifted s)) back ∙ ap (c ∷◌) (unshifted-shifted s)

truthy-shifted : (s : Str) → truthy (shifted s) ≡ truthy s
truthy-shifted [] = refl
truthy-shifted (c ∷ s) = refl

codec : IsCodec shifting crypto
codec = record {
  text_no_dot = shifted-HasNoDot;
  text_some = truthy-shifted;
  state_text_back = λ state. unshifted-shifted (codes "{}");
  claims_text_back = λ claims. unshifted-shifted (codes "{}");
  bytes_no_dot = shifted-HasNoDot;
  bytes_some = truthy-shifted;
  bytes_back = unshifted-shifted;
  digest_some = λ key text. refl;
  state_some = λ state. refl;
  claims_some = λ claims. refl;
}

verify_oauth_state-issue_oauth_state_example :
    verify_oauth_state shifting crypto
      (codes "k")
      10000
      (issue_oauth_state shifting crypto (codes "k") 9000 (codes "n") (codes "github")).0
      (codes "github")
      (some (codes "n"))
    ≡ (true
        && (codes "github" == codes "github" && (ltb 10 609 && same_bytes (codes "n") (codes "n"))))
unfolding issued_state
verify_oauth_state-issue_oauth_state_example =
    verify_oauth_state-issue_oauth_state shifting crypto (codes "k") codec 9000 10000 (codes "n")
      (codes "github") (codes "github") (codes "n") refl

verify-issue_example :
    verify shifting crypto
      (codes "k")
      10000
      (issue shifting crypto (codes "k") 9000 (codes "j") minted 60).0
    ≡ (if ltb 10 69 then some minted else none)
unfolding issued_claims
verify-issue_example =
    verify-issue shifting crypto (codes "k") codec 9000 10000 (codes "j") minted 60 refl
