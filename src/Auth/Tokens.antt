-- ===== src/Auth/Tokens.antt =====
-- server/src/auth/tokens.ts: the tokens and states that the server signs. A time is in milliseconds,
-- also the minting of a token, which the token states as a fraction of seconds; ends are in seconds.
pub mod Tests
pub mod Verifying
use Prim.Native.Nat.{◌*◌, ◌/◌}
use memoar.Prelude.{
  ℕ, ◌+◌, ◌≡◌, refl, sym, ap, ◌∙◌, inl, inr, arith, Bool, true, false, not, ◌&&◌, List, [], ◌∷◌,
  ◌++◌, Option, none, some,
}
use memoar.Prelude.Tests.{if◌then◌else◌, Bool-cases, leb, ltb, nat_eq}
use memoar.Prelude.Lists.{All, length}
use memoar.Prelude.Str.{Str, codes, ◌==◌, eq_refl, opt_eq, truthy, truthy?}
use memoar.Host.{Host}
use memoar.Auth.Sessions.{TokenClaims}

-- What the payload of a state is read as: a provider, the nonce as text, and an end, a fraction
-- rounded up, unless it states no number.
pub record OauthState : Type 0 where
  pub provider : Option Str
  pub nonce : Str
  pub exp : Option ℕ

pub record Crypto : Type 0 where
  -- `createHmac("sha256", key).update(text).digest()`
  pub hmac : Str → Str → List ℕ
  -- Bytes in base64url, and what `Buffer.from(text, "base64url")` reads.
  pub bytes_to_base64url : List ℕ → Str
  pub bytes_from_base64url : Str → List ℕ
  -- `createHash("sha256").update(text).digest("base64url")`
  pub sha256_base64url : Str → Str
  -- `JSON.stringify` and `JSON.parse`, of the payloads of states and of tokens; what cannot be parsed
  -- and the property of what is no object are the same here, since either ends in the same answer.
  pub state_text : OauthState → Str
  pub parse_state : Str → Option OauthState
  pub claims_text : TokenClaims → Str
  pub parse_claims : Str → Option TokenClaims

-- `text.split(".")`, with what is read of the first part.
pub split_dots : Str → Str → List Str
split_dots seen [] = seen ∷ []
split_dots seen (c ∷ text) =
    let next = split_dots [] text in
    let same = split_dots (seen ++ (c ∷ [])) text in if nat_eq c b'.' then seen ∷ next else same

-- The length is compared first: `timingSafeEqual` refuses bytes of another length.
pub same_bytes : List ℕ → List ℕ → Bool
same_bytes a b = nat_eq (length a) (length b) && a == b

-- The key that the constructor settles on, unless it refuses to start.
pub signing_key : Option Str → Bool → Option Str
signing_key configured is_development =
    if not (truthy? configured) && not is_development then none else elim configured [
      | none ↦ some (codes "memoar-dev-token-secret-do-not-use-in-production")
      | some key ↦ some key
    ]

module _ (host : Host) (crypto : Crypto) (key : Str) where
  pub signature_of : Str → Str
  signature_of text = crypto.bytes_to_base64url (crypto.hmac key text)

  pub is_signed : Str → Str → Bool
  unfolding same_bytes
  is_signed text signature =
      same_bytes (crypto.hmac key text) (crypto.bytes_from_base64url signature)

  pub issued_claims : ℕ → Str → TokenClaims → ℕ → TokenClaims
  issued_claims now jti claims ttl_seconds = record claims {
    jti = jti;
    iat = some now;
    exp = now / 1000 + ttl_seconds;
  }

  pub issue : ℕ → Str → TokenClaims → ℕ → Str × Str
  unfolding issued_claims signature_of
  issue now jti claims ttl_seconds =
      let payload = issued_claims now jti claims ttl_seconds in
      let encoded =
        host.to_base64url (codes "{\"alg\":\"HS256\",\"typ\":\"JWT\"}")
        ++ (codes "." ++ host.to_base64url (crypto.claims_text payload)) in
      (encoded ++ (codes "." ++ signature_of encoded), host.to_iso (payload.exp * 1000))

  -- The claims of a payload that is signed.
  pub read_claims : ℕ → Str → Option TokenClaims
  read_claims now payload = elim (crypto.parse_claims (host.from_base64url payload)) [
    | none ↦ none
    | some claims ↦ if ltb (now / 1000) claims.exp then some claims else none
  ]

  pub verify_parts : ℕ → List Str → Option TokenClaims
  unfolding is_signed read_claims
  verify_parts now (header ∷ (payload ∷ (signature ∷ []))) =
      if truthy header
        && (truthy payload
            && (truthy signature && is_signed (header ++ (codes "." ++ payload)) signature))
      then read_claims now payload
      else none
  verify_parts now _ = none

  pub verify : ℕ → Str → Option TokenClaims
  unfolding verify_parts split_dots
  verify now token = verify_parts now (split_dots [] token)

  pub issued_state : ℕ → Str → Str → OauthState
  issued_state now nonce provider = record {
    provider = some provider;
    nonce = crypto.sha256_base64url nonce;
    exp = some (now / 1000 + 600);
  }

  -- The nonce is random; the state and the nonce.
  pub issue_oauth_state : ℕ → Str → Str → Str × Str
  unfolding signature_of issued_state
  issue_oauth_state now nonce provider =
      let payload = host.to_base64url (crypto.state_text (issued_state now nonce provider)) in
      (payload ++ (codes "." ++ signature_of payload), nonce)

  pub is_ended : ℕ → Option ℕ → Bool
  is_ended now none = true
  is_ended now (some exp) = leb exp (now / 1000)

  pub accepts_state : ℕ → Str → Str → Str → Bool
  unfolding is_ended same_bytes
  accepts_state now provider nonce payload =
      elim (crypto.parse_state (host.from_base64url payload)) [
        | none ↦ false
        | some decoded ↦
            if not (opt_eq decoded.provider (some provider))
            then false
            else if is_ended now decoded.exp
            then false
            else same_bytes (host.utf8 decoded.nonce) (host.utf8 (crypto.sha256_base64url nonce))
      ]

  pub verify_state_parts : ℕ → Str → Str → List Str → Bool
  unfolding is_signed accepts_state
  verify_state_parts now provider nonce (payload ∷ (signature ∷ rest)) =
      truthy payload
      && (truthy signature
          && (is_signed payload signature && accepts_state now provider nonce payload))
  verify_state_parts now provider nonce _ = false

  pub verify_oauth_state : ℕ → Str → Str → Option Str → Bool
  unfolding verify_state_parts split_dots
  verify_oauth_state now state provider none = false
  verify_oauth_state now state provider (some nonce) =
      truthy nonce && verify_state_parts now provider nonce (split_dots [] state)
