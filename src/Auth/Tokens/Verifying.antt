-- ===== src/Auth/Tokens/Verifying.antt =====
-- What the server makes of the tokens and states that it signed.
use Prim.Native.Nat.{◌/◌}
use mathlib.Core.List.{append_assoc, append-nil}
use memoar.Prelude.{
  ℕ, ◌+◌, ◌≡◌, refl, sym, ap, ◌∙◌, inl, inr, arith, true, false, not, ◌&&◌, List, [], ◌∷◌, ◌++◌,
  none, some,
}
use memoar.Prelude.Tests.{if◌then◌else◌, Bool-cases, ltb, nat_eq}
use memoar.Prelude.Lists.{All}
use memoar.Prelude.Str.{Str, codes, ◌==◌, eq_refl, truthy}
use memoar.Host.{Host}
use memoar.Auth.Sessions.{TokenClaims}
use memoar.Auth.Tokens.{
  accepts_state, Crypto, is_ended, is_signed, issue, issue_oauth_state, issued_claims, issued_state,
  OauthState, read_claims, same_bytes, signature_of, split_dots, verify, verify_oauth_state,
  verify_parts, verify_state_parts,
}

abbrev pub HasNoDot : Str → Type 0
HasNoDot text = All (λ (c : ℕ). nat_eq c b'.' ≡ false) text

split_dots-part :
    (seen text rest : Str)
    → HasNoDot text
    → split_dots seen (text ++ (codes "." ++ rest)) ≡ (seen ++ text) ∷ split_dots [] rest
unfolding split_dots
split_dots-part seen [] rest h = ap (◌∷ split_dots [] rest) (sym (append-nil seen))
split_dots-part seen (c ∷ text) rest h = rw h.0 (
    split_dots-part (seen ++ (c ∷ [])) text rest h.1
    ∙ ap (◌∷ split_dots [] rest) (append_assoc seen (c ∷ []) text))

split_dots-last : (seen text : Str) → HasNoDot text → split_dots seen text ≡ (seen ++ text) ∷ []
unfolding split_dots
split_dots-last seen [] h = ap (◌∷ []) (sym (append-nil seen))
split_dots-last seen (c ∷ text) h =
    rw h.0
      (split_dots-last (seen ++ (c ∷ [])) text h.1 ∙ ap (◌∷ []) (append_assoc seen (c ∷ []) text))

same_bytes_refl : (a : List ℕ) → same_bytes a a ≡ true
unfolding same_bytes
same_bytes_refl a = rw (eq_refl a) (ground arith)

-- What the signing relies on: base64url has no dot, is empty for the empty text alone and reads
-- bytes and JSON back; digests and JSON are not empty.
pub record IsCodec (host : Host) (crypto : Crypto) : Type 0 where
  pub text_no_dot : (s : Str) → HasNoDot (host.to_base64url s)
  pub text_some : (s : Str) → truthy (host.to_base64url s) ≡ truthy s
  pub state_text_back :
      (s : OauthState)
      → host.from_base64url (host.to_base64url (crypto.state_text s)) ≡ crypto.state_text s
  pub claims_text_back :
      (c : TokenClaims)
      → host.from_base64url (host.to_base64url (crypto.claims_text c)) ≡ crypto.claims_text c
  pub bytes_no_dot : (b : List ℕ) → HasNoDot (crypto.bytes_to_base64url b)
  pub bytes_some : (b : List ℕ) → truthy (crypto.bytes_to_base64url b) ≡ truthy b
  pub bytes_back : (b : List ℕ) → crypto.bytes_from_base64url (crypto.bytes_to_base64url b) ≡ b
  pub digest_some : (key text : Str) → truthy (crypto.hmac key text) ≡ true
  pub state_some : (s : OauthState) → truthy (crypto.state_text s) ≡ true
  pub claims_some : (c : TokenClaims) → truthy (crypto.claims_text c) ≡ true

module _ (host : Host) (crypto : Crypto) (key : Str) (codec : IsCodec host crypto) where
  signed_by_itself :
      (text : Str) → is_signed host crypto key text (signature_of host crypto key text) ≡ true
  unfolding is_signed signature_of
  signed_by_itself text =
      rw (codec.bytes_back (crypto.hmac key text)) (same_bytes_refl (crypto.hmac key text))

  signature_some : (text : Str) → truthy (signature_of host crypto key text) ≡ true
  unfolding signature_of
  signature_some text = codec.bytes_some (crypto.hmac key text) ∙ codec.digest_some key text

  signature_no_dot : (text : Str) → HasNoDot (signature_of host crypto key text)
  unfolding signature_of
  signature_no_dot text = codec.bytes_no_dot (crypto.hmac key text)

  -- Signed text of two parts, and of three, falls apart at its dots.
  split_dots-signed :
      (a : Str)
      → HasNoDot a
      → split_dots [] (a ++ (codes "." ++ signature_of host crypto key a))
        ≡ a ∷ (signature_of host crypto key a ∷ [])
  split_dots-signed a h =
      split_dots-part [] a (signature_of host crypto key a) h
      ∙ ap (a ∷◌) (split_dots-last [] (signature_of host crypto key a) (signature_no_dot a))

  split_dots-token :
      (a b : Str)
      → HasNoDot a
      → HasNoDot b
      → split_dots [] (
          (a ++ (codes "." ++ b))
          ++ (codes "." ++ signature_of host crypto key (a ++ (codes "." ++ b))))
        ≡ a ∷ (b ∷ (signature_of host crypto key (a ++ (codes "." ++ b)) ∷ []))
  split_dots-token a b ha hb =
      let s = signature_of host crypto key (a ++ (codes "." ++ b)) in
      ap (split_dots []) (append_assoc a (codes "." ++ b) (codes "." ++ s))
      ∙ (split_dots-part [] a (b ++ (codes "." ++ s)) ha
          ∙ ap (a ∷◌) (
              split_dots-part [] b s hb
              ∙ ap (b ∷◌) (split_dots-last [] s (signature_no_dot (a ++ (codes "." ++ b))))))

  read_claims-payload :
      (now : ℕ) (c : TokenClaims)
      → crypto.parse_claims (crypto.claims_text c) ≡ some c
      → read_claims host crypto key now (host.to_base64url (crypto.claims_text c))
        ≡ (if ltb (now / 1000) c.exp then some c else none)
  unfolding read_claims
  read_claims-payload now c back = rw (read_claims, codec.claims_text_back c, back) refl

  -- A token comes back as the claims that it was issued for, with its own identifier, its minting
  -- and its end, until that end; from then on it is refused.
  pub verify-issue :
      (now later : ℕ) (jti : Str) (claims : TokenClaims) (ttl_seconds : ℕ)
      → (crypto.parse_claims
            (crypto.claims_text (issued_claims host crypto key now jti claims ttl_seconds))
          ≡ some (issued_claims host crypto key now jti claims ttl_seconds))
      → verify host crypto key later (issue host crypto key now jti claims ttl_seconds).0 ≡ (
          if ltb (later / 1000) (now / 1000 + ttl_seconds)
          then some (issued_claims host crypto key now jti claims ttl_seconds)
          else none)
  unfolding verify issue verify_parts
  verify-issue now later jti claims ttl_seconds back =
      let c = issued_claims host crypto key now jti claims ttl_seconds in
      let header = host.to_base64url (codes "{\"alg\":\"HS256\",\"typ\":\"JWT\"}") in
      let payload = host.to_base64url (crypto.claims_text c) in
      let text = header ++ (codes "." ++ payload) in
      ap (verify_parts host crypto key later)
        (split_dots-token header payload (codec.text_no_dot _) (codec.text_no_dot _))
      ∙ rw
          (
            codec.text_some (codes "{\"alg\":\"HS256\",\"typ\":\"JWT\"}"),
            codec.text_some (crypto.claims_text c) ∙ codec.claims_some c,
            signature_some text,
            signed_by_itself text,
          )
          (unfold issued_claims in read_claims-payload later c back)

  ended_or_not :
      (later exp : ℕ) → is_ended host crypto key later (some exp) ≡ not (ltb (later / 1000) exp)
  unfolding is_ended
  ended_or_not later exp = ground arith

  accepts_state-payload :
      (now later : ℕ) (nonce provider asked presented : Str)
      → (crypto.parse_state (crypto.state_text (issued_state host crypto key now nonce provider))
          ≡ some (issued_state host crypto key now nonce provider))
      → accepts_state host crypto key later asked presented
          (host.to_base64url (crypto.state_text (issued_state host crypto key now nonce provider)))
        ≡ (provider == asked
            && (ltb (later / 1000) (now / 1000 + 600)
                && same_bytes
                    (host.utf8 (crypto.sha256_base64url nonce))
                    (host.utf8 (crypto.sha256_base64url presented))))
  unfolding accepts_state
  accepts_state-payload now later nonce provider asked presented back =
      let s = issued_state host crypto key now nonce provider in
      rw (accepts_state, codec.state_text_back s, back)
        (unfold issued_state in
          elim (Bool-cases (provider == asked)) [
            | inr other ↦ rw other refl
            | inl same ↦ elim (Bool-cases (ltb (later / 1000) (now / 1000 + 600))) [
              | inl live ↦ rw (same, ended_or_not later (now / 1000 + 600), live) refl
              | inr over ↦ rw (same, ended_or_not later (now / 1000 + 600), over) refl
            ]
          ])

  -- A state that the server issued is accepted exactly for the provider it was issued for, in the
  -- ten minutes after, and with a nonce whose digest is that of the nonce issued with it.
  pub verify_oauth_state-issue_oauth_state :
      (now later : ℕ) (nonce provider asked presented : Str)
      → (crypto.parse_state (crypto.state_text (issued_state host crypto key now nonce provider))
          ≡ some (issued_state host crypto key now nonce provider))
      → verify_oauth_state host crypto key later
          (issue_oauth_state host crypto key now nonce provider).0
          asked
          (some presented)
        ≡ (truthy presented
            && (provider == asked
                && (ltb (later / 1000) (now / 1000 + 600)
                    && same_bytes
                        (host.utf8 (crypto.sha256_base64url nonce))
                        (host.utf8 (crypto.sha256_base64url presented)))))
  unfolding verify_oauth_state issue_oauth_state verify_state_parts
  verify_oauth_state-issue_oauth_state now later nonce provider asked presented back =
      let s = issued_state host crypto key now nonce provider in
      let payload = host.to_base64url (crypto.state_text s) in
      ap (truthy presented &&◌) (
        ap (verify_state_parts host crypto key later asked presented)
          (split_dots-signed payload (codec.text_no_dot (crypto.state_text s)))
        ∙ rw
            (
              codec.text_some (crypto.state_text s) ∙ codec.state_some s,
              signature_some payload,
              signed_by_itself payload,
            )
            (accepts_state-payload now later nonce provider asked presented back))
