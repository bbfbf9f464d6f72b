-- ===== src/Auth/Sessions/SigningOut.antt =====
-- A token that was signed out stays out until its own end.
use Prim.Native.Nat.{◌/◌}
use memoar.Prelude.{◌≡◌, ◌<◌, ℕ, refl, ap, ◌∙◌, inl, inr, arith, true, false, List, [], ◌∷◌, some}
use memoar.Prelude.Tests.{if◌then◌else◌, Bool-cases, is_some, leb, leb→le}
use memoar.Prelude.Lists.{All}
use memoar.Prelude.Str.{◌==◌}
use memoar.Prelude.JsMap.{
  get, get-delete_where, get-set, get-set_self, has, has-get, IsMap, IsMap-delete_where, IsMap-set,
  JsMap, set, spared,
}
use memoar.Auth.Sessions.{
  Credentials, DevAccount, forget_expired, is_revoked_session, revoke_session, session_token_live,
  TokenClaims,
}

-- The signing out of some token at some time.
pub record SignOut : Type 0 where
  pub now : ℕ
  pub claims : TokenClaims

unfoldable pub sign_outs : List SignOut → JsMap ℕ → JsMap ℕ
unfolding revoke_session
sign_outs [] revoked = revoked
sign_outs (s ∷ rest) revoked = sign_outs rest (revoke_session s.now s.claims revoked)

not_over : (exp now : ℕ) → now / 1000 < exp → leb exp (now / 1000) ≡ false
not_over exp now h = elim (Bool-cases (leb exp (now / 1000))) [
  | inl t ↦ absurd (omega (arith, leb→le exp (now / 1000) t, h))
  | inr f ↦ f
]

module _ (claims : TokenClaims) where
  -- The token is on the list.
  abbrev IsOut : JsMap ℕ → Type 0
  IsOut revoked = IsMap revoked × (get claims.jti revoked ≡ some claims.exp)

  IsOut-forget_expired :
      (now : ℕ) (revoked : JsMap ℕ)
      → now / 1000 < claims.exp
      → IsOut revoked
      → IsOut (forget_expired now revoked)
  unfolding forget_expired
  IsOut-forget_expired now revoked early h = (
    IsMap-delete_where (λ jti exp. leb exp (now / 1000)) revoked h.0,
    get-delete_where (λ jti exp. leb exp (now / 1000)) claims.jti revoked h.0
        ∙ (ap (spared (λ (exp : ℕ). leb exp (now / 1000))) h.1
            ∙ rw (not_over claims.exp now early) refl),
  )

  -- A token that has this one's name ends with it, and is signed out before that end.
  abbrev pub Meanwhile : SignOut → Type 0
  Meanwhile s =
      (s.now / 1000 < claims.exp)
      × ((if s.claims.jti == claims.jti then s.claims.exp else claims.exp) ≡ claims.exp)

  IsOut-revoke_session :
      (s : SignOut) (revoked : JsMap ℕ)
      → Meanwhile s
      → IsOut revoked
      → IsOut (revoke_session s.now s.claims revoked)
  unfolding revoke_session
  IsOut-revoke_session s revoked m h =
      IsOut-forget_expired s.now (set s.claims.jti s.claims.exp revoked) m.0 (
        IsMap-set s.claims.jti s.claims.exp revoked h.0,
        get-set s.claims.jti claims.jti s.claims.exp revoked
            ∙ elim (Bool-cases (s.claims.jti == claims.jti)) [
              | inl e ↦ rw e (ap some (rw e at (m.1)))
              | inr e ↦ rw e (h.1)
            ],
      )

  IsOut-sign_outs :
      (later : List SignOut) (revoked : JsMap ℕ)
      → All Meanwhile later
      → IsOut revoked
      → IsOut (sign_outs later revoked)
  unfolding sign_outs
  IsOut-sign_outs [] revoked m h = h
  IsOut-sign_outs (s ∷ later) revoked m h =
      IsOut-sign_outs later (revoke_session s.now s.claims revoked) m.1
        (IsOut-revoke_session s revoked m.0 h)

  IsOut-revoked :
      (at_time : ℕ) (revoked : JsMap ℕ)
      → IsMap revoked
      → at_time / 1000 < claims.exp
      → IsOut (revoke_session at_time claims revoked)
  unfolding revoke_session
  IsOut-revoked at_time revoked map early =
      IsOut-forget_expired at_time (set claims.jti claims.exp revoked) early
        (IsMap-set claims.jti claims.exp revoked map, get-set_self claims.jti claims.exp revoked)

  -- A token that is signed out is live at no later time before its own end, whoever signs out in
  -- between, and whatever its credentials and accounts.
  pub session_token_live-sign_outs :
      (credentials : Credentials) (accounts : JsMap DevAccount) (at_time now : ℕ)
      (later : List SignOut) (revoked : JsMap ℕ)
      → IsMap revoked
      → at_time / 1000 < claims.exp
      → All Meanwhile later
      → now / 1000 < claims.exp
      → session_token_live credentials now claims
          (sign_outs later (revoke_session at_time claims revoked))
          accounts
        ≡ false
  unfolding session_token_live is_revoked_session
  session_token_live-sign_outs credentials accounts at_time now later revoked map early meanwhile
        still =
      let list = sign_outs later (revoke_session at_time claims revoked) in
      let out = IsOut-forget_expired now list still (
        IsOut-sign_outs later (revoke_session at_time claims revoked) meanwhile
          (IsOut-revoked at_time revoked map early)) in
      let there : has claims.jti (forget_expired now list) ≡ true =
        has-get claims.jti (forget_expired now list) ∙ ap is_some out.1 in
      rw (session_token_live, is_revoked_session, there) refl
