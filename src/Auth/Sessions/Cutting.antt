-- ===== src/Auth/Sessions/Cutting.antt =====
-- A change of password ends every other browser session of the account.
use memoar.Prelude.{
  ◌≡◌, ℕ, refl, ap, ◌∙◌, inl, inr, Bool, true, false, not, ◌||◌, [], ◌∷◌, Option, none, some,
}
use memoar.Prelude.Tests.{if◌then◌else◌, Bool-cases, Option-cases}
use memoar.Prelude.Lists.{find, find-passes}
use memoar.Prelude.Str.{Str, ◌==◌}
use memoar.Prelude.JsMap.{JsMap, values}
use memoar.Canonical.{TenantContext}
use memoar.Auth.Sessions.{
  browser_session_required, change_account_password, cut_dev_sessions, dev_cutoff_of, DevAccount,
  is_account, is_browser_session, minted_after, no_password, PasswordProblem, Passwords,
  sign_in_identity_live, survives_cutoff, TokenClaims, update_first, with_password, wrong_password,
}

-- What a test finds after an assignment to the first account that passes it.
find-update_first :
    (p : DevAccount → Bool) (f : DevAccount → DevAccount) (accounts : JsMap DevAccount)
    (user : DevAccount)
    → find p (values accounts) ≡ some user
    → p (f user) ≡ true
    → find p (values (update_first p f accounts)) ≡ some (f user)
unfolding find update_first
find-update_first p f [] user h t = cc
find-update_first p f ((email, u) ∷ accounts) user h t = elim (Bool-cases (p u)) [
  | inl q ↦ let same : u ≡ user = cc (rw q at h) in rw (q, same, t) refl
  | inr q ↦ rw (q, q) (find-update_first p f accounts user (rw q at h) t)
]

module _ (passwords : Passwords) (now : ℕ) (context : TenantContext) (claims : TokenClaims)
    (current fresh : Str) (accounts : JsMap DevAccount) where
  abbrev changed : JsMap DevAccount × Option PasswordProblem
  changed = change_account_password passwords now context claims current fresh accounts

  abbrev mine : DevAccount → Bool
  mine = is_account context.user_id context.tenant_id

  abbrev renewed : DevAccount → DevAccount
  renewed = with_password passwords now claims.jti fresh

  elsewhere :
      is_browser_session context (some claims) ≡ false → changed.1 ≡ some browser_session_required
  unfolding change_account_password
  elsewhere e = rw (changed, change_account_password, e) refl

  unknown :
      is_browser_session context (some claims) ≡ true
      → find mine (values accounts) ≡ none
      → changed.1 ≡ some no_password
  unfolding change_account_password
  unknown e f = rw (changed, change_account_password, e, f) refl

  found :
      (user : DevAccount)
      → is_browser_session context (some claims) ≡ true
      → find mine (values accounts) ≡ some user
      → changed ≡ (
          if user.passwordless
          then (accounts, some no_password)
          else if not (passwords.verify_secret current user.password_hash)
          then (accounts, some wrong_password)
          else (update_first mine renewed accounts, none))
  unfolding change_account_password
  found user e f = rw (changed, change_account_password, e, f) refl

  -- What a successful change did.
  record Changed : Type 0 where
    user : DevAccount
    held : find mine (values accounts) ≡ some user
    made : changed.0 ≡ update_first mine renewed accounts

  change-Changed : changed.1 ≡ none → Changed
  change-Changed h = elim (Bool-cases (is_browser_session context (some claims))) [
    | inr e ↦ cc (elsewhere e)
    | inl e ↦ elim (Option-cases (find mine (values accounts))) [
      | inl f ↦ cc (unknown e f)
      | inr (user, f) ↦ elim (Bool-cases user.passwordless) [
        | inl g ↦
            let refused : changed ≡ (accounts, some no_password) = rw g at (found user e f) in
            cc (ap (λ (r : JsMap DevAccount × Option PasswordProblem). r.1) refused)
        | inr g ↦ elim (Bool-cases (passwords.verify_secret current user.password_hash)) [
          | inr k ↦
              let refused : changed ≡ (accounts, some wrong_password) =
                rw (g, k) at (found user e f) in
              cc (ap (λ (r : JsMap DevAccount × Option PasswordProblem). r.1) refused)
          | inl k ↦
              let done : changed ≡ (update_first mine renewed accounts, none) =
                rw (g, k) at (found user e f) in
              record {
                user = user;
                held = f;
                made = ap (λ (r : JsMap DevAccount × Option PasswordProblem). r.0) done;
              }
        ]
      ]
    ]
  ]

  mine_still :
      (user : DevAccount) → find mine (values accounts) ≡ some user → mine (renewed user) ≡ true
  unfolding with_password cut_dev_sessions is_account
  mine_still user h = find-passes mine (values accounts) user h

  found_changed : (c : Changed) → find mine (values changed.0) ≡ some (renewed c.user)
  found_changed c =
      ap (λ (m : JsMap DevAccount). find mine (values m)) c.made
      ∙ find-update_first mine renewed accounts c.user c.held (mine_still c.user c.held)

  cutoff_renewed :
      (user : DevAccount) (other : TokenClaims)
      → survives_cutoff other (dev_cutoff_of (renewed user))
        ≡ (claims.jti == other.jti || minted_after now other.iat)
  unfolding survives_cutoff dev_cutoff_of with_password cut_dev_sessions
  cutoff_renewed user other = refl

  -- After a successful change of password a sign-in of the account counts exactly if it is the one
  -- that the change was made from, or was minted since: every other session has ended.
  pub sign_in_identity_live-change_account_password :
      (other : TokenClaims)
      → changed.1 ≡ none
      → other.sub ≡ context.user_id
      → other.tenant_id ≡ context.tenant_id
      → sign_in_identity_live other changed.0
        ≡ (claims.jti == other.jti || minted_after now other.iat)
  unfolding sign_in_identity_live
  sign_in_identity_live-change_account_password other h sub tenant =
      let c = change-Changed h in
      let here : find (is_account other.sub other.tenant_id) (values changed.0)
          ≡ some (renewed c.user) =
        (λ i. find (is_account (sub i) (tenant i)) (values changed.0)) ∙ found_changed c in
      rw (sign_in_identity_live, here) (cutoff_renewed c.user other)
