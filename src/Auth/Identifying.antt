-- ===== src/Auth/Identifying.antt =====
-- server/src/auth/auth.guard.ts: who a request is known to come from.
use memoar.Prelude.{◌≡◌, ◌⊎◌, sym, ap, ◌∙◌, inl, inr, arith, true, ◌&&◌, ◌++◌, Option, none, some}
use memoar.Prelude.Tests.{Bool-cases, Option-cases}
use memoar.Prelude.Lists.{drop}
use memoar.Prelude.Str.{Str, codes, eq_sound, opt_eq, starts_with, starts_with-rest, truthy}
use memoar.Canonical.{dev, TenantContext}
use memoar.Auth.{
  by_api_key, by_bearer, by_development_headers, by_development_token, developer, Guard, identified,
  otherwise, RequestLike,
}

-- The three ways to be somebody: a key that the service knows, a bearer token that it knows, or, in
-- development alone, the development token or a tenant and a user named by headers.
abbrev pub IdentifiedBy : Guard → RequestLike → TenantContext → Type 0
IdentifiedBy guard request context =
    ((k : Str) × ((request.api_key ≡ some k)
        × ((truthy k ≡ true) × (guard.authenticate_api_key k ≡ some context))))
    ⊎ (((t : Str) × ((request.authorization ≡ some (codes "Bearer " ++ t))
            × (guard.authenticate_bearer t ≡ some context)))
        ⊎ ((guard.development ≡ true)
            × (context.auth_type ≡ dev)
            × ((request.authorization ≡ some (codes "Bearer memoar-development-token"))
                ⊎ ((request.tenant_header ≡ some context.tenant_id)
                    × (request.user_header ≡ some context.user_id)))))

opt_eq_sound : (o : Option Str) (t : Str) → opt_eq o (some t) ≡ true → o ≡ some t
opt_eq_sound none t h = cc
opt_eq_sound (some s) t h = ap some (eq_sound s t h)

otherwise_sound :
    (a b : Option TenantContext) (c : TenantContext)
    → otherwise a b ≡ some c
    → (a ≡ some c) ⊎ (b ≡ some c)
otherwise_sound (some x) b c h = inl h
otherwise_sound none b c h = inr h

module _ (guard : Guard) (request : RequestLike) (context : TenantContext) where
  by_key :
      by_api_key guard request ≡ some context
      → (k : Str) × ((request.api_key ≡ some k)
          × ((truthy k ≡ true) × (guard.authenticate_api_key k ≡ some context)))
  unfolding by_api_key
  by_key h = elim (Option-cases request.api_key) [
    | inl e ↦ cc (rw (by_api_key, e) at h)
    | inr (k, e) ↦ elim (Bool-cases (truthy k)) [
      | inl t ↦ (k, (e, (t, rw (by_api_key, e, t) at h)))
      | inr t ↦ cc (rw (by_api_key, e, t) at h)
    ]
  ]

  by_token :
      by_bearer guard request ≡ some context
      → (t : Str) × ((request.authorization ≡ some (codes "Bearer " ++ t))
          × (guard.authenticate_bearer t ≡ some context))
  unfolding by_bearer
  by_token h = elim (Option-cases request.authorization) [
    | inl e ↦ cc (rw (by_bearer, e) at h)
    | inr (a, e) ↦ elim (Bool-cases (starts_with a (codes "Bearer "))) [
      | inr p ↦ cc (rw (by_bearer, e, p) at h)
      | inl p ↦
          let (t, whole) = starts_with-rest a (codes "Bearer ") p in
          let known : guard.authenticate_bearer (drop 7 a) ≡ some context =
            rw (by_bearer, e, p) at h in
          (t, (e ∙ ap some whole, rw whole at known))
    ]
  ]

  by_developer_token :
      by_development_token guard request ≡ some context
      → (guard.development ≡ true)
        × (context.auth_type ≡ dev)
        × (request.authorization ≡ some (codes "Bearer memoar-development-token"))
  unfolding by_development_token developer
  by_developer_token h =
      elim (Bool-cases (
        guard.development
        && opt_eq request.authorization (some (codes "Bearer memoar-development-token")))) [
          | inr e ↦ cc (rw (by_development_token, e) at h)
          | inl e ↦
              let made : some (
                    developer (codes "0191cafe-0000-7000-8000-000000000002")
                      (codes "0191cafe-0000-7000-8000-000000000002"))
                  ≡ some context =
                rw (by_development_token, e) at h in
              let kind : dev ≡ context.auth_type = cc in
              (
                ground (arith, e),
                sym kind,
                opt_eq_sound request.authorization _ (ground (arith, e)),
              )
        ]

  by_headers :
      by_development_headers guard request ≡ some context
      → (guard.development ≡ true)
        × (context.auth_type ≡ dev)
        × ((request.tenant_header ≡ some context.tenant_id)
            × (request.user_header ≡ some context.user_id))
  unfolding by_development_headers developer
  by_headers h = elim (Bool-cases guard.development) [
    | inr d ↦ cc (rw (by_development_headers, d) at h)
    | inl d ↦ elim (Option-cases request.tenant_header) [
      | inl e ↦ cc (rw (by_development_headers, d, e) at h)
      | inr (t, e) ↦ elim (Bool-cases (truthy t)) [
        | inr g ↦ cc (rw (by_development_headers, d, e, g) at h)
        | inl g ↦ elim (Option-cases request.user_header) [
          | inl f ↦ cc (rw (by_development_headers, d, e, g, f) at h)
          | inr (u, f) ↦ elim (Bool-cases (truthy u)) [
            | inr k ↦ cc (rw (by_development_headers, d, e, g, f, k) at h)
            | inl k ↦
                let made : some (developer t u) ≡ some context =
                  rw (by_development_headers, d, e, g, f, k) at h in
                let kind : dev ≡ context.auth_type = cc in
                let tenant : t ≡ context.tenant_id = cc in
                let user : u ≡ context.user_id = cc in
                (d, sym kind, (e ∙ ap some tenant, f ∙ ap some user))
          ]
        ]
      ]
    ]
  ]

  pub identified-IdentifiedBy :
      identified guard request ≡ some context → IdentifiedBy guard request context
  unfolding identified
  identified-IdentifiedBy h = elim (otherwise_sound (by_api_key guard request) _ context h) [
    | inl k ↦ inl (by_key k)
    | inr h1 ↦ elim (otherwise_sound (by_development_token guard request) _ context h1) [
      | inl d ↦ let (on, kind, sent) = by_developer_token d in inr (inr (on, kind, inl sent))
      | inr h2 ↦ elim (otherwise_sound (by_bearer guard request) _ context h2) [
        | inl t ↦ inr (inl (by_token t))
        | inr d ↦ let (on, kind, sent) = by_headers d in inr (inr (on, kind, inr sent))
      ]
    ]
  ]
