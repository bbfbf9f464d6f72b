-- ===== src/Auth/Admitting.antt =====
-- What it takes to pass the guard of a route that is not public.
use memoar.Prelude.{
  ◌≡◌, ◌≢◌, ◌⊎◌, refl, sym, ap, ◌∙◌, inl, inr, arith, Bool, true, false, not, ◌&&◌, ◌||◌, List, [],
  ◌∷◌, ◌++◌, Option, none, some,
}
use memoar.Prelude.Tests.{Bool-cases, Option-cases, or_else}
use memoar.Prelude.Lists.{All, any}
use memoar.Prelude.Str.{Str, codes, contains, eq_sound, includes, truthy}
use memoar.Canonical.{AuthType, machine, mcp, TenantContext}
use memoar.Auth.{
  admitted, Admission, can_activate, capture_path, denied, Guard, holds_all, identified,
  inferred_scopes, is_machine, is_mcp, machine_mismatch, machine_restricted, mcp_restricted,
  missing_scope, names_own_machine, own_command_path, path_of, RequestLike, restricted,
  unauthenticated, open_to_all,
}
use memoar.Auth.Identifying.{identified-IdentifiedBy, IdentifiedBy}

-- The wildcard, or every scope asked for.
abbrev Holds : List Str → List Str → Type 0
Holds held required =
    (contains held (codes "*") ≡ true) ⊎ All (λ (scope : Str). contains held scope ≡ true) required

-- The routes of a machine: captures, memory, and its own commands.
abbrev OnMachineRoute : TenantContext → Str → Type 0
OnMachineRoute context path =
    (includes path (codes "/ingest") ≡ true)
    ⊎ ((includes path (codes "/memory") ≡ true)
        ⊎ ((id : Str) × ((context.machine_id ≡ some id)
              × ((truthy id ≡ true)
                  × (includes path (codes "/machines/" ++ (id ++ codes "/commands")) ≡ true)))))

abbrev NamesNoOther : TenantContext → RequestLike → Type 0
NamesNoOther context request =
    (request.body_machine_id ≡ none)
    ⊎ ((id : Str) × ((request.body_machine_id ≡ some id) × (context.machine_id ≡ some id)))

-- The credential is known and holds what the route asks for, and is used where its kind may be: the
-- token of an MCP client on the MCP endpoint, a machine's on its own routes and for itself.
pub record Admitted (guard : Guard) (required : Option (List Str)) (request : RequestLike)
    (context : TenantContext) : Type 0 where
  pub known : IdentifiedBy guard request context
  pub scopes : Holds context.scopes (or_else required (inferred_scopes guard request))
  pub mcp_only : (context.auth_type ≢ mcp) ⊎ (includes (path_of request) (codes "/mcp") ≡ true)
  pub machine_only :
      (context.auth_type ≢ machine)
      ⊎ (OnMachineRoute context (path_of request) × NamesNoOther context request)

all_held :
    (held required : List Str)
    → any (λ (scope : Str). not (contains held scope)) required ≡ false
    → All (λ (scope : Str). contains held scope ≡ true) required
unfolding any
all_held held [] h = tt
all_held held (scope ∷ required) h = (ground (arith, h), all_held held required (ground (arith, h)))

holds_all-Holds :
    (context : TenantContext) (required : List Str)
    → holds_all context required ≡ true
    → Holds context.scopes required
unfolding holds_all
holds_all-Holds context required h = elim (Bool-cases (contains context.scopes (codes "*"))) [
  | inl w ↦ inl w
  | inr w ↦ inr (all_held context.scopes required (ground (arith, w, h)))
]

no_client : (kind : AuthType) → is_mcp kind ≡ false → kind ≢ mcp
unfolding is_mcp
no_client kind h e = cc (rw e at h)

no_machine : (kind : AuthType) → is_machine kind ≡ false → kind ≢ machine
unfolding is_machine
no_machine kind h e = cc (rw e at h)

own_route :
    (context : TenantContext) (path : Str)
    → (capture_path path || own_command_path context path) ≡ true
    → OnMachineRoute context path
unfolding capture_path own_command_path
own_route context path h = elim (Bool-cases (includes path (codes "/ingest"))) [
  | inl i ↦ inl i
  | inr i ↦ elim (Bool-cases (includes path (codes "/memory"))) [
    | inl m ↦ inr (inl m)
    | inr m ↦ elim (Option-cases context.machine_id) [
      | inl e ↦ cc (rw (capture_path, own_command_path, i, m, e) at h)
      | inr (id, e) ↦
          let own : (truthy id && includes path (codes "/machines/" ++ (id ++ codes "/commands")))
              ≡ true =
            rw (capture_path, own_command_path, i, m, e) at h in
          inr (inr (id, (e, (ground (arith, own), ground (arith, own)))))
    ]
  ]
]

no_other :
    (context : TenantContext) (request : RequestLike)
    → names_own_machine context request ≡ true
    → NamesNoOther context request
unfolding names_own_machine
no_other context request h = elim (Option-cases request.body_machine_id) [
  | inl e ↦ inl e
  | inr (id, e) ↦ elim (Option-cases context.machine_id) [
    | inl m ↦ cc (rw (names_own_machine, e, m) at h)
    | inr (own, m) ↦
        let same : own ≡ id = eq_sound own id (rw (names_own_machine, e, m) at h) in
        inr (id, (e, m ∙ ap some same))
  ]
]

either_not : (a b : Bool) → (a && not b) ≡ false → (a ≡ false) ⊎ (b ≡ true)
either_not true true h = inr refl
either_not true false h = cc
either_not false b h = inl refl

module _ (context : TenantContext) (request : RequestLike) where
  abbrev stray_client : Bool
  stray_client = is_mcp context.auth_type && not (includes (path_of request) (codes "/mcp"))

  abbrev stray_machine : Bool
  stray_machine =
      is_machine context.auth_type
      && not (capture_path (path_of request) || own_command_path context (path_of request))

  abbrev other_machine : Bool
  other_machine = is_machine context.auth_type && not (names_own_machine context request)

  -- What passes the restrictions is in no way astray.
  restricted-admitted :
      (c : TenantContext)
      → restricted context request ≡ admitted c
      → (context ≡ c)
        × ((stray_client ≡ false) × ((stray_machine ≡ false) × (other_machine ≡ false)))
  unfolding restricted
  restricted-admitted c h = elim (Bool-cases stray_client) [
    | inl e ↦
        let stopped : restricted context request ≡ denied mcp_restricted =
          rw (restricted, e) refl in
        cc
    | inr e ↦ elim (Bool-cases stray_machine) [
      | inl f ↦
          let stopped : restricted context request ≡ denied machine_restricted =
            rw (restricted, e, f) refl in
          cc
      | inr f ↦ elim (Bool-cases other_machine) [
        | inl g ↦
            let stopped : restricted context request ≡ denied machine_mismatch =
              rw (restricted, e, f, g) refl in
            cc
        | inr g ↦
            let passed : restricted context request ≡ admitted context =
              rw (restricted, e, f, g) refl in
            (cc, (e, (f, g)))
      ]
    ]
  ]

module _ (guard : Guard) (is_public : Bool) (required : Option (List Str))
    (request : RequestLike) where
  abbrev outcome : Admission
  outcome = can_activate guard is_public required request

  abbrev asked : List Str
  asked = or_else required (inferred_scopes guard request)

  public_route : is_public ≡ true → outcome ≡ open_to_all
  unfolding can_activate
  public_route e = rw (outcome, can_activate, e) refl

  nobody : is_public ≡ false → identified guard request ≡ none → outcome ≡ denied unauthenticated
  unfolding can_activate
  nobody e i = rw (outcome, can_activate, e, i) refl

  underpriced :
      (c : TenantContext)
      → is_public ≡ false
      → identified guard request ≡ some c
      → holds_all c asked ≡ false
      → outcome ≡ denied (missing_scope asked)
  unfolding can_activate
  underpriced c e i s = rw (outcome, can_activate, e, i, s) refl

  paid :
      (c : TenantContext)
      → is_public ≡ false
      → identified guard request ≡ some c
      → holds_all c asked ≡ true
      → outcome ≡ restricted c request
  unfolding can_activate
  paid c e i s = rw (outcome, can_activate, e, i, s) refl

  admitted_with :
      (c context : TenantContext)
      → identified guard request ≡ some c
      → holds_all c asked ≡ true
      → restricted c request ≡ admitted context
      → Admitted guard required request context
  admitted_with c context i s r =
      let (same, (a, (b, d))) = restricted-admitted c request context r in
      let here : Admitted guard required request c = record {
        known = identified-IdentifiedBy guard request c i;
        scopes = holds_all-Holds c asked s;
        mcp_only = elim (either_not _ _ a) [
          | inl m ↦ inl (no_client c.auth_type m)
          | inr m ↦ inr m
        ];
        machine_only = elim (Bool-cases (is_machine c.auth_type)) [
          | inr m ↦ inl (no_machine c.auth_type m)
          | inl m ↦ inr (
            own_route c (path_of request) (ground (arith, m, b)),
            no_other c request (ground (arith, m, d)),
          )
        ];
      } in
      rw same at here

  -- Whoever is admitted to a route that is not public gave a key or a bearer token that the service
  -- knows, or stands for a developer, in development alone. The context holds every scope that the
  -- route asks for or infers, or the wildcard. An MCP token keeps to paths with `/mcp`; a machine
  -- to paths with `/ingest`, `/memory` or its own commands, with no other machine named in the body.
  pub can_activate-Admitted :
      (context : TenantContext)
      → can_activate guard is_public required request ≡ admitted context
      → Admitted guard required request context
  can_activate-Admitted context h = elim (Bool-cases is_public) [
    | inl e ↦ cc (public_route e)
    | inr e ↦ elim (Option-cases (identified guard request)) [
      | inl i ↦ cc (nobody e i)
      | inr (c, i) ↦ elim (Bool-cases (holds_all c asked)) [
        | inr s ↦ cc (underpriced c e i s)
        | inl s ↦ admitted_with c context i s (sym (paid c e i s) ∙ h)
      ]
    ]
  ]
