-- ===== src/Convert/BundleGuard.antt =====
-- server/src/convert/bundle-guard.ts: the paths that a bundle may be built with.
use memoar.Prelude.{
  ℕ, ◌≤◌, ◌≡◌, sym, ap, ◌∙◌, inl, inr, arith, Bool, true, false, not, ◌&&◌, ◌||◌, List, [], ◌∷◌,
  ◌++◌, Option, none, some,
}
use memoar.Prelude.Tests.{if◌then◌else◌, Bool-cases, ltb, nat_eq, Option-cases}
use memoar.Prelude.Lists.{All, drop, length}
use memoar.Prelude.Str.{Str, codes, ◌==◌, includes, starts_with, starts_with-rest}
use memoar.Host.{Host}

pub record ConversionFile : Type 0 where
  pub path : Str
  pub media_type : Str
  pub bytes : List ℕ

-- Without the report of the conversion, which nothing here reads.
pub record ConversionBundle : Type 0 where
  pub target : Str
  pub session_id : Str
  pub files : List ConversionFile
  pub resume_command : Str

pub data PathProblem : Type 0 where
  path_outside_target path_missing_session_id path_not_normal : PathProblem
  path_component_too_long : ℕ → PathProblem

unfoldable pub target_prefix : Str → Option Str
target_prefix target =
    if target == codes "claude-code"
    then some (codes ".claude/projects/")
    else if target == codes "codex"
    then some (codes ".codex/sessions/")
    else if target == codes "antigravity-cli"
    then some (codes ".gemini/antigravity-cli/brain/")
    else none

abbrev max_component_bytes : ℕ
max_component_bytes = 255

-- `text.split("/")`
pub components : Str → List Str
components [] = [] ∷ []
components (c ∷ text) = elim (components text) [
  | [] ↦ (c ∷ []) ∷ []
  | part ∷ parts ↦ if nat_eq c b'/' then [] ∷ (part ∷ parts) else (c ∷ part) ∷ parts
]

pub is_special : Str → Bool
is_special component = component == [] || (component == codes "." || component == codes "..")

-- The first problem of the components, then of a file's path, then of a bundle's files.
pub component_problem : Host → List Str → Option PathProblem
unfolding is_special
component_problem host [] = none
component_problem host (component ∷ rest) =
    let size = length (host.utf8 component) in
    let later = component_problem host rest in
    if is_special component
    then some path_not_normal
    else if ltb max_component_bytes size
    then some (path_component_too_long size)
    else later

pub path_problem : Host → Str → Str → Str → Option PathProblem
unfolding component_problem components
path_problem host prefix session_id path =
    let relative = drop 2 path in
    if not (starts_with path (codes "~/") && starts_with relative prefix)
    then some path_outside_target
    else if not (includes relative session_id)
    then some path_missing_session_id
    else component_problem host (components relative)

pub files_problem : Host → Str → Str → List ConversionFile → Option PathProblem
unfolding path_problem
files_problem host prefix session_id [] = none
files_problem host prefix session_id (file ∷ files) =
    let later = files_problem host prefix session_id files in
    elim (path_problem host prefix session_id file.path) [
      | some problem ↦ some problem
      | none ↦ later
    ]

unfoldable pub assert_materializable_paths : Host → ConversionBundle → Option PathProblem
unfolding target_prefix files_problem
assert_materializable_paths host bundle = elim (target_prefix bundle.target) [
  | none ↦ none
  | some prefix ↦ files_problem host prefix bundle.session_id bundle.files
]

-- A component that a machine accepts: it is a name, and no longer than a file system takes.
abbrev pub IsNormal : Host → Str → Type 0
IsNormal host component =
    (is_special component ≡ false) × (length (host.utf8 component) ≤ max_component_bytes)

component_problem-IsNormal :
    (host : Host) (cs : List Str) → component_problem host cs ≡ none → All (IsNormal host) cs
unfolding component_problem
component_problem-IsNormal host [] h = tt
component_problem-IsNormal host (c ∷ cs) h = elim (Bool-cases (is_special c)) [
  | inl s ↦ cc (rw s at h)
  | inr s ↦ elim (Bool-cases (ltb max_component_bytes (length (host.utf8 c)))) [
    | inl t ↦ cc (rw (s, t) at h)
    | inr t ↦ ((s, ground (arith, t)), component_problem-IsNormal host cs (rw (s, t) at h))
  ]
]

-- A path that a machine materializes inside the target's own folder, under the session's name.
pub record Materializable (host : Host) (prefix session_id path : Str) : Type 0 where
  pub rest : Str
  pub inside : path ≡ codes "~/" ++ (prefix ++ rest)
  pub named : includes (prefix ++ rest) session_id ≡ true
  pub normal : All (IsNormal host) (components (prefix ++ rest))

module _ (host : Host) (prefix session_id : Str) where
  path_problem-Materializable :
      (path : Str)
      → path_problem host prefix session_id path ≡ none
      → Materializable host prefix session_id path
  unfolding path_problem
  path_problem-Materializable path h =
      elim (Bool-cases (starts_with path (codes "~/") && starts_with (drop 2 path) prefix)) [
        | inr o ↦ cc (rw (path_problem, o) at h)
        | inl o ↦ elim (Bool-cases (includes (drop 2 path) session_id)) [
          | inr i ↦ cc (rw (path_problem, o, i) at h)
          | inl i ↦
              let (relative, below_home) = starts_with-rest path (codes "~/") (ground (arith, o)) in
              let same : drop 2 path ≡ relative = ap (drop 2) below_home in
              let (rest, below) = starts_with-rest (drop 2 path) prefix (ground (arith, o)) in
              let normal =
                component_problem-IsNormal host (components (drop 2 path))
                  (rw (path_problem, o, i) at h) in
              record {
                rest = rest;
                inside = below_home ∙ ap (◌++◌ (codes "~/")) (sym same ∙ below);
                named = rw below at i;
                normal = rw below at normal;
              }
        ]
      ]

  files_problem-Materializable :
      (files : List ConversionFile)
      → files_problem host prefix session_id files ≡ none
      → All (λ (f : ConversionFile). Materializable host prefix session_id f.path) files
  unfolding files_problem
  files_problem-Materializable [] h = tt
  files_problem-Materializable (f ∷ fs) h =
      elim (Option-cases (path_problem host prefix session_id f.path)) [
        | inr (p, e) ↦ cc (rw (files_problem, e) at h)
        | inl e ↦ (
          path_problem-Materializable f.path e,
          files_problem-Materializable fs (rw (files_problem, e) at h),
        )
      ]

-- Every file of a bundle that passes is written inside the folder of the bundle's target and no
-- other, under a path that names the session, with components that a machine accepts.
pub assert_materializable_paths-Materializable :
    (host : Host) (bundle : ConversionBundle) (prefix : Str)
    → target_prefix bundle.target ≡ some prefix
    → assert_materializable_paths host bundle ≡ none
    → All (λ (f : ConversionFile). Materializable host prefix bundle.session_id f.path) bundle.files
unfolding assert_materializable_paths
assert_materializable_paths-Materializable host bundle prefix e h =
    files_problem-Materializable host prefix bundle.session_id bundle.files
      (rw (assert_materializable_paths, e) at h)
