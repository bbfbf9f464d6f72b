-- ===== src/Convert/WorkspaceName.antt =====
-- server/src/convert/workspace-name.ts: the directory that a workspace's sessions are written under.
use memoar.Prelude.{
  ℕ, ◌-◌, ◌≤◌, ◌≡◌, refl, ap, inl, inr, arith, Bool, true, false, ◌&&◌, ◌||◌, [], ◌∷◌, ◌++◌,
}
use memoar.Prelude.Tests.{if◌then◌else◌, Bool-cases, leb, leb→le, nat_eq}
use memoar.Prelude.Lists.{
  All, All-append, All-drop, All-take, drop, length, length-append, length-drop, length-take-le,
  take,
}
use memoar.Prelude.Str.{Str, codes, ◌==◌}
use memoar.Host.{Host}

abbrev pub max_workspace_component : ℕ
max_workspace_component = 180

abbrev digest_prefix : ℕ
digest_prefix = 12

between : ℕ → ℕ → ℕ → Bool
between low high c = leb low c && leb c high

-- `/^[A-Za-z0-9._-]$/u`
unfoldable pub is_portable : ℕ → Bool
unfolding between
is_portable c =
    between b'A' b'Z' c
    || (between b'a' b'z' c
        || (between b'0' b'9' c || (nat_eq c b'.' || (nat_eq c b'_' || nat_eq c b'-'))))

-- One character, which is two code units when it is a surrogate pair.
unfoldable pub portable_or_dash : ℕ → ℕ
unfolding is_portable
portable_or_dash c = if is_portable c then c else b'-'

is_pair : ℕ → ℕ → Bool
unfolding between
is_pair c d = between 0xD800 0xDBFF c && between 0xDC00 0xDFFF d

-- `[...workspace].map(…).join("")`
unfoldable pub encoded : Str → Str
unfolding portable_or_dash is_pair
encoded [] = []
encoded (c ∷ []) = portable_or_dash c ∷ []
encoded (c ∷ (d ∷ s)) =
    let after_pair = encoded s in
    let rest = encoded (d ∷ s) in
    if is_pair c d then b'-' ∷ after_pair else portable_or_dash c ∷ rest

module _ (host : Host) where
  unfoldable pub encode_claude_workspace : Str → Str
  unfolding encoded
  encode_claude_workspace workspace =
      let tail = max_workspace_component - digest_prefix - 1 in
      let name = encoded workspace in
      if name == []
      then codes "memoar-imports"
      else if leb (length name) max_workspace_component
      then name
      else take digest_prefix (host.sha256 workspace) ++ (b'-' ∷ drop (length name - tail) name)

abbrev pub IsPortable : ℕ → Type 0
IsPortable c = is_portable c ≡ true

portable_or_dash-IsPortable : (c : ℕ) → IsPortable (portable_or_dash c)
unfolding portable_or_dash is_portable between
portable_or_dash-IsPortable c = elim (Bool-cases (is_portable c)) [
  | inl p ↦ rw (portable_or_dash, p) p
  | inr p ↦ rw (portable_or_dash, p) refl
]

pub encoded-IsPortable : (s : Str) → All IsPortable (encoded s)
unfolding encoded is_portable between
encoded-IsPortable [] = tt
encoded-IsPortable (c ∷ []) = (portable_or_dash-IsPortable c, tt)
encoded-IsPortable (c ∷ (d ∷ s)) = elim (Bool-cases (is_pair c d)) [
  | inl p ↦ rw p (refl, encoded-IsPortable s)
  | inr p ↦ rw p (portable_or_dash-IsPortable c, encoded-IsPortable (d ∷ s))
]

-- A portable character is no surrogate.
portable-unpaired : (c d : ℕ) → IsPortable c → is_pair c d ≡ false
unfolding is_pair is_portable between
portable-unpaired c d h = ground (arith, h)

encoded-portable : (s : Str) → All IsPortable s → encoded s ≡ s
unfolding encoded portable_or_dash
encoded-portable [] h = refl
encoded-portable (c ∷ []) h = rw h.0 refl
encoded-portable (c ∷ (d ∷ s)) h =
    rw (portable-unpaired c d h.0, h.0) (ap (◌∷◌ c) (encoded-portable (d ∷ s) h.1))

is_nonempty : (s : Str) → (s == []) ≡ false → 1 ≤ length s
unfolding ◌==◌
is_nonempty [] h = cc
is_nonempty (c ∷ s) h = omega arith

IsDirectoryName : Str → Type 0
IsDirectoryName name =
    (1 ≤ length name) × (length name ≤ max_workspace_component) × All IsPortable name

imports-IsDirectoryName : IsDirectoryName (codes "memoar-imports")
unfolding IsDirectoryName encoded portable_or_dash is_portable between is_pair
imports-IsDirectoryName = (omega arith, omega arith, encoded-IsPortable (codes "memoar-imports"))

shortened-IsDirectoryName :
    (digest name : Str)
    → All IsPortable digest
    → All IsPortable name
    → IsDirectoryName (take 12 digest ++ (b'-' ∷ drop (length name - 167) name))
unfolding IsDirectoryName is_portable between
shortened-IsDirectoryName digest name hd hn =
    let rest = b'-' ∷ drop (length name - 167) name in
    let whole = length-append (take 12 digest) rest in
    let front = length-take-le 12 digest in
    let back = length-drop (length name - 167) name in
    (
      omega (arith, whole),
      omega (arith, whole, front, back),
      All-append IsPortable (take 12 digest) rest (All-take IsPortable 12 digest hd)
          (refl, All-drop IsPortable (length name - 167) name hn),
    )

module _ (host : Host) where
  name-IsDirectoryName :
      ((s : Str) → All IsPortable (host.sha256 s))
      → (workspace : Str) → IsDirectoryName (encode_claude_workspace host workspace)
  unfolding encode_claude_workspace IsDirectoryName
  name-IsDirectoryName digest workspace = elim (Bool-cases (encoded workspace == [])) [
    | inl e ↦ rw e imports-IsDirectoryName
    | inr e ↦ elim (Bool-cases (leb (length (encoded workspace)) max_workspace_component)) [
      | inl short ↦
          rw (e, short)
            (
              is_nonempty (encoded workspace) e,
              leb→le (length (encoded workspace)) max_workspace_component short,
              encoded-IsPortable workspace,
            )
      | inr long ↦
          rw (e, long)
            (shortened-IsDirectoryName (host.sha256 workspace) (encoded workspace)
              (digest workspace) (encoded-IsPortable workspace))
    ]
  ]

  -- Where digests are hex and a portable text has a byte to a character, the directory of any
  -- workspace at all has a name, of at most 180 bytes, in which each character is a letter or digit
  -- of ASCII, a dot, a dash or an underscore: no workspace can add a component to the path.
  pub encode_claude_workspace-IsPortable :
      ((s : Str) → All IsPortable (host.sha256 s))
      → ((s : Str) → All IsPortable s → length (host.utf8 s) ≡ length s)
      → (workspace : Str)
      → (1 ≤ length (encode_claude_workspace host workspace))
        × (length (host.utf8 (encode_claude_workspace host workspace)) ≤ max_workspace_component)
        × All IsPortable (encode_claude_workspace host workspace)
  unfolding IsDirectoryName
  encode_claude_workspace-IsPortable digest ascii workspace =
      let (some_name, short, portable) = name-IsDirectoryName digest workspace in
      (
        some_name,
        omega (arith, short, ascii (encode_claude_workspace host workspace) portable),
        portable,
      )

  -- A portable name of at most 180 characters stands as it is.
  pub encode_claude_workspace-portable :
      (workspace : Str)
      → All IsPortable workspace
      → 1 ≤ length workspace
      → length workspace ≤ max_workspace_component
      → encode_claude_workspace host workspace ≡ workspace
  unfolding encode_claude_workspace ◌==◌
  encode_claude_workspace-portable [] h lo hi = absurd (omega (arith, lo))
  encode_claude_workspace-portable (c ∷ s) h lo hi =
      let same = encoded-portable (c ∷ s) h in
      let fits : leb (length (c ∷ s)) max_workspace_component ≡ true = ground (arith, hi) in
      rw (encode_claude_workspace, same, fits) refl
