-- ===== src/Convert/Tests.antt =====
-- A bundle that passes the guard.
use memoar.Prelude.Str.{includes}
use memoar.Prelude.Str.{starts_with}
use memoar.Prelude.Str.{◌==◌}
use memoar.Prelude.{◌≤◌, ◌≡◌, refl, [], ◌∷◌, none}
use memoar.Prelude.Lists.{All, length}
use memoar.Prelude.Str.{codes, Str}
use memoar.Convert.BundleGuard.{
  assert_materializable_paths, assert_materializable_paths-Materializable, ConversionBundle,
  ConversionFile, Materializable, target_prefix,
}
use memoar.Convert.WorkspaceName.{
  encode_claude_workspace, encode_claude_workspace-IsPortable, encoded, encoded-IsPortable,
  IsPortable, is_portable, max_workspace_component, portable_or_dash,
}
use memoar.Host.{Host}
use memoar.Examples.{host}

abbrev bundle : ConversionBundle
bundle = record {
  target = codes "codex";
  session_id = codes "s1";
  files =
      record { path = codes "~/.codex/sessions/a/s1.jsonl"; media_type = codes "x"; bytes = [] }
      ∷ [];
  resume_command = codes "codex resume";
}

accepted : assert_materializable_paths host bundle ≡ none
unfolding assert_materializable_paths ◌==◌ starts_with includes
accepted = refl

assert_materializable_paths-Materializable_example :
    All
      (λ (f : ConversionFile). Materializable host (codes ".codex/sessions/") (codes "s1") f.path)
      bundle.files
unfolding target_prefix ◌==◌
assert_materializable_paths-Materializable_example =
    assert_materializable_paths-Materializable host bundle (codes ".codex/sessions/") refl accepted

digits : All IsPortable (codes "e3b0c44298fc1c14")
unfolding encoded portable_or_dash is_portable
digits = encoded-IsPortable (codes "e3b0c44298fc1c14")

-- A host whose digests are hex.
abbrev hex_host : Host
hex_host = record host { sha256 = λ text. codes "e3b0c44298fc1c14" }

abbrev workspace : Str
workspace = codes "/Users/ann/my project"

named : encode_claude_workspace hex_host workspace ≡ codes "-Users-ann-my-project"
unfolding encode_claude_workspace encoded portable_or_dash is_portable ◌==◌
named = refl

encode_claude_workspace-IsPortable_example :
    (1 ≤ length (encode_claude_workspace hex_host workspace))
    × (length (hex_host.utf8 (encode_claude_workspace hex_host workspace))
        ≤ max_workspace_component)
    × All IsPortable (encode_claude_workspace hex_host workspace)
encode_claude_workspace-IsPortable_example =
    encode_claude_workspace-IsPortable hex_host (λ s. digits) (λ s h. refl) workspace
