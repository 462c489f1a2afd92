-- ===== src/AppServer/Toml.antt =====
-- `tomlString` and `BuildConfigArgs` of internal/appserver/client.go: values of -c overrides as TOML
-- basic strings. A text is its list of runes.
pub mod RoundTrip
use counterpoint.Prelude.{
  ℕ, ◌+◌, ◌-◌, ◌/◌, ◌%◌, Bool, ◌||◌, List, [], ◌∷◌, ◌++◌, ltb, ◌==◌, if◌then◌else◌,
}
use counterpoint.Prelude.Text.{Bytes, codes}

-- One upper-case hex digit, as %X prints it.
unfoldable pub hex_digit : ℕ → ℕ
hex_digit d = if ltb d 10 then 48 + d else 55 + d

-- fmt's \u%04X of a rune below 0x10000
unfoldable pub escape : ℕ → Bytes
unfolding hex_digit
escape r =
    b'\\'
    ∷ b'u'
    ∷ hex_digit (r / 4096 % 16)
    ∷ hex_digit (r / 256 % 16)
    ∷ hex_digit (r / 16 % 16)
    ∷ hex_digit (r % 16)
    ∷ []

unfoldable pub toml_rune : ℕ → Bytes
unfolding escape
toml_rune r =
    if (r == b'"') || (r == b'\\')
    then b'\\' ∷ r ∷ []
    else if ltb r 0x20 || (r == 0x7f)
    then escape r
    else r ∷ []

unfoldable pub toml_runes : Bytes → Bytes
toml_runes [] = []
toml_runes (r ∷ s) = toml_rune r ++ toml_runes s

unfoldable pub toml_string : Bytes → Bytes
toml_string s = b'"' ∷ (toml_runes s ++ (b'"' ∷ []))

abbrev pub env_cache_dir : Bytes
env_cache_dir = codes "COUNTERPOINT_CACHE_DIR"

unfoldable pub build_config_args : Bytes → Bytes → List Bytes
build_config_args cache_dir tmp_dir =
    codes "-c"
    ∷ (codes "sandbox_workspace_write.writable_roots=["
        ++ (toml_string cache_dir ++ (codes "," ++ (toml_string tmp_dir ++ codes "]"))))
    ∷ codes "-c"
    ∷ codes "sandbox_workspace_write.exclude_slash_tmp=true"
    ∷ codes "-c"
    ∷ codes "sandbox_workspace_write.exclude_tmpdir_env_var=true"
    ∷ codes "-c"
    ∷ (codes "shell_environment_policy.set.TMPDIR=" ++ toml_string tmp_dir)
    ∷ codes "-c"
    ∷ (codes "shell_environment_policy.set."
        ++ (env_cache_dir ++ (codes "=" ++ toml_string cache_dir)))
    ∷ []
