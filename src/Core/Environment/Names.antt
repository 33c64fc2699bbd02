-- ===== src/Core/Environment/Names.antt =====
-- cage-core/src/policy.rs: which names of variables carry secrets, and which a sandbox may see.
pub mod Laws
use cargo_cage.Base.{
  Bool, false, ◌||◌, Option, none, some, List, [], ◌∷◌, ◌==◌, list_eq, nat_eq, list_beq, contains,
}
use cargo_cage.Os.Text.{
  OsString, bytes, to_str, to_ascii_uppercase, upper_byte, text_starts_with, text_ends_with,
}

abbrev pub forwarded_host_environment_names : List OsString
forwarded_host_environment_names =
    bytes "USER"
    ∷ bytes "LOGNAME"
    ∷ bytes "LANG"
    ∷ bytes "LANGUAGE"
    ∷ bytes "LC_ALL"
    ∷ bytes "LC_ADDRESS"
    ∷ bytes "LC_COLLATE"
    ∷ bytes "LC_CTYPE"
    ∷ bytes "LC_IDENTIFICATION"
    ∷ bytes "LC_MEASUREMENT"
    ∷ bytes "LC_MESSAGES"
    ∷ bytes "LC_MONETARY"
    ∷ bytes "LC_NAME"
    ∷ bytes "LC_NUMERIC"
    ∷ bytes "LC_PAPER"
    ∷ bytes "LC_TELEPHONE"
    ∷ bytes "LC_TIME"
    ∷ bytes "TERM"
    ∷ bytes "COLORTERM"
    ∷ bytes "COLUMNS"
    ∷ bytes "LINES"
    ∷ bytes "CARGO_TERM_COLOR"
    ∷ bytes "CARGO_TERM_VERBOSE"
    ∷ bytes "CARGO_TERM_PROGRESS_WHEN"
    ∷ bytes "CARGO_INCREMENTAL"
    ∷ bytes "CARGO_BUILD_JOBS"
    ∷ bytes "CARGO_BUILD_TARGET"
    ∷ bytes "CARGO_ENCODED_RUSTFLAGS"
    ∷ bytes "CARGO_ENCODED_RUSTDOCFLAGS"
    ∷ bytes "RUSTFLAGS"
    ∷ bytes "RUSTDOCFLAGS"
    ∷ bytes "CC"
    ∷ bytes "CXX"
    ∷ bytes "AR"
    ∷ bytes "RANLIB"
    ∷ bytes "CFLAGS"
    ∷ bytes "CXXFLAGS"
    ∷ bytes "CPPFLAGS"
    ∷ bytes "PKG_CONFIG"
    ∷ bytes "PKG_CONFIG_PATH"
    ∷ bytes "PKG_CONFIG_LIBDIR"
    ∷ bytes "PKG_CONFIG_SYSROOT_DIR"
    ∷ []

abbrev pub sandbox_only_environment_names : List OsString
sandbox_only_environment_names =
    bytes "HOME"
    ∷ bytes "PATH"
    ∷ bytes "PWD"
    ∷ bytes "RUSTC"
    ∷ bytes "RUSTDOC"
    ∷ bytes "CARGO_HOME"
    ∷ bytes "CARGO_TARGET_DIR"
    ∷ bytes "CARGO_BUILD_BUILD_DIR"
    ∷ bytes "CARGO_NET_OFFLINE"
    ∷ bytes "TMPDIR"
    ∷ []

-- The tests on a name that is text and in upper case.
sensitive_upper : OsString → Bool
sensitive_upper name =
    text_starts_with name (bytes "AWS_")
    || name == bytes "TOKEN"
    || text_ends_with name (bytes "_TOKEN")
    || text_ends_with name (bytes "_TOKENS")
    || name == bytes "PASSWORD"
    || text_ends_with name (bytes "_PASSWORD")
    || name == bytes "PASS"
    || text_ends_with name (bytes "_PASS")
    || name == bytes "SECRET"
    || text_ends_with name (bytes "_SECRET")
    || text_ends_with name (bytes "_SECRET_KEY")
    || name == bytes "CREDENTIAL"
    || text_ends_with name (bytes "_CREDENTIAL")
    || name == bytes "PRIVATE_KEY"
    || text_ends_with name (bytes "_PRIVATE_KEY")
    || name == bytes "API_KEY"
    || text_ends_with name (bytes "_API_KEY")
    || name == bytes "ACCESS_KEY"
    || text_ends_with name (bytes "_ACCESS_KEY")
    || text_starts_with name (bytes "SSH_")
    || text_starts_with name (bytes "GPG_")
    || text_ends_with name (bytes "_AGENT")
    || text_ends_with name (bytes "_AGENT_INFO")
    || text_ends_with name (bytes "_AGENT_PID")
    || text_ends_with name (bytes "_AUTH_SOCK")

sensitive_text : Option OsString → Bool
unfolding sensitive_upper to_ascii_uppercase upper_byte text_starts_with text_ends_with list_beq
sensitive_text none = false
sensitive_text (some text) = sensitive_upper (to_ascii_uppercase text)

unfoldable pub is_sensitive_environment_name : OsString → Bool
unfolding sensitive_text to_str
is_sensitive_environment_name name = sensitive_text (to_str name)

-- `name.to_str().is_some_and(|name| names.contains(&name))`
listed_text : List OsString → OsString → Bool
listed_text names name = elim (to_str name) [ none ↦ false | some text ↦ contains names text ]

unfoldable pub is_allowed_host_environment_name : OsString → Bool
unfolding listed_text to_str list_beq contains
is_allowed_host_environment_name name = listed_text forwarded_host_environment_names name

unfoldable pub is_allowed_sandbox_environment_name : OsString → Bool
unfolding is_allowed_host_environment_name
is_allowed_sandbox_environment_name name =
    is_allowed_host_environment_name name || listed_text sandbox_only_environment_names name
