-- ===== src/Linux/Launcher/Options.antt =====
-- cage-linux/src/landlock.rs: the options of the internal launcher.
use cargo_cage.Base.{◌≡◌, refl, ◌==◌, list_eq, nat_eq, list_beq, if◌then◌else◌, String}
use cargo_cage.Os.Text.{OsString, bytes}

-- The options that take a path.
pub data PathOption : Type 0 where
  read execute write lockfile private proc device : PathOption

abbrev pub option_label : PathOption → String
option_label read = "--landlock-read"
option_label execute = "--landlock-execute"
option_label write = "--landlock-write"
option_label lockfile = "--landlock-lockfile"
option_label private = "--landlock-private"
option_label proc = "--landlock-proc"
option_label device = "--landlock-device"

abbrev pub option_text : PathOption → OsString
option_text o = bytes (option_label o)

abbrev pub network_deny_text : OsString
network_deny_text = bytes "--landlock-network-deny"

abbrev pub inherit_environment_text : OsString
inherit_environment_text = bytes "--landlock-inherit-environment"

pub data LauncherOption : Type 0 where
  separator network_deny_option inherit_environment_option unknown : LauncherOption
  path_option : PathOption → LauncherOption

-- The tests on `args[index]`. Its lossy text equals an ASCII text exactly when its bytes do.
unfoldable pub launcher_option : OsString → LauncherOption
unfolding list_beq
launcher_option arg =
    if arg == bytes "--"
    then separator
    else if arg == option_text read
    then path_option read
    else if arg == option_text execute
    then path_option execute
    else if arg == option_text write
    then path_option write
    else if arg == option_text lockfile
    then path_option lockfile
    else if arg == option_text private
    then path_option private
    else if arg == option_text proc
    then path_option proc
    else if arg == option_text device
    then path_option device
    else if arg == network_deny_text
    then network_deny_option
    else if arg == inherit_environment_text
    then inherit_environment_option
    else unknown

-- Each option is recognised as itself.
pub launcher_option-option_text : (o : PathOption) → launcher_option (option_text o) ≡ path_option o
unfolding launcher_option
launcher_option-option_text read = refl
launcher_option-option_text execute = refl
launcher_option-option_text write = refl
launcher_option-option_text lockfile = refl
launcher_option-option_text private = refl
launcher_option-option_text proc = refl
launcher_option-option_text device = refl
