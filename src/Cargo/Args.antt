-- ===== src/Cargo/Args.antt =====
-- cage-cargo/src/args.rs: the command line of cargo-cage.
pub mod Language
use cargo_cage.Base.{
  ◌≡◌, Bool, true, false, ◌||◌, Option, none, some, List, [], ◌∷◌, Result, ok, err, ◌==◌, list_eq,
  list_beq, nat_eq, if◌then◌else◌,
}
use cargo_cage.Os.Text.{OsString, bytes, to_str}
use cargo_cage.Core.Error.{CageResult, invalid_invocation}

pub data CargoCommand : Type 0 where
  build check test doc : CargoCommand

pub data CargoInvocation : Type 0 where
  help : CargoInvocation
  cargo : (command : CargoCommand) (args : List OsString) (reuse_target : Bool) → CargoInvocation
  doctor : (verbose : Bool) → CargoInvocation

unfoldable pub as_str : CargoCommand → OsString
as_str build = bytes "build"
as_str check = bytes "check"
as_str test = bytes "test"
as_str doc = bytes "doc"

is_help : OsString → Bool
unfolding list_beq
is_help arg = arg == bytes "--help" || arg == bytes "-h"

-- The match on `command.to_str()`.
named_command : OsString → Option CargoCommand
unfolding list_beq
named_command text =
    if text == bytes "build"
    then some build
    else if text == bytes "check"
    then some check
    else if text == bytes "test"
    then some test
    else if text == bytes "doc"
    then some doc
    else none

parse_command : OsString → Option CargoCommand
unfolding named_command to_str
parse_command command = elim (to_str command) [ none ↦ none | some text ↦ named_command text ]

-- The match on the arguments behind `doctor`.
parse_doctor : List OsString → CageResult CargoInvocation
unfolding is_help list_beq
parse_doctor [] = ok (doctor false)
parse_doctor (arg ∷ []) =
    if arg == bytes "--verbose" || arg == bytes "-v"
    then ok (doctor true)
    else if is_help arg
    then ok help
    else err (invalid_invocation "`doctor` accepts only the optional `--verbose` flag")
parse_doctor (arg ∷ other ∷ args) =
    err (invalid_invocation "`doctor` accepts only the optional `--verbose` flag")

parse_doctor_line : Bool → List OsString → CageResult CargoInvocation
unfolding parse_doctor
parse_doctor_line reuse_target args =
    if reuse_target
    then err (invalid_invocation "`--reuse-target` is only valid with build, check, test, or doc")
    else parse_doctor args

parse_cargo_line : Bool → OsString → List OsString → CageResult CargoInvocation
unfolding parse_command
parse_cargo_line reuse_target command args = elim (parse_command command) [
  | none ↦ err (
      invalid_invocation
        "unsupported command; supported commands are `build`, `check`, `test`, `doc`, and `doctor`")
  | some known ↦ ok (cargo known args reuse_target)
]

-- What follows the test for `--reuse-target`.
parse_rest : Bool → List OsString → CageResult CargoInvocation
unfolding is_help parse_doctor_line parse_cargo_line list_beq
parse_rest reuse_target [] = err (
    invalid_invocation (
      if reuse_target
      then "`--reuse-target` needs a Cargo command"
      else "expected `cargo-cage [--reuse-target] <build|check|test|doc|doctor> [OPTIONS]`"))
parse_rest reuse_target (command ∷ args) =
    if is_help command
    then ok help
    else if command == bytes "doctor"
    then parse_doctor_line reuse_target args
    else parse_cargo_line reuse_target command args

unfoldable pub parse_invocation : List OsString → CageResult CargoInvocation
unfolding parse_rest list_beq
parse_invocation [] = parse_rest false []
parse_invocation (first ∷ args) =
    if first == bytes "cage"
    then err (
        invalid_invocation
          "the `cargo cage` dispatcher form is not supported; invoke `cargo-cage` directly")
    else if first == bytes "--reuse-target"
    then parse_rest true args
    else parse_rest false (first ∷ args)

unfoldable pub is_help_request : List OsString → Bool
unfolding parse_invocation
is_help_request args = elim (parse_invocation args) [ ok help ↦ true | _ ↦ false ]
