-- ===== src/Lib.antt =====
-- cargo-cage runs Cargo commands inside a Linux sandbox that is made of Bubblewrap, Landlock and a
-- control group. This library models the parts of it that decide what a sandboxed process may see
-- and write, and states what these decisions are.
--
-- How the parts interact. cargo-cage reads its command line (cage-cargo/src/args.rs), validates the
-- target directory and the lockfile (cage-cargo/src/paths.rs), rewrites Cargo's path options for
-- the sandbox (cage-cargo/src/workspace.rs), and hands a request to the Linux backend
-- (cage-linux/src/backend.rs). The backend merges the environment, canonicalizes the paths of the
-- policy (cage-core/src/paths.rs), checks that they stay apart, checks the trees that it will mount
-- (cage-linux/src/tree.rs), and writes the command line of Bubblewrap
-- (cage-linux/src/backend/mounts.rs). Bubblewrap starts the internal launcher, which parses its own
-- arguments and restricts itself by Landlock (cage-linux/src/landlock.rs).
--
-- The files:
-- - Base: results, lists, tests and sorting, which all parts share.
-- - Os: byte strings with the tests of `str`, paths as lists of components, decimal numbers, and
--   the file system. What the host's kernel answers is a record of functions, Os.Fs.Fs, and a
--   parameter of every definition that asks; it does not change while a check runs.
-- - Core.Error, Core.Request: cage-core/src/error.rs and backend.rs. An error keeps its kind, its
--   subject and its rule; remedies and details are texts for a reader and are left out.
-- - Core.Limits, Core.Environment: cage-core/src/policy.rs (`ResourceLimits::validate`, the filters
--   on names of variables).
-- - Core.Paths: cage-core/src/paths.rs, `canonical_existing_path_without_symlinks`.
-- - Linux.Overlap: the pure checks of cage-linux/src/backend.rs, such as `validate_writable_paths`.
-- - Linux.Sources, Linux.CargoHome, Linux.Plan.FromRequest: cage-linux/src/backend.rs,
--   `SandboxPlan::from_request` with what it calls. Linux.Plan.FromRequest.Invariant says what a
--   safe plan is.
-- - Linux.Merge: `merged_environment` of cage-linux/src/backend.rs.
-- - Linux.Plan, Linux.Mounts: cage-linux/src/backend/mounts.rs, the arguments of Bubblewrap and of
--   the launcher. Linux.Launcher: cage-linux/src/landlock.rs, the parser of the launcher's
--   arguments; Linux.Launcher.Rules has the rules and Linux.Launcher.Launch the rest of
--   `run_internal_launcher`.
-- - Linux.Tree: cage-linux/src/tree.rs, mount roots, hardlinks, the mount table, and the walk of
--   `validate_tree` (Linux.Tree.Walk, Linux.Tree.Validate).
-- - Linux.Resources: cage-linux/src/resources.rs, the selection of the limits and, in
--   Linux.Resources.Report, the report of a run.
-- - Linux.Bwrap: cage-linux/src/backend.rs, `LinuxSandbox::new`, `find_bwrap`, `default_launcher`
--   and `parse_version`. A text that is no UTF-8 is split as its bytes are.
-- - Linux.Delegated: cage-linux/src/resources.rs, `find_delegated_parent`, with the control files
--   as a parameter.
-- - Linux.Run: the run of a plan as a session of calls to a host. Linux.Run.Session has the calls,
--   the host and the steps; Linux.Run.Cgroup and Linux.Run.Group are `ResourceGroup` of
--   cage-linux/src/resources.rs; Linux.Run.Wait, Linux.Run.Output and Linux.Run.Capture are
--   cage-linux/src/backend/process.rs; Linux.Run.Inner is `run_inner` and the second half of `run`
--   in cage-linux/src/backend.rs, with Linux.Run.Inner.Preflight for the latter. Linux.Run.Quiet
--   has the steps that start no process.
-- - Cargo.Args, Cargo.Options, Cargo.Target, Cargo.Lockfile: cage-cargo/src/args.rs, paths.rs and
--   workspace.rs. Cargo.Policy, Cargo.HostEnvironment: cage-cargo/src/policy.rs and environment.rs.
-- - Cargo.Driver: cage-cargo/src/lib.rs, the request that `run_cargo` makes, and its exit code.
-- - Cargo.Workspace: cage-cargo/src/workspace.rs, `locate_workspace` and `sandbox_current_dir`,
--   with the backend as a function of the request and CARGO_TARGET_DIR as a parameter;
--   Cargo.Workspace.Located is the search as a whole. Os.Text.White and Os.Text.Lossy are
--   `str::trim` and `from_utf8_lossy`.
-- - Tests: runs at concrete inputs, and each theorem at one of them.
--
-- Bounds and fuel. A file descriptor is written with twenty decimal digits at most, which hold
-- every u64. The climb from a path to its ancestors, Linux.Mounts.climb, has the length of the path
-- as fuel, and each step takes a component away: this is enough. The walk over a tree,
-- Linux.Tree.Walk.walk, has two rounds more than the tree has directories below its root, and each
-- round takes a directory away. The loops that wait (Linux.Run.Group.await_empty,
-- Linux.Run.Wait.wait_loop, Linux.Run.Output.capture_loop) have as many rounds as their sleeps fit
-- into the time, which is told in nanoseconds, and one more; a killed child is waited for in as
-- many rounds more as the host says. The climb to a delegated group, Linux.Delegated.climb_to, has
-- the length of the path and one more. All other loops are structural. A u8 in the decoder of the
-- mount table wraps at 256. The counts of hardlinks are at most the number of files in memory and
-- are not cut at 64 bits.
--
-- Paths are lists of components: a path that is written out has no repeated slashes and no inner
-- dots, and what the source does with the spelling of such a path is not modelled. Windows prefixes
-- do not occur on Linux. Rust's `to_string_lossy` only makes texts for a reader.
--
-- Not modelled: opening mount sources and passing file descriptors, the creation of directories,
-- finding the current control group and creating that of a run (cage-linux/src/resources.rs),
-- finding the toolchain, and the programs' entry points. A run is told from one thread: what the
-- threads that read pipes do meanwhile is an answer of the host.
pub mod Base
pub mod Os
pub mod Core
pub mod Linux
pub mod Cargo
mod Tests
