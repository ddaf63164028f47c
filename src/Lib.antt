-- ===== src/Lib.antt =====
-- Verification of pmg, a proxy that stands between package managers and their registries: it asks
-- analyzers about every package that is downloaded, refuses malware, asks the user about suspicious
-- packages, and hides versions that were published too recently.
--
-- The parts, in the order in which a request meets them:
--
--   proxy/interceptors/registry_config.go   Registry/Hosts          GetConfigForHostname
--   proxy/interceptors/npm_registry.go      Registry/NpmRegistry    HandleRequest, ShouldMITM
--   proxy/interceptors/pypi_registry.go     Registry/PypiRegistry   HandleRequest, ShouldMITM
--   proxy/interceptors/npm_url_parser.go    Registry/NpmUrl         ParseURL and the tarballs' names
--   proxy/interceptors/pypi_url_parser.go   Registry/PypiUrl        ParseURL; Versions: the patterns
--   proxy/interceptors/base_registry.go     Registry/Interceptor    analyzePackage,
--                                                                   handleAnalysisResult
--   proxy/interceptors/confirmation.go      Registry/Confirmation   HandleConfirmationRequests
--   proxy/interceptors/cache.go             Registry/Cache          the cache of analyses
--   proxy/interceptors/stats.go             Registry/Stats          the statistics of a run
--   proxy/interceptors/cooldown.go          Registry/Cooldown, Registry/CooldownReport
--   proxy/interceptors/npm_cooldown.go      Registry/NpmCooldown, Registry/NpmRegistry
--   proxy/interceptors/pypi_cooldown.go     Registry/PypiCooldown, Registry/PypiRegistry
--   config/trusted.go                       Trusted                 isTrustedPackageVersion
--   analyzer/analyzer.go, malysis_query.go  Analysis                results, the service's verdict
--   analyzer/composite.go                   Analysis/Composite      compositeAnalyzer.Analyze
--   analyzer/aikido_intel.go                Analysis/Aikido         Analyze, getSnapshot, Refresh
--   internal/policy/policy.go,
--   analyzer/policy_analyzer.go             OrgPolicy               the organization's policy
--   internal/audit/audit.go                 Audit                   the events, as a log
--   sandbox/policy.go                       Sandbox                 policies and inheritance
--   config/sandbox_allow.go                 SandboxAllow            parseSandboxAllowOverrides
--   sandbox/executor/apply.go               SandboxAllow/Overrides  applyRuntimeOverrides
--   guard/guard.go                          Guard                   Run,
--                                                                   handleManifestInstallation
--   internal/shellwords/shellwords.go       Shellwords              Split
--   packagemanager/npm.go                   PackageManagers/Npm     ParseCommand, npmParsePackageInfo
--   packagemanager/pypi.go                  PackageManagers/Pypi    pypiParsePackageInfo; Commands:
--                                                                   ParseCommand; Constraints: Poetry's
--   sandbox/util/variables.go, glob.go      SandboxUtil             ExpandVariables, ContainsGlob
--   sandbox/util/glob.go                    SandboxUtil/GlobRegex   GlobToRegex
--   sandbox/util/dangerous.go               SandboxUtil/Dangerous   GetMandatoryDenyPatterns; Secrets:
--                                                                   the files with credentials
--   sandbox/platform/glob_linux.go          Platform/Globs          the expansion of `**`
--   sandbox/platform/bubblewrap_*_linux.go  Platform/Bubblewrap     translate; Rules: the rules of a
--                                                                   path, Translator: the whole
--   sandbox/platform/
--   seatbelt_translator_darwin.go,
--   sandbox/util/tmpdir.go                  Platform/Seatbelt       Translator: translate; Essential:
--                                                                   what every profile allows
--   sandbox/platform/landlock_*_linux.go    Platform/Landlock       landlockTranslatePolicy
--   sandbox/platform/
--   landlock_seccomp_linux.go               Platform/Landlock/      the filter, the decisions on a
--                                           Supervisor              notification, the loop
--
-- How they interact: `handle_request` finds the registry of the hostname and lets its parser read
-- the path. A request for metadata becomes a modifier of the response (`modify_metadata`), which
-- strips the versions of the window. A request for a file goes to `handle_download`: the trusted
-- packages and the cache are consulted, then the analyzer behind a circuit breaker; what it returns
-- is the outcome of `analyze` over the outcomes of the single analyzers, among them `classify` (the
-- malware service) and `policy_analyze`. `handle_analysis_result` answers, counts and reports.
--
-- Apart from the proxy, `run` of the guard resolves the targets of a command, has all packages
-- analyzed by its workers, and runs the command only after `judge`.
--
-- A command is first parsed (`npm_parse_command`, `pypi_parse_command`): what it installs goes to the
-- guard, and whether it may download anything decides if the proxy runs. The command itself runs in a
-- sandbox: a policy with its inheritance merged is translated by `translate` to the options of
-- bubblewrap, whose mounts Bubblewrap/Mounts gives a meaning (the last mount that covers a path decides
-- what may be done with it), or by `landlock_translate_policy` to path rules and deny lists; the deny
-- lists are enforced by the supervisor, to which the kernel reports the system calls that the filter
-- names. On macOS it is translated by `seatbelt_translate` to the rules of a profile, to which
-- Seatbelt/Verdicts gives a meaning (the last rule that applies to an access decides).
--
-- How Go is written here: a function of the source is a function by clauses of the same name; a
-- struct is a record, an interface's methods that belong to a library are parameters; a method that
-- changes its receiver returns the new value; an error is a result; a panic is `panicked`. A lock is
-- held from the first line of a method to its last wherever one is taken (of the cache, of the
-- statistics), so the calls of these methods are taken one after the other, in any order. No lock
-- spans a whole request: `run_all` takes requests that do not overlap, and Registry/Interceptor/Steps
-- has those that do: a request begins, and its analysis ends at a later step. A channel read in a loop is the list of what arrives, in any order.
-- A Go map is a list of entries without a repeated key, where it is iterated in any order. Text is a
-- list of code points. Times are nanoseconds since Go's zero time, and `time.Since` saturates at the
-- greatest int64; whole days are computed exactly where the source divides floating-point hours. The
-- `int` counters are unbounded, but what `strconv.Atoi` reads and increments is a 64-bit number that
-- wraps around (Prelude/Decimals). A mask of rights is the list of its rights. Loops are structural
-- recursion on a list, so there is no fuel, with three exceptions: the deny rule that calls itself on
-- a parent directory has fuel for two calls, and no more are made; a number is written with 20 digits,
-- enough for 64 bits; the walk up to the root (`get_ancestor_directories`) has as much fuel as the path
-- is long, and every directory is shorter than what is in it.
--
-- Parameters: the case folding of code points beyond ASCII, the parser of package URLs, the
-- circuit breaker's state (`Breaker`), `time.Parse`, the outcome of an analyzer, the replies of
-- the user and of the malware service, the JSON decoder (a document is given as its members); for
-- the guard the resolver, the analyzers, the extraction of manifests, the user and the order in
-- which the workers' results arrive (`World`); for the parsers of commands the flag parser (pflag)
-- and the version that the registry resolves (`Tools`); for the feed of malware the semver library
-- (`Semver`) and what a load finds (`Load`); for the sandbox the host: the state of a path, the
-- matches of a pattern and the paths of a walk (`Host`), for the supervisor the memory and the links
-- of the processes (`Proc`), for seatbelt the variable TMPDIR and the kernel that matches a regular
-- expression and knows a device (`Kernel`).
--
-- Shared: Prelude (names of the libraries, tests on numbers, lists over the native numbers),
-- Prelude/Strings and Prelude/StringLaws (Go's `strings`), Prelude/Regex (anchored patterns of
-- `regexp`), Prelude/Decimals (`strconv`), Prelude/Result, and Paths (`path/filepath`). Tests holds runs on
-- concrete inputs and the theorems at concrete data.
--
-- Not modelled: the transport of the proxy and its certificates (proxy/, proxy/certmanager), the
-- loading of the configuration (config/ but trusted.go and sandbox_allow.go), the resolvers and
-- executors of packagemanager/, the messages in the rules of a seatbelt profile and its text, the
-- text that renders a Landlock policy, the system calls by which the supervisor waits and replies,
-- the lookup and lint of sandbox policies and the record of their violations, the sinks of the audit
-- log, aliases, shims, the terminal's user interface and the commands.
pub mod Prelude
pub mod Shellwords
pub mod Analysis
pub mod OrgPolicy
pub mod Trusted
pub mod Audit
pub mod Guard
pub mod Registry
pub mod Sandbox
pub mod Paths
pub mod SandboxUtil
pub mod SandboxAllow
pub mod Platform
pub mod PackageManagers
pub mod Tests
