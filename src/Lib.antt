-- ===== src/Lib.antt =====
-- Tailpreview publishes services that run on localhost at private HTTPS ports of a tailnet. The
-- program keeps a registry of previews in a file, has Caddy route each preview's gateway port to the
-- services, and has Tailscale Serve route an HTTPS port to the gateway port.
--
-- The parts and their models:
-- - Base: lists, texts, results and tests. A Go string is the list of its code points; EqualFold has
--   the whole of Unicode's simple case folding (Fold), and ToLower treats the runes whose lower case is
--   ASCII, which are all that the program can tell apart.
-- - Model (internal/model/model.go): the records of the registry. Times and durations are naturals, in
--   nanoseconds; ports and status codes are naturals, since every branch treats a negative number as
--   it treats one below the range.
-- - Url (net/url, net): a parsed URL with its accessors. url.Parse, url.ParseRequestURI and net.ParseIP
--   are a parameter, the record Net.
-- - Config (internal/config): Resolved, Validate and what it calls, ParseRoute, ParseSet; Substitute has
--   the variables of a file, Decode the UnmarshalYAML methods and ParseDuration, Load and Discover the
--   functions of these names. The proofs are in Sound, Values/Printed, Substitute/Pieces and Missing,
--   Load/Optional and Sound, and Discover/Nearest. Reading files, os.Stat, the environment,
--   time.ParseDuration and the YAML parser are the records Files, Disk and Yaml: the parser gives the
--   fields of a document in order, with the nodes of the checks and lifetimes, which the methods of the
--   program decode. A path is the list of its elements. A document with a negative number is taken as
--   one that the parser refuses.
-- - Errors (internal/app/errors.go): the errors as values, and the payload of an error.
-- - Host: the collaborators of app.Service as one record of answers, each of which may depend on the
--   whole history of calls, so that they may fail at any point; the world is the registry file
--   (internal/state/store.go) and that history. Monad is state with exceptions, Calls has one action for
--   each call, Keeps, Invariant, Ends and Session have the proof rules.
-- - Service (internal/app/service.go): Select, Naming, Usage and Port have the functions that the
--   methods call; Up, Check, Down, Listing and Gc have the methods; Command makes one step of each
--   of these methods. The proofs are in Valid and Command/Invariant (validity of the
--   registry), Command/Work and Command/Session (the lock), Undo, Atomic and Command/Atomic
--   (failures), Rollback (Up), Handoff (Check), Swept and Collected (GC), Eviction (sorting and
--   eviction) and Slug (names).
-- - Verification (internal/app/verification.go): Origin compares origins, Redirect has the policy and
--   the redirect loop of http.Client, Attempt has verifyOne with its retries and Run has Verify; the
--   network, the clock and the context are the record Web. Origin/Meaning, SameOrigin, Accepted, Results, Report,
--   Bounds and Deadline have the proofs.
-- - Tailscale (internal/tailscale/client.go): a decoded JSON value, the searches in it (Search) and the
--   methods of CLI (Client); Public has the proofs. The runner and json.Unmarshal are the record Cli.
-- - Health (internal/health/health.go): Check has one, CheckOnce and Wait over services, a clock and a
--   context that are the record Site; Wait, Ends and Passes have the proofs.
-- - Arguments (cmd/tailpreview/main.go): parseHealthRange, parseVerificationCheck, applyRouteBooleans,
--   containsArg and findHealth; Sound and Written have the proofs. A negative number reads as zero, since the ranges
--   refuse both.
-- - Cli (cmd/tailpreview/main.go): Project finds the project and its name, Flags has the merge of the
--   flags of up with the configuration, and Program the methods of cli as invocations; Merged and
--   Program/Found, Steps and Failed have the proofs. Exit has run with its exit codes, doctor and service.
--   Package flag, git and os.Getwd are the records UpFlags and Shell.
-- - Json: a decoded JSON value, which Tailscale reads and Caddy writes.
-- - Store (internal/state/store.go): Load and Save by their system calls on files that are a function
--   from paths, and Lock with the descriptors of Lock and Close. Atomic and Refines have the proofs. A
--   temporary file has another name than the registry file, and a registry that is nil and one that is
--   empty are the same.
-- - Caddy (internal/caddy): Config has config.go up to json.MarshalIndent, Manager and Start have
--   manager.go; a connection to the socket succeeds while Caddy runs, and Caddy takes a configuration
--   if it answers with a success. Dialed, Served, Applied, Stale, Start and Requests have the proofs.
-- - Scheduler (internal/scheduler/scheduler.go): Install and Uninstall on the files of Store, with the
--   rendered units; Escape and Installed have the proofs.
-- - Doctor (internal/doctor/doctor.go): Run as the reports after each check; Healthy has the proof.
-- - Directories (internal/paths/paths.go): Resolve, fromRoots and Ensure.
-- - Tests: concrete services and worlds, runs, and the theorems at concrete inputs.
--
-- The record Host answers for the Caddy manager, the Tailscale client, the health checker, the verifier
-- and the store at once, so what is proved of Service holds whatever they do.
--
-- Recursion is structural but for five functions. itoa takes one more than its argument as fuel,
-- which falls by a factor of ten in each round. The redirect loop takes five, the number of requests
-- after which the policy refuses every redirect. The retries of verifyOne take one attempt at once,
-- one for each pause of 250 milliseconds in the timeout, and one after it; the rounds of Wait likewise,
-- with its 500 milliseconds, and the turns of Caddy's start with its 100 milliseconds. sort.Slice is
-- insertion sort, as it is for at most twelve elements; the pool has ten ports.
--
-- Not modelled: internal/process, which runs programs with package os/exec and is a parameter everywhere,
-- internal/buildinfo, the encoding of JSON, the text of most errors, package flag and the printing of
-- results, which are input and output or libraries.
pub mod Base
pub mod Model
pub mod Url
pub mod Arguments
pub mod Cli
pub mod Store
pub mod Json
pub mod Caddy
pub mod Scheduler
pub mod Doctor
pub mod Directories
pub mod Health
pub mod Tailscale
pub mod Verification
pub mod Errors
pub mod Host
pub mod Config
pub mod Service
mod Tests
