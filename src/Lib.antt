-- ===== src/Lib.antt =====
-- A model of codexlb, the proxy of gngeorgiev/agent-lb-proxy that spreads the requests of a Codex
-- client over several accounts and child proxies, and what is proved of it.
--
-- The program's parts and their files:
-- * Types (internal/lb/types.go): settings, accounts, quotas and the store file. `merge_defaults`
--   fills what a loaded file lacks (mergeDefaults).
-- * Policy (internal/lb/policy.go): `select_account` chooses the account of the next request among the
--   `candidates`: healthy accounts, those with quota left if there are any. Policy/Score has the quota
--   tests and the score; Policy/Indexes, Safety, Available, Rotation,
--   Usage and Stay have the proofs.
-- * Store (internal/lb/store.go): `update` changes the store in memory and writes store.json; `snapshot`
--   applies the runtime overrides. Store/Accounts has upsert, removal and the reload of settings.
--   Store/Marks has what internal/lb/proxy.go records of an account (markSuccess, markCooldown,
--   markDisabled, markAuthRecovered, expireCooldowns, the pin): each is the function that the method
--   gives to Update. Store/Startup is loadOrInit with reconcileAccountsFromDisk. Store/Pins has the
--   requests to pin an account among the other updates. Store/Invariant, History, Health, Durable,
--   Reconcile, Registered, View and Refinement have the proofs.
-- * Request (internal/lb/request.go): which path a request takes upstream, and what a status means.
-- * Status (internal/lb/status.go) and Quota (internal/lb/quota.go): what is reported of the accounts,
--   and how usage windows are read and pooled.
-- * Routes (internal/lb/child_proxy.go): the children's states, and a route, which is an account or a
--   child, chosen by `select_account` on a store file made for it. Routes/Marks has the records of a
--   child, Routes/Safety the proof.
-- * Serve (internal/lb/proxy.go, child_proxy.go): one HTTP request. Serve/Account is an attempt with an
--   account, Serve/Credentials its credentials, Serve/Child an attempt with a child, and Serve/Loop is
--   handleHTTP. An attempt takes a snapshot, selects, sends, records what came of it in the store, and
--   is done or leaves the request to the next attempt. Serve/Writes, Aside, Failover, Limits, Sound
--   and Whole have the proofs.
-- * Config (internal/lb/config.go): the records of config.toml; Config/Partial merges a file in which any
--   key may be missing into the defaults, Config/Load reads and writes it. Config/Usable and RoundTrip
--   have the proofs.
-- * RuntimeAuth (internal/lb/proxy.go, wrapper.go): handleRuntimeOAuthToken and the accounts it tries,
--   with Candidates, Granted and Served for its proofs.
-- * Targets (cmd/codexlb/main.go): the proxy that a command of the command line talks to and the one
--   that it names. Targets/Owner has the proof.
-- * Maintain (internal/lb/proxy.go, quota.go): maybeRefreshQuota, the refresh of the accounts' quotas.
--   Maintain/Kept, Pass and Sound have the proofs.
-- * Admin (internal/lb/proxy.go, wrapper.go): forwarding to a named proxy; Admin/Handle is handleAdmin for
--   the requests that change the store. Admin/Forward, Sent and Refused have the proofs.
-- * Shell (internal/lb/wrapper.go): the command line that is printed for a shell, and withEnv.
--   Shell/Reader is how a POSIX shell reads words, Shell/Quoting and RoundTrip have the proofs.
-- * ImportAlias (cmd/codexlb/main.go, internal/lb/wrapper.go): the alias of an imported account.
--   ImportAlias/Infer is where it comes from; Valid, Suffix, Unique and Free have the proofs.
-- * Prelude holds what they share; Tests has theorems at concrete inputs.
--
-- How the code is modelled:
-- * An `int` or `int64` is a signed integer; `wrap64` is the wrap-around, written where a sum or a
--   product of the source can leave 64 bits. Indexes are natural numbers; -1 is `none`.
-- * `float64` is a parameter, with the order laws of IEEE 754 as hypotheses where they are used
--   (Prelude/Float). Prelude/Fixed is a number type that meets them, for the tests.
-- * Slices are lists and maps are functions or lists, so `cloneStore` has no definition. A panic, such
--   as an index out of range, is a result of its own (Prelude/Outcome).
-- * A mutex makes each operation under it one step of the model. The pin takes the mutex twice, so it
--   is two steps (Store/Pins). writeJSONAtomic is its calls on two files, any of which may fail.
-- * The clock, the results of LoadAuth and RefreshAuth, the replies of upstream, and whether a write of
--   a file fails are arguments. So are `wide`, the lower case of a code point from 128 on, and `clean`,
--   which is path.Clean.
-- * The loop of handleHTTP recurs on the number of attempts left, max(1, max_attempts) at first, which is
--   the bound of the loop itself. The numerals of statuses have a fuel of 19 digits, as an `int` has.
--
--   The last loop of makeUniqueImportAlias has a fuel; no run reaches it with at most 997 aliases taken.
--
-- Not modelled: reading and writing of JSON and TOML, the event log, headers, the rewriting of rate
-- limits in responses, websockets, the streamed login, the files of `/admin/runtime-auth`, sorting for
-- display, credentials on disk (auth.go), the processes and files of the wrapper and the command
-- line's flags and output (internal/lb/wrapper.go, cmd/codexlb): input and output, or not reached yet.
pub mod Prelude
pub mod Types
pub mod Policy
pub mod Store
pub mod Request
pub mod Status
pub mod Quota
pub mod Routes
pub mod Serve
pub mod Maintain
pub mod Admin
pub mod RuntimeAuth
pub mod Shell
pub mod Config
pub mod ImportAlias
pub mod Targets
pub mod Tests
