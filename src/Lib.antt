-- ===== src/Lib.antt =====
-- The runtime of openab-pty: interactive terminal sessions that outlive their clients. An admin
-- plane creates, renews, kills and restarts sessions; a client attaches with a token to the one
-- connection that may write. Output of the child passes a capability proxy into a scrollback
-- buffer and to the attached client; input of the client passes a filter into the child.
--
-- The modules and the code they are about (paths from the repository's root):
--
--   Crate        runtime/src/lib.rs: session names, errors, close codes
--   RingBuf      runtime/src/ringbuf.rs: RingBuffer (Scrollback) and ByteQueue (Queue)
--   Scan         the loop that runtime/src/termfilter.rs and runtime/src/capproxy.rs share in
--                shape: find an ESC, look at what starts there, cut or keep it
--   TermFilter   runtime/src/termfilter.rs: TermFilter::filter and its classifiers
--   CapProxy     runtime/src/capproxy.rs: CapabilityProxy (Kitty: keyboard model; Text: numbers and
--                parameters; Osc: colour queries; Inspect: dispatch, process and resync)
--   Audit        runtime/src/audit.rs: audit events as values
--   Token        runtime/src/token.rs: TokenStore and AttachVerifier (Laws, Mint, Acceptance)
--   Session      runtime/src/session.rs: Policy (SessionPolicy, WindowSize), Environment
--                (child_env), Outbound, Takeover
--                (TakeoverLimiter), Handle (Session, its I/O mirror and threads), Attach (attach,
--                renew, teardown and tick on one session; Steps: any interleaving of them;
--                Calm, Takeovers: what they grant), Manager (SessionManager: its maps; Admin:
--                create, renew, kill, restart; Client: attach; Ticker:
--                list, the notice of a shutdown, tick, shutdown)
--   Tools        runtime/src/tools.rs: Attached (its calls and close; Mux: any order of them with a
--                log, Routing, Closing), Hub (ToolsHub: grants, keys, attaches, sweep; Runs: any
--                order of its operations), Loopback (the methods that a session's CLI calls)
--   Kill         runtime/src/killdomain.rs: GlobalTracking, SessionKillDomain and the teardown's
--                escalation (Wait, Teardown, Tracking)
--   AdminAuth    runtime/src/admin_auth.rs: AdminAuthenticator (Table: the failures per source;
--                Blocks; Credential)
--   Config       runtime/src/config.rs: validate_projection (Env: interpolation; Fields; Validate;
--                Accepted and Total: what it promises)
--   Server       runtime/src/server.rs: parse_client_control, the bearer tokens, listener_guard, the close
--                codes; Limiter (UpgradeFailureLimiter: Size, Kept, Bans, Uses), ReadLoop (read_loop on a sequence of
--                messages and ping intervals: Silence, Strikes, Outsider)
--   Base         shared names, Boolean tests on the native numbers, lists, maps keyed by bytes (Keys:
--                maps with each key once)
--
-- A struct is a record with the source's field names, an enum a data type, a method a function that
-- returns the new state beside its result. What a method does under the session's lock is one
-- function and what it does after the lock's release another (attach_locked, attach_deliver;
-- renew_locked; teardown_locked), so that Session.Attach.Steps can put steps of other threads
-- between them. An Arc<Outbound> is named by its connection's number.
--
-- Numbers: counters and lengths saturate or wrap where the source does (saturating_add, add_word,
-- 2 ^ 64); instants and durations are nanoseconds, in
-- Kill and AdminAuth milliseconds. Times do not overflow. The numbers of a session's connections and
-- its generations are unbounded here (own, renew_locked, retire): they are u64 in the source, which
-- differs only after 2^64 attaches or renewals of one session.
--
-- Steps: every operation of ToolsHub is one step, also sweep and the attach of a socket (install), which
-- release the lock of the map in the middle, so that its results are about sequences of whole operations.
--
-- Fuel: the scan loop runs on the length of its chunk, and every turn uses up a byte; classifiers
-- run on the source's own bound of 256 bytes; numbers print with fuel above their digit count. The wait of a
-- teardown runs on its budget divided by the poll step, and two rounds more, which suffice if the
-- clock obeys its laws (Kill.Wait.ClockLaws). The interpolation of a text runs on its length.
--
-- Parameters: SHA-256 (crate sha2), the random bytes of a mint (crate getrandom), where a VecDeque
-- wraps, the PTY's resize (crate portable-pty), what opening the kill domain and spawning came to,
-- JSON values (crate serde_json), the hexadecimal decoder (crate hex), and the table of processes
-- with the signals into it (the kernel), the TOML parser (crate toml), the environment's variables, and
-- the standard library's parser of IP addresses, and the header map (crate http).
--
-- Not modelled: wake-ups of tasks, the report of the metrics, log lines, JSON forms, the routes, the writer
-- task and the drain of the HTTP server,
-- the MCP handshake and the admin summary of the tools plane, the system calls behind the kill
-- domain, the seed and the hooks.
pub mod Base
pub mod RingBuf
pub mod Crate
pub mod Scan
pub mod TermFilter
pub mod CapProxy
pub mod Audit
pub mod Token
pub mod Session
pub mod Tools
pub mod Kill
pub mod AdminAuth
pub mod Config
pub mod Server
