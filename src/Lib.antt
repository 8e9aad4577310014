-- ===== src/Lib.antt =====
-- gritty: persistent, automatically reconnecting terminal sessions over Unix domain sockets.
--
-- A daemon (src/daemon.rs) listens on one socket. Each connection is checked for the peer's uid
-- (src/security.rs) and brings one control frame (src/protocol.rs): a session is created, attached
-- to, listed or killed, and for the first two the connection is handed to the session's task
-- (src/server.rs). The client (src/client.rs) sends keyboard input, in which its escape processor
-- finds `~.`, `~^Z`, `~?` and `~~`. `gritty connect` (src/connect.rs) forwards a remote daemon's socket
-- through ssh and starts ssh again when the connection breaks.
--
-- Which file models what:
-- - Prelude: shared names; tests on numbers and texts, lists measured by native numbers, results.
-- - Text: what the program uses of Rust's texts. Text/Utf8: String::from_utf8. Text/Lines: lines,
--   split, split_once, join. Text/Decimal: to_string and parse of unsigned integers.
-- - Protocol: the frames and constants of src/protocol.rs. Protocol/Wire: big-endian integers.
--   Protocol/Encode: Encoder::encode with encode_empty and encode_str. Protocol/Decode:
--   Decoder::decode, whose result is the buffer left and the outcome. Protocol/Shape, Payloads,
--   Vars, Entries, RoundTrip, Framing and Limits hold the proofs. Protocol/Arrival: a reader that
--   decodes a stream as it arrives in pieces.
-- - Client/Escape: EscapeProcessor of src/client.rs; `process` takes the state and a chunk. Its
--   children hold the meaning of the input byte by byte and the proofs.
-- - Client/Relay: relay of src/client.rs, from its opening frames to its end, with Client/Relay/Keys,
--   Typing, Screen, Told, Heartbeat and Idle for the proofs. Client/Reconnect: the tries of the inner
--   loop of run, with Client/Reconnect/Persists for the proofs.
-- - Client/Stdout: write_stdout. Client/Run: the outer loop of run, with Client/Run/Plain and Variables
--   for the proofs. Client/Terminal: RawModeGuard and NonBlockGuard around that loop, with
--   Client/Terminal/Restored for the proofs.
-- - Files: the file system, which src/security.rs and src/daemon.rs call: paths, the calls as fields of a
--   record that the definitions take, and the laws that proofs take. Files/Memory: a file system in
--   memory that meets the laws.
-- - Security: clamp_winsize and verify_peer_uid of src/security.rs. Security/Dirs:
--   secure_create_dir_all, validate_dir, is_trusted_root. Security/Socket: bind_unix_listener. Their
--   children hold the proofs.
-- - Daemon: the session table and its functions (reap_sessions, resolve_session,
--   build_session_entries) of src/daemon.rs. Daemon/Step: one round of the loop of `run`, with the
--   effects on the world as a list and what the sessions' tasks do while the daemon waits as events.
--   Daemon/Table, Invariant, Resolve, Requests, Rounds, Listing and Order hold the proofs.
-- - Daemon/Startup: socket_dir, control_socket_path and the start of `run`, with Daemon/Startup/Ready for
--   the proofs.
-- - Server: the task of one session, run of src/server.rs: the start with the first client, the relay
--   loop and the wait for a client, as a step on the inputs of select! and the answers of the
--   operating system. Server/Trace, Exit, Attached, Relaying and Told hold the proofs. Server/Keyboard:
--   the way from the client's keyboard to the shell. Server/Screen: the way from the shell to the
--   client's terminal. Server/Task: the whole task,
--   with the opening of the PTY, ManagedChild and the abort by the daemon; Server/Task/Hangup holds the
--   proofs.
-- - System: the daemon with the tasks that it spawns, round by round: the hand-over and the abort reach
--   the tasks of src/server.rs, and their ends reach the table. Its children hold the proofs.
-- - Connect: Destination and the arguments of ssh, of src/connect.rs. Connect/Monitor:
--   tunnel_monitor. Connect/Parse, Accepts, Rate and Spaced hold the proofs. Text/Search: find and
--   rfind of a byte.
-- - Connect/Tunnel: remote_exec, ensure_remote_ready, wait_for_socket, ConnectGuard and run of
--   src/connect.rs, with Connect/Tunnel/Cleanup for the proofs.
-- - Main: the commands of src/main.rs and collect_env_vars of src/lib.rs, over a function that says what
--   becomes of a frame sent to the control socket. Main/Timestamp: format_timestamp, where
--   localtime_r is a parameter. Main/Table: list_sessions with its table; Main/Table/Aligned holds the
--   proofs.
--   Main/Requests, Created and Listed: the commands with the daemon and the codec behind that function.
--   Main/Launch:
--   `gritty daemon` with daemonize and its two processes, with Main/Launch/Served for the proofs.
--   Main/Cli: Cli, Command, the dispatch of run, and main, with Main/Cli/Status for the proofs.
-- - Tests: the theorems at concrete inputs.
--
-- Choices. A text is the list of its bytes; that a Rust String is UTF-8 is a hypothesis where it
-- matters. A HashMap is an association list in its iteration order, which no theorem fixes. A u32
-- is a native number: `as u32` and the increment of next_id wrap by % 2 ^ 32 (a debug build panics
-- there instead), and theorems about ids say below which number of rounds no wrap happens. The
-- decimal printer has 20 digits of fuel, enough for every u64. Error values keep the reason and not
-- the words; answers of the daemon keep their words. All loops recur on their input.
--
-- Not modelled: the parsing of the arguments, which clap derives from Cli and Command, so that the
-- parsed Cli is where Main/Cli starts; the umask; logging beyond its filter; what is written to stderr,
-- but for the lines that the commands give back. An abort ends a task in the model at once, where tokio
-- ends it at its next await. tokio, nix and libc are outside the repository: what they give enters as
-- inputs and what they are told is a list of effects. A path is its list of names, so that what Path
-- makes of `.` and of doubled slashes is not modelled.
pub mod Prelude
pub mod Text
pub mod Files
pub mod Protocol
pub mod Client
pub mod Connect
pub mod Security
pub mod Server
pub mod Daemon
pub mod System
pub mod Main
pub mod Tests
