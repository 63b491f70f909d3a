-- ===== src/Lib.antt =====
-- Verification of the desktop daemon of synth-hires-bridge, which lets a web cockpit act on its
-- owner's machine. Paths below are those of the repository; the crates stand in
-- apps/desktop-daemon/crates.
--
-- The server sends frames over one WebSocket. ws_client.rs registers an action with the task registry,
-- logs it, checks its scope with the capability gate and, for a path, has its owner consent to what
-- the gate does not allow; an action that waits for its owner is parked and resumed later. A mutation
-- is checkpointed first. The connection watches its heartbeats and reconnects, and the daemon checks
-- for signed updates. The owner binds the daemon to an account through a server on this machine, or
-- with a code.
--
--   Capability   daemon-core/src/capability.rs: the gate and its symlink guard. Paths are lists of
--                components; `canonicalize` is an argument, and so is the platform, which the source
--                fixes at build time. The probe loop has as many rounds as the path has components
--                and one more: each round drops one component.
--   Consent      daemon-core/src/consent.rs: the broker of prompts. A channel is a number.
--   Tasks        daemon-core/src/task_registry.rs: the shared list of tasks and its cancellations.
--   Protocol     daemon-protocol/src/lib.rs: the frames and JSON values.
--   Ws           daemon-core/src/ws_client.rs and health.rs. Ws.Base: state and results. Ws.Scope,
--                Ws.PathGate, Ws.Action: `handle_action`, `path_gate`, `handle_frame` and the parked
--                actions. Ws.Mutations, Ws.RestoreArm: the arms that change files and
--                `checkpoint_before`, over any engine. Ws.ReadArms: the macro `dispatch_op!` and
--                the arms of reading and of listing checkpoints. Ws.Redact: the audit log's
--                redaction. Ws.Connection, Ws.Reconnect: the event loop of `connect_once` after
--                its hello, and `run`.
--   Update       daemon-core/src/autoupdate.rs: version order, signature gate and hash check.
--   Checkpoint   daemon-core/src/checkpoint.rs: `capture`, `restore`, `list` and the budget. The eviction loop
--                has as much fuel as the index has entries and one more: each eviction drops one.
--   Proc         daemon-core/src/proc_ops.rs: the log ring of a managed process, and in Proc.Engine the
--                processes with the tasks that watch them, as a sequence of events on one engine.
--   Shell        daemon-core/src/shell.rs: the capped buffer, the readers of a command's two pipes, and
--                `run` with `await_result` (Shell.Run). A process is a record of what it does.
--   Pty          daemon-core/src/pty_ops.rs: the scrubbing of escape sequences, the output buffer, the
--                wait of `run` (Pty.Settle) and the sessions (Pty.Sessions, Pty.Rooms). The slices of a
--                wait are a list, so the loop needs no fuel.
--   Chat         daemon-core/src/chat_store.rs: migrations (Chat.Schema) and upserts, each SQL statement
--                as a function on tables; Ws.ChatPush is `handle_chat_push` over them.
--   Fs           daemon-core/src/fs_ops.rs: the base64 codec of file contents. Fs.Disk: the disk and
--                `write_via_unique_tmp`, where every call of the system may fail as `Faults` says.
--                Fs.Text, Fs.Hashline: `lines`, the lossy decoding, the anchors and the edits of a patch.
--                Fs.Ops: `read`, `write` and `patch` behind `gate_for_path`. Links are followed up to 40
--                times, as Linux does.
--   Frames       daemon-core/src/lsp_ops.rs and dap_ops.rs: the frames of the bridges to language servers and
--                debuggers, and the loop that reads them. A round for each byte and one more is enough.
--   Pairing      daemon-core/src/pairing.rs and keyring.rs: the check of a backend address, the exchange
--                of a code (Pairing.Complete), the endpoint of the connection. Pairing.Safe: the safe addresses,
--                by the shape of their text.
--   Server       daemon-cli/src/server.rs: the guards, the nonce, and the handlers over one state.
--                Server.Spec: the session that the server promises.
--   Errors       daemon-core/src/lib.rs: `DaemonError` and `Result`.
--   Prelude      numbers, lists, texts and maps that the others share.
--
-- Numbers are natural numbers; where the source adds on 32 or 64 bits the bound is written out, and its
-- saturating subtraction is the subtraction of natural numbers. A mutex is taken and left within one
-- step, so the state is passed along. Third-party code (Uuid, hashes, signatures, HTTP, JSON texts) is
-- an argument of what uses it.
--
-- Not modelled: the other arms of the capability dispatch, which are arguments of the connection
-- here, so what is shown holds whatever they do; the handshake; the deletion, the listing and the
-- watching of files, which need directories; the engines of browsers and the memory store, which
-- drive other programs; the requests of language servers and debuggers, of which only the frames
-- are here; the queries of the archive; user interfaces and the mobile apps. HTTP routing, its CORS
-- layer and the system's keyring are third-party code.
pub mod Prelude
pub mod Errors
pub mod Pairing
pub mod Server
pub mod Shell
pub mod Pty
pub mod Chat
pub mod Capability
pub mod Consent
pub mod Tasks
pub mod Protocol
pub mod Ws
pub mod Update
pub mod Checkpoint
pub mod Proc
pub mod Fs
pub mod Frames
