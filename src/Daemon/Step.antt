-- ===== src/Daemon/Step.antt =====
-- One round of the loop of `run` in src/daemon.rs.
use ttyleport.Prelude.{
  ℕ, ◌+◌, ◌^◌, ◌%◌, Bool, true, false, List, [], ◌∷◌, ◌++◌, Option, none, some, Bytes, codes,
  is_empty, ◌==◌, if◌then◌else◌, Result, ok, err,
}
use ttyleport.Text.Decimal.{to_string}
use ttyleport.Protocol.{
  Frame, DecodeError, new_session, attach, list_sessions, kill_session, kill_server,
  session_created, session_info, ok_frame, error_frame,
}
use ttyleport.Security.{PeerError, verify_peer_uid}
use ttyleport.Daemon.{
  SessionMetadata, SessionState, Sessions, reap_sessions, lookup, remove, insert, find_by_name,
  resolve_session, build_session_entries,
}

pub record Daemon : Type 0 where
  pub sessions : Sessions
  pub next_id : ℕ

abbrev pub initial : Daemon
initial = record { sessions = []; next_id = 0 }

-- What the daemon does to the world, in order: an answer on the connection, the connection handed
-- to a session's task, a task aborted, the socket and the PID file removed. Failures of these are
-- ignored in the source.
pub data Effect : Type 0 where
  reply : Frame → Effect
  hand_off : (id : ℕ) → Effect
  abort : (id : ℕ) → Effect
  remove_files : Effect

-- How the round ends: the loop goes on, `run` returns `Ok`, or `run` returns an error.
pub data Next : Type 0 where
  again done failed : Next

abbrev pub Outcome : Type 0
Outcome = Daemon × List Effect × Next

abbrev pub name_exists : Bytes → Bytes
name_exists n = codes "session name already exists: " ++ n

abbrev pub no_such_session : Bytes → Bytes
no_such_session s = codes "no such session: " ++ s

abbrev pub answer : Daemon → Frame → Outcome
answer d frame = (d, reply frame ∷ [], again)

abbrev pub name_opt : Bytes → Option Bytes
name_opt name = if is_empty name then none else some name

abbrev pub is_some : Option ℕ → Bool
is_some none = false
is_some (some _) = true

-- `sessions.values().any(|s| s.name.as_deref() == Some(n))`, only for a name that is given
unfoldable pub is_dup : Sessions → Option Bytes → Bool
is_dup sessions none = false
is_dup sessions (some n) = is_some (find_by_name sessions n)

abbrev pub fresh_session : Option Bytes → SessionState
fresh_session name = record { finished = false; closed = false; metadata = none; name = name }

-- `next_id += 1` on a u32; a debug build would panic at the wrap.
unfoldable pub create_session : Daemon → Option Bytes → Outcome
create_session d name = (
  record d {
    sessions = insert d.next_id (fresh_session name) d.sessions;
    next_id = (d.next_id + 1) % 2 ^ 32;
  },
  reply (session_created (to_string d.next_id)) ∷ hand_off d.next_id ∷ [],
  again,
)

unfoldable pub handle_new_session : Daemon → Bytes → Outcome
handle_new_session d name =
    if is_dup d.sessions (name_opt name)
    then answer d (error_frame (name_exists name))
    else create_session d (name_opt name)

-- `closed` is `state.client_tx.is_closed()` of the session found.
abbrev pub attach_to : Daemon → Bytes → ℕ → Bool → Outcome
attach_to d session id true =
    answer (record d { sessions = remove id d.sessions }) (error_frame (no_such_session session))
attach_to d session id false = (d, reply ok_frame ∷ hand_off id ∷ [], again)

abbrev pub is_closed : Option SessionState → Bool
is_closed (some s) = s.closed
is_closed none = true

abbrev pub reaped : Daemon → Daemon
reaped d = record d { sessions = reap_sessions d.sessions }

abbrev pub attach_found : Daemon → Bytes → Option ℕ → Outcome
attach_found d session (some id) = attach_to d session id (is_closed (lookup id d.sessions))
attach_found d session none = answer d (error_frame (no_such_session session))

unfoldable pub handle_attach : Daemon → Bytes → Outcome
handle_attach d session = attach_found d session (resolve_session d.sessions session)

abbrev pub kill_found : Daemon → Bytes → Option ℕ → Outcome
kill_found d session (some id) =
    (record d { sessions = remove id d.sessions }, abort id ∷ reply ok_frame ∷ [], again)
kill_found d session none = answer d (error_frame (no_such_session session))

unfoldable pub handle_kill_session : Daemon → Bytes → Outcome
handle_kill_session d session = kill_found d session (resolve_session d.sessions session)

unfoldable pub abort_all : Sessions → List Effect
abort_all [] = remove_files ∷ []
abort_all ((id, s) ∷ sessions) = abort id ∷ abort_all sessions

-- `match frame`
unfoldable pub handle : Daemon → Frame → Outcome
handle d (new_session name) = handle_new_session d name
handle d (attach session) = handle_attach (reaped d) session
handle d list_sessions =
    answer (reaped d) (session_info (build_session_entries (reaped d).sessions))
handle d (kill_session session) = handle_kill_session (reaped d) session
handle d kill_server =
    (record d { sessions = [] }, abort_all d.sessions ++ reply ok_frame ∷ [], done)
handle d _ = answer d (error_frame (codes "unexpected frame type"))

-- What `select!` gives, with the credentials of the peer and what `framed.next()` gives.
pub data Input : Type 0 where
  accepted : (cred : Result PeerError ℕ) (first : Option (Result DecodeError Frame)) → Input
  accept_error : Input
  sigterm sigint : Input

abbrev pub serve : Daemon → Option (Result DecodeError Frame) → Outcome
serve d (some (ok frame)) = handle d frame
serve d _ = (d, [], again)

abbrev pub admit :
    Daemon → Result PeerError (Unit {0}) → Option (Result DecodeError Frame) → Outcome
admit d (ok _) first = serve d first
admit d (err e) first = (d, [], again)

unfoldable pub select : ℕ → Daemon → Input → Outcome
select my_uid d (accepted cred first) = admit d (verify_peer_uid my_uid cred) first
select my_uid d accept_error = (d, [], failed)
select my_uid d sigterm = (record d { sessions = [] }, abort_all d.sessions, done)
select my_uid d sigint = (record d { sessions = [] }, abort_all d.sessions, done)

-- What a session's task does while the daemon waits in `select!`.
pub data TaskEvent : Type 0 where
  task_finished : (id : ℕ) → TaskEvent
  channel_closed : (id : ℕ) → TaskEvent
  metadata_set : (id : ℕ) (meta : SessionMetadata) → TaskEvent

-- The table with the state of one session changed in place.
unfoldable pub update : ℕ → (SessionState → SessionState) → Sessions → Sessions
update id f [] = []
update id f ((j, s) ∷ sessions) = (j, if j == id then f s else s) ∷ update id f sessions

unfoldable pub apply_task : TaskEvent → Sessions → Sessions
apply_task (task_finished id) = update id (λ s. record s { finished = true; closed = true })
apply_task (channel_closed id) = update id (λ s. record s { closed = true })
apply_task (metadata_set id meta) = update id (λ s. record s { metadata = some meta })

unfoldable pub apply_tasks : List TaskEvent → Sessions → Sessions
apply_tasks [] sessions = sessions
apply_tasks (e ∷ es) sessions = apply_tasks es (apply_task e sessions)

-- The round: finished sessions are dropped, the sessions' tasks run while the daemon waits, and the
-- input is served.
unfoldable pub step : ℕ → Daemon → List TaskEvent → Input → Outcome
step my_uid d tasks input =
    select my_uid (record d { sessions = apply_tasks tasks (reap_sessions d.sessions) }) input
