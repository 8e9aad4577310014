-- ===== src/Main/Requests.antt =====
-- The commands of src/main.rs together with the daemon of src/daemon.rs and the codec of
-- src/protocol.rs between them, over a control socket that loses nothing.
use ttyleport.Text.Utf8.{IsUtf8, IsUtf8-append, ascii-IsUtf8}
use ttyleport.Protocol.Encode.{encode}
use ttyleport.Protocol.Decode.{decode}
use ttyleport.Protocol.Framing.{IsSendable}
use ttyleport.Protocol.RoundTrip.{decode-encode}
use ttyleport.Security.{verify_peer_uid_ok}
use ttyleport.Daemon.{reap_sessions, lookup, resolve_session, build_session_entries}
use ttyleport.Daemon.Step.{
  Daemon, Outcome, again, Effect, abort, reply, accepted, TaskEvent, handle, handle_kill_session,
  select, apply_tasks, step, no_such_session,
}
use ttyleport.Daemon.Requests.{kill_session_found}
use ttyleport.Main.{refused, Serve, daemon_request, kill_session_command}
use ttyleport.Main.Timestamp.{Tm}
use ttyleport.Main.Table.{session_lines, list_sessions_command}
use ttyleport.Protocol.{
  Frame, SessionEntry, DecodeError, expect_from, list_sessions, kill_session, session_info,
  ok_frame, error_frame, max_frame_size,
}
use ttyleport.Prelude.{
  ℤ, ℕ, ◌≤◌, ◌≡◌, refl, sym, ◌≢◌, ◌⊎◌, inl, inr, true, Option, none, some, List, [], ◌∷◌, ◌++◌,
  append-nil, arith, Option-cases, Bytes, codes, length, length-append, Result, ok, err,
}

-- What `framed.next()` gives where these bytes are all that comes.
abbrev pub next_frame : Result DecodeError (Option Frame) → Option (Result DecodeError Frame)
next_frame (ok (some frame)) = some (ok frame)
next_frame (ok none) = none
next_frame (err e) = some (err e)

-- One frame, sent and received.
unfoldable pub wire : Frame → Option (Result DecodeError Frame)
wire frame = next_frame (decode (encode frame [])).1

unfoldable pub first_reply : List Effect → Option Frame
first_reply [] = none
first_reply (reply frame ∷ effects) = some frame
first_reply (_ ∷ effects) = first_reply effects

abbrev pub answer_of : Option Frame → Option (Result DecodeError Frame)
answer_of (some frame) = wire frame
answer_of none = none

-- The daemon's round that gets the frame from a process of its own user.
unfoldable pub daemon_round : ℕ → Daemon → List TaskEvent → Frame → Outcome
daemon_round my_uid d tasks frame = step my_uid d tasks (accepted (ok my_uid) (wire frame))

-- The daemon behind the control socket.
unfoldable pub daemon_serve : ℕ → Daemon → List TaskEvent → Serve
daemon_serve my_uid d tasks frame = record {
  connected = true;
  sent = true;
  answer = answer_of (first_reply (daemon_round my_uid d tasks frame).1);
}

-- The table as the daemon has it when it serves the request.
abbrev pub served : Daemon → List TaskEvent → Daemon
served d tasks = record d { sessions = apply_tasks tasks (reap_sessions d.sessions) }

-- What is sendable arrives as it was sent.
pub wire-sendable : (f : Frame) → IsSendable f → wire f ≡ some (ok f)
unfolding wire
wire-sendable f (h, c, fits) = rw (sym (append-nil (encode f [])), decode-encode f [] h c fits) refl

-- A request that arrives is handled on the table of that moment.
pub daemon_round-handle :
    (my_uid : ℕ) (d : Daemon) (tasks : List TaskEvent) (f : Frame)
    → IsSendable f
    → daemon_round my_uid d tasks f ≡ handle (served d tasks) f
unfolding daemon_round step select
daemon_round-handle my_uid d tasks f h =
    rw (wire-sendable f h, (verify_peer_uid_ok my_uid (ok my_uid)).1 refl) refl

-- A command gets the daemon's first answer.
pub request-answer :
    (my_uid : ℕ) (d : Daemon) (tasks : List TaskEvent) (f g : Frame)
    → IsSendable f
    → IsSendable g
    → first_reply (handle (served d tasks) f).1 ≡ some g
    → daemon_request (daemon_serve my_uid d tasks) f ≡ ok g
unfolding daemon_request daemon_serve expect_from
request-answer my_uid d tasks f g hf hg said =
    rw (daemon_round-handle my_uid d tasks f hf, said, wire-sendable g hg) refl

-- The daemon's error about a target can be sent.
no_such_session-IsSendable :
    (target : Bytes)
    → IsUtf8 target
    → length (no_such_session target) ≤ max_frame_size
    → IsSendable (error_frame (no_such_session target))
no_such_session-IsSendable target h fits = (
  IsUtf8-append (codes "no such session: ") target
      (ascii-IsUtf8 (codes "no such session: ") (omega arith)) h,
  tt,
  fits,
)

kill_session-IsSendable :
    (target : Bytes)
    → IsUtf8 target
    → length (no_such_session target) ≤ max_frame_size
    → IsSendable (kill_session target)
kill_session-IsSendable target h fits =
    (h, tt, omega (arith, fits, length-append (codes "no such session: ") target))

ok_frame-IsSendable : IsSendable ok_frame
ok_frame-IsSendable = (tt, tt, omega arith)

-- `gritty kill-session`, from the command to the daemon and back, for a target that is UTF-8 and
-- not longer than a frame can say: either the target leads to a session that has not finished, the
-- daemon aborts the task of that session and of no other, the command says that it is killed, and of the
-- table's sessions that have not finished exactly its id is gone; or it leads to none, no task is
-- aborted, the command fails with the daemon's words, and the table only loses finished sessions. The
-- daemon goes on in both cases.
pub kill_session_command-handle :
    (my_uid : ℕ) (d : Daemon) (tasks : List TaskEvent) (target : Bytes)
    → IsUtf8 target
    → length (no_such_session target) ≤ max_frame_size
    → let t = reap_sessions (served d tasks).sessions in
      let result = kill_session_command (daemon_serve my_uid d tasks) target in
      let (d', effects, next) = daemon_round my_uid d tasks (kill_session target) in
      (next ≡ again)
      × (((id : ℕ) × (resolve_session t target ≡ some id)
            × (effects ≡ abort id ∷ reply ok_frame ∷ [])
            × (result ≡ ok (codes "session killed: " ++ target))
            × (lookup id d'.sessions ≡ none)
            × ((j : ℕ) → j ≢ id → lookup j d'.sessions ≡ lookup j t))
          ⊎ ((resolve_session t target ≡ none)
              × (effects ≡ reply (error_frame (no_such_session target)) ∷ [])
              × (result ≡ err (refused (no_such_session target)))
              × (d'.sessions ≡ t)))
unfolding kill_session_command handle handle_kill_session first_reply
kill_session_command-handle my_uid d tasks target h fits =
    let sendable = kill_session-IsSendable target h fits in
    rw (daemon_round-handle my_uid d tasks (kill_session target) sendable)
      (elim (Option-cases (resolve_session (reap_sessions (served d tasks).sessions) target)) [
        | inl missing ↦ (
          rw missing refl,
          inr (
            missing,
            rw missing refl,
            rw
                (request-answer my_uid d tasks (kill_session target)
                  (error_frame (no_such_session target)) sendable
                  (no_such_session-IsSendable target h fits) (rw missing refl))
                refl,
            rw missing refl,
          ),
        )
        | inr (id, found) ↦
            let (effects, next, gone, others) =
              kill_session_found (served d tasks) target id found in
            (
              next,
              inl (
                id,
                found,
                effects,
                rw
                    (request-answer my_uid d tasks (kill_session target) ok_frame sendable
                      ok_frame-IsSendable (rw effects refl))
                    refl,
                gone,
                others,
              ),
            )
      ])

abbrev pub listed : Daemon → List TaskEvent → List SessionEntry
listed d tasks = build_session_entries (reap_sessions (served d tasks).sessions)

-- `gritty ls`, from the command to the daemon and back: where the entries of the sessions can be
-- sent, the command prints the lines of exactly the sessions that have not finished.
pub list_sessions_command-handle :
    (my_uid : ℕ) (d : Daemon) (tasks : List TaskEvent) (localtime : ℤ → Option Tm) (now : ℕ)
    → IsSendable (session_info (listed d tasks))
    → list_sessions_command (daemon_serve my_uid d tasks) localtime now
      ≡ ok (session_lines localtime now (listed d tasks))
unfolding list_sessions_command handle first_reply
list_sessions_command-handle my_uid d tasks localtime now h =
    rw
      (request-answer my_uid d tasks list_sessions (session_info (listed d tasks))
        (tt, tt, omega arith) h refl)
      refl
