-- ===== src/Main/Created.antt =====
-- `gritty new` of src/main.rs together with the daemon of src/daemon.rs and the codec of
-- src/protocol.rs between them, over a control socket that loses nothing.
use ttyleport.Prelude.{
  ℕ, ◌≤◌, ◌≡◌, refl, ◌≢◌, ◌⊎◌, inl, inr, Bool, false, none, some, List, [], ◌∷◌, arith,
  Option-cases, Bytes, codes, length, length-append, ok, err,
}
use ttyleport.Text.Utf8.{IsUtf8, IsUtf8-append, ascii-IsUtf8}
use ttyleport.Text.Decimal.{to_string}
use ttyleport.Text.Decimal.Laws.{length-to_string}
use ttyleport.Protocol.{new_session, session_created, error_frame, max_frame_size}
use ttyleport.Protocol.Payloads.{to_string-IsUtf8}
use ttyleport.Protocol.Framing.{IsSendable}
use ttyleport.Daemon.{find_by_name, resolve_session}
use ttyleport.Daemon.Step.{
  Daemon, TaskEvent, handle, handle_new_session, is_dup, name_exists, hand_off, reply,
}
use ttyleport.Daemon.Requests.{new_session_fresh, new_session_taken}
use ttyleport.Client.Run.{Life, run}
use ttyleport.Main.{refused, created_line, new_session_command}
use ttyleport.Main.Requests.{
  served, daemon_serve, daemon_round, daemon_round-handle, request-answer, first_reply,
}

name_exists-IsSendable :
    (name : Bytes)
    → IsUtf8 name
    → length (name_exists name) ≤ max_frame_size
    → IsSendable (error_frame (name_exists name))
name_exists-IsSendable name h fits = (
  IsUtf8-append (codes "session name already exists: ") name
      (ascii-IsUtf8 (codes "session name already exists: ") (omega arith)) h,
  tt,
  fits,
)

new_session-IsSendable :
    (name : Bytes)
    → IsUtf8 name
    → length (name_exists name) ≤ max_frame_size
    → IsSendable (new_session name)
new_session-IsSendable name h fits =
    (h, tt, omega (arith, fits, length-append (codes "session name already exists: ") name))

session_created-IsSendable : (id : ℕ) → IsSendable (session_created (to_string id))
session_created-IsSendable id = (to_string-IsUtf8 id, tt, omega (arith, length-to_string id))

-- `gritty new -t`, from the command to the daemon and back, for a name that is UTF-8, not empty, and not
-- longer than a frame can say: either no session has the name, and the command says that the session
-- with the next id is created and runs its client on it, the daemon hands it the connection, and the
-- name leads to it from then on; or a session has it, the command fails with the daemon's words, and the
-- table stays as it was.
pub new_session_command-handle :
    (my_uid : ℕ) (d : Daemon) (tasks : List TaskEvent) (name : Bytes) (no_escape : Bool)
    (vars : List (Bytes × Bytes)) (lives : List Life)
    → name ≢ []
    → IsUtf8 name
    → length (name_exists name) ≤ max_frame_size
    → let id = to_string d.next_id in
      let result =
        new_session_command (daemon_serve my_uid d tasks) (some name) no_escape vars lives in
      let (d', effects, next) = daemon_round my_uid d tasks (new_session name) in
      ((find_by_name (served d tasks).sessions name ≡ none)
        × (result ≡ ok (created_line (some name) id, run id vars false no_escape lives))
        × (effects ≡ reply (session_created id) ∷ hand_off d.next_id ∷ [])
        × (resolve_session d'.sessions name ≡ some d.next_id))
      ⊎ ((other : ℕ) × (find_by_name (served d tasks).sessions name ≡ some other)
          × (result ≡ err (refused (name_exists name)))
          × (d'.sessions ≡ (served d tasks).sessions))
unfolding new_session_command handle handle_new_session is_dup first_reply
new_session_command-handle my_uid d tasks name no_escape vars lives ne h fits =
    let sendable = new_session-IsSendable name h fits in
    rw (daemon_round-handle my_uid d tasks (new_session name) sendable)
      (elim (Option-cases (find_by_name (served d tasks).sessions name)) [
        | inl free ↦
            let (effects, next, leads, others) = new_session_fresh (served d tasks) name ne free in
            inl (
              free,
              rw
                  (request-answer my_uid d tasks (new_session name)
                    (session_created (to_string d.next_id)) sendable
                    (session_created-IsSendable d.next_id) (rw effects refl))
                  refl,
              effects,
              leads,
            )
        | inr (other, taken) ↦ inr (
          other,
          taken,
          rw
              (request-answer my_uid d tasks (new_session name) (error_frame (name_exists name))
                sendable (name_exists-IsSendable name h fits)
                (rw (new_session_taken (served d tasks) name other ne taken) refl))
              refl,
          rw (new_session_taken (served d tasks) name other ne taken) refl,
        )
      ])
