-- ===== src/Tests/Main.antt =====
-- The theorems about src/main.rs at concrete sessions.
use ttyleport.Text.Utf8.{is_utf8}
use ttyleport.Text.Decimal.{to_string}
use ttyleport.Protocol.{SessionEntry}
use ttyleport.Daemon.{SessionState, reap_sessions, lookup, resolve_session, find_by_name}
use ttyleport.Daemon.Step.{Daemon, no_such_session, name_exists, hand_off, reply, abort, again}
use ttyleport.Main.{refused, created_line, new_session_command, kill_session_command}
use ttyleport.Main.Requests.{daemon_serve, daemon_round, served, kill_session_command-handle}
use ttyleport.Protocol.{kill_session, new_session, session_created, ok_frame, error_frame}
use ttyleport.Client.Run.{run}
use ttyleport.Main.Created.{new_session_command-handle}
use ttyleport.Prelude.{List}
use ttyleport.Prelude.{
  ℕ, ◌≡◌, refl, ◌≢◌, ◌⊎◌, false, none, some, [], ◌∷◌, arith, Bytes, codes, ok, err,
}

abbrev named : Bytes → SessionState
named name = record { finished = false; closed = false; metadata = none; name = some name }

abbrev two : Daemon
two = record { sessions = (4, named (codes "w")) ∷ (7, named (codes "4")) ∷ []; next_id = 8 }

kill_session_command-handle_example :
    let t = reap_sessions (served two []).sessions in
    let result = kill_session_command (daemon_serve 1000 two []) (codes "4") in
    let (d', effects, next) = daemon_round 1000 two [] (kill_session (codes "4")) in
    (next ≡ again)
    × (((id : ℕ) × (resolve_session t (codes "4") ≡ some id)
          × (effects ≡ abort id ∷ reply ok_frame ∷ [])
          × (result ≡ ok (codes "session killed: 4"))
          × (lookup id d'.sessions ≡ none)
          × ((j : ℕ) → j ≢ id → lookup j d'.sessions ≡ lookup j t))
        ⊎ ((resolve_session t (codes "4") ≡ none)
            × (effects ≡ reply (error_frame (no_such_session (codes "4"))) ∷ [])
            × (result ≡ err (refused (no_such_session (codes "4"))))
            × (d'.sessions ≡ t)))
kill_session_command-handle_example =
    kill_session_command-handle 1000 two [] (codes "4") (unfold is_utf8 in refl) (omega arith)

-- The entry of a session that its task has not set up yet.
abbrev starting : SessionEntry
starting = record {
  id = to_string 4;
  name = codes "w";
  pty_path = [];
  shell_pid = 0;
  created_at = 0;
  attached = false;
  last_heartbeat = 0;
}

abbrev one : Daemon
one = record { sessions = (4, named (codes "w")) ∷ []; next_id = 5 }

new_session_command-handle_example :
    let id = to_string 8 in
    let result = new_session_command (daemon_serve 1000 two []) (some (codes "play")) false [] [] in
    let (d', effects, next) = daemon_round 1000 two [] (new_session (codes "play")) in
    ((find_by_name (served two []).sessions (codes "play") ≡ none)
      × (result ≡ ok (created_line (some (codes "play")) id, run id [] false false []))
      × (effects ≡ reply (session_created id) ∷ hand_off 8 ∷ [])
      × (resolve_session d'.sessions (codes "play") ≡ some 8))
    ⊎ ((other : ℕ) × (find_by_name (served two []).sessions (codes "play") ≡ some other)
        × (result ≡ err (refused (name_exists (codes "play"))))
        × (d'.sessions ≡ (served two []).sessions))
new_session_command-handle_example =
    new_session_command-handle 1000 two [] (codes "play") false [] [] (cc) (unfold is_utf8 in refl)
      (omega arith)
