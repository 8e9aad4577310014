-- ===== src/Tests/Daemon.antt =====
-- The theorems about src/daemon.rs at concrete tables and requests.
use ttyleport.Prelude.{
  ℕ, ◌≡◌, ◌≢◌, ◌⊎◌, false, true, [], ◌∷◌, none, some, Bytes, codes, ok, refl, arith,
}
use ttyleport.Text.Decimal.{to_string}
use ttyleport.Protocol.{new_session, attach, kill_session, session_created, ok_frame, error_frame}
use ttyleport.Security.{verify_peer_uid}
use ttyleport.Daemon.{
  SessionState, Sessions, is_named, find_by_name, resolve_session, lookup, reap_sessions, retain,
  contains_key,
}
use ttyleport.Daemon.{remove}
use ttyleport.Daemon.Step.{
  Daemon, initial, again, reply, hand_off, abort, accepted, handle, handle_new_session, is_dup,
  create_session, select, Input, step, name_exists, no_such_session, task_finished, apply_tasks,
}
use ttyleport.Daemon.Invariant.{IsSound, Reaches, start, round, Reaches-IsSound}
use ttyleport.Daemon.Table.{IsTable}
use ttyleport.Daemon.Resolve.{resolve_session_name}
use ttyleport.Daemon.Requests.{new_session_fresh, kill_session_found, attach_cases}
use ttyleport.Daemon.Rounds.{new_session_stale}

abbrev session : Bytes → SessionState
session name = record { finished = false; closed = false; metadata = none; name = some name }

abbrev unnamed : SessionState
unnamed = record { finished = false; closed = false; metadata = none; name = none }

-- Two sessions, one of which has the other's id for a name.
abbrev table : Sessions
table = (4, unnamed) ∷ (7, session (codes "4")) ∷ []

abbrev running : Daemon
running = record { sessions = table; next_id = 8 }

table-IsTable : IsTable 8 table
unfolding contains_key
table-IsTable =
    (omega arith, refl, tt, (omega arith, refl, unfold find_by_name is_named in refl, tt))

abbrev first_input : Input
first_input = accepted (ok 1000) (some (ok (new_session (codes "work"))))

one_round : Reaches 1000 1 (step 1000 initial [] first_input).0
one_round = round [] first_input start (
    unfold step select verify_peer_uid handle handle_new_session is_dup create_session find_by_name
      apply_tasks reap_sessions retain in
    refl)

Reaches-IsSound_example : IsSound (step 1000 initial [] first_input).0
Reaches-IsSound_example = Reaches-IsSound one_round (omega arith)

resolve_session_name_example : resolve_session table (codes "4") ≡ some 7
resolve_session_name_example =
    resolve_session_name 8 7 table (session (codes "4")) (codes "4") table-IsTable
      (unfold lookup in refl) refl

new_session_fresh_example :
    let (d', effects, next) = handle running (new_session (codes "work")) in
    (effects ≡ reply (session_created (to_string 8)) ∷ hand_off 8 ∷ [])
    × (next ≡ again)
    × (resolve_session d'.sessions (codes "work") ≡ some 8)
    × ((j : ℕ) → j ≢ 8 → lookup j d'.sessions ≡ lookup j table)
new_session_fresh_example =
    new_session_fresh running (codes "work") (cc) (unfold find_by_name is_named in refl)

kill_session_found_example :
    let (d', effects, next) = handle running (kill_session (codes "4")) in
    (effects ≡ abort 7 ∷ reply ok_frame ∷ [])
    × (next ≡ again)
    × (lookup 7 d'.sessions ≡ none)
    × ((j : ℕ) → j ≢ 7 → lookup j d'.sessions ≡ lookup j (reap_sessions table))
kill_session_found_example =
    kill_session_found running (codes "4") 7
      (unfold reap_sessions retain resolve_session find_by_name is_named in refl)

attach_cases_example :
    let t = reap_sessions table in
    let (d', effects, next) = handle running (attach (codes "4")) in
    (next ≡ again)
    × (((id : ℕ) × (s : SessionState) × (resolve_session t (codes "4") ≡ some id)
          × (lookup id t ≡ some s)
          × (s.finished ≡ false)
          × (s.closed ≡ false)
          × (effects ≡ reply ok_frame ∷ hand_off id ∷ [])
          × (d'.sessions ≡ t))
        ⊎ ((effects ≡ reply (error_frame (no_such_session (codes "4"))) ∷ [])
            × (((resolve_session t (codes "4") ≡ none) × (d'.sessions ≡ t))
                ⊎ ((id : ℕ) × (s : SessionState) × (resolve_session t (codes "4") ≡ some id)
                    × (lookup id t ≡ some s)
                    × (s.closed ≡ true)
                    × (d'.sessions ≡ remove id t)))))
attach_cases_example = attach_cases running (codes "4")

new_session_stale_example :
    let (d', effects, next) =
      step 1000 running
        (task_finished 7 ∷ [])
        (accepted (ok 1000) (some (ok (new_session (codes "4"))))) in
    (effects ≡ reply (error_frame (name_exists (codes "4"))) ∷ [])
    × (contains_key 7 (reap_sessions d'.sessions) ≡ false)
new_session_stale_example =
    new_session_stale 1000 running (codes "4") 7 (cc)
      (unfold reap_sessions retain find_by_name is_named in refl)
