-- ===== src/Daemon/Rounds.antt =====
-- What a round of the loop of src/daemon.rs does with who connects and with what happened meanwhile.
use ttyleport.Prelude.{
  ℕ, false, List, [], ◌∷◌, Option, some, Bytes, Result, ok, err, ◌≡◌, ◌≢◌, ◌⊎◌, refl, ◌∙◌, arith,
  inl, inr,
}
use ttyleport.Protocol.{Frame, DecodeError, new_session, error_frame}
use ttyleport.Security.{PeerError, verify_peer_uid, verify_peer_uid_ok}
use ttyleport.Daemon.{Sessions, retain, reap_sessions, find_by_name, contains_key}
use ttyleport.Daemon.Step.{
  Daemon, again, reply, accepted, TaskEvent, select, apply_tasks, step, name_exists, update,
  apply_task, task_finished,
}
use ttyleport.Daemon.Table.{find_by_name-apply_task}
use ttyleport.Daemon.Requests.{new_session_taken}

Result-cases {ℓ κ} :
    {E : Type κ} {A : Type ℓ} (r : Result E A) → ((a : A) × (r ≡ ok a)) ⊎ ((e : E) × (r ≡ err e))
Result-cases (ok a) = inl (a, refl)
Result-cases (err e) = inr (e, refl)

-- A connection whose peer is not known to have this process's uid changes nothing beyond what the
-- round does anyway, gets no answer, and does not end the loop, whatever it sends.
pub step_foreign :
    (my_uid : ℕ) (d : Daemon) (tasks : List TaskEvent) (cred : Result PeerError ℕ)
    (first : Option (Result DecodeError Frame))
    → cred ≢ ok my_uid
    → step my_uid d tasks (accepted cred first)
      ≡ (record d { sessions = apply_tasks tasks (reap_sessions d.sessions) }, [], again)
unfolding step select
step_foreign my_uid d tasks cred first foreign = elim (Result-cases (verify_peer_uid my_uid cred)) [
  | inl (_, passed) ↦ absurd (foreign ((verify_peer_uid_ok my_uid cred).0 passed))
  | inr (e, refused) ↦ rw refused
]

update_finished :
    (id : ℕ) (t : Sessions)
    → contains_key id (reap_sessions (apply_task (task_finished id) t)) ≡ false
unfolding apply_task update reap_sessions retain contains_key
update_finished id [] = refl
update_finished id ((j, s) ∷ t) = ground (arith, update_finished id t)

-- A session that ends while the daemon waits for a connection keeps its name taken for that
-- connection's request: a new session of that name is refused, though the table holds no running
-- session of that id any more. (The other requests drop finished sessions first.)
pub new_session_stale :
    (my_uid : ℕ) (d : Daemon) (name : Bytes) (id : ℕ)
    → name ≢ []
    → find_by_name (reap_sessions d.sessions) name ≡ some id
    → let (d', effects, next) =
        step my_uid d
          (task_finished id ∷ [])
          (accepted (ok my_uid) (some (ok (new_session name)))) in
      (effects ≡ reply (error_frame (name_exists name)) ∷ [])
      × (contains_key id (reap_sessions d'.sessions) ≡ false)
unfolding step select apply_tasks
new_session_stale my_uid d name id ne taken =
    let u = apply_task (task_finished id) (reap_sessions d.sessions) in
    let still =
      find_by_name-apply_task (task_finished id) name (reap_sessions d.sessions) ∙ taken in
    rw ((verify_peer_uid_ok my_uid (ok my_uid)).1 refl) (
      rw (new_session_taken (record d { sessions = u }) name id ne still)
        (refl, update_finished id (reap_sessions d.sessions)))
