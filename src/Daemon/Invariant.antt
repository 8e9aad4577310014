-- ===== src/Daemon/Invariant.antt =====
-- The table of the daemon of src/daemon.rs stays sound, whatever clients and sessions do.
use ttyleport.Prelude.{
  ℕ, suc, ◌+◌, ◌^◌, ◌%◌, ◌≤◌, ◌<◌, Bool, true, false, List, Option, none, some, Bytes, Result, ok,
  err, sym, subst, ◌≡◌, refl, arith, Bool-cases, inl, inr,
}
use ttyleport.Protocol.{
  Frame, DecodeError, new_session, attach, kill_session, list_sessions, kill_server,
}
use ttyleport.Security.{verify_peer_uid, PeerError}
use ttyleport.Daemon.{Sessions, reap_sessions, remove, insert, resolve_session}
use ttyleport.Daemon.Step.{
  Daemon, initial, again, Input, accepted, accept_error, sigterm, sigint, TaskEvent, name_opt,
  is_dup, create_session, handle_new_session, handle_attach, handle_kill_session, attach_to,
  attach_found, kill_found, handle, reaped, serve, admit, select, step, fresh_session,
}
use ttyleport.Daemon.Table.{
  IsTable, Unnamed, IsTable-Sub, IsTable-insert, IsTable-apply_tasks, retain-Sub, remove-Sub,
}

abbrev pub IsSound : Daemon → Type 0
IsSound d = IsTable d.next_id d.sessions

is_dup-Unnamed : (t : Sessions) (o : Option Bytes) → is_dup t o ≡ false → Unnamed t o
unfolding is_dup
is_dup-Unnamed t none h = tt
is_dup-Unnamed t (some name) h = ground arith

pub create_session-IsSound :
    (d : Daemon) (o : Option Bytes)
    → d.next_id + 1 < 2 ^ 32
    → Unnamed d.sessions o
    → IsSound d
    → IsSound (create_session d o).0
unfolding create_session
create_session-IsSound d o room named h =
    let e : (d.next_id + 1) % 2 ^ 32 ≡ d.next_id + 1 = omega arith in
    subst (λ n. IsTable n (insert d.next_id (fresh_session o) d.sessions)) (sym e)
      (IsTable-insert d.next_id (fresh_session o) d.sessions h named)

handle_new_session-IsSound :
    (d : Daemon) (name : Bytes)
    → d.next_id + 1 < 2 ^ 32
    → IsSound d
    → IsSound (handle_new_session d name).0
unfolding handle_new_session
handle_new_session-IsSound d name room h = elim (Bool-cases (is_dup d.sessions (name_opt name))) [
  | inl e ↦ rw e h
  | inr e ↦ rw e (
      create_session-IsSound d (name_opt name) room (is_dup-Unnamed d.sessions (name_opt name) e) h)
]

remove-IsSound :
    (d : Daemon) (id : ℕ) → IsSound d → IsSound (record d { sessions = remove id d.sessions })
remove-IsSound d id h = IsTable-Sub d.next_id (remove-Sub id d.sessions) h

pub reaped-IsSound : (d : Daemon) → IsSound d → IsSound (reaped d)
unfolding reap_sessions
reaped-IsSound d h = IsTable-Sub d.next_id (retain-Sub _ d.sessions) h

attach_to-IsSound :
    (d : Daemon) (session : Bytes) (id : ℕ) (closed : Bool)
    → IsSound d
    → IsSound (attach_to d session id closed).0
attach_to-IsSound d session id true h = remove-IsSound d id h
attach_to-IsSound d session id false h = h

attach_found-IsSound :
    (d : Daemon) (session : Bytes) (found : Option ℕ)
    → IsSound d
    → IsSound (attach_found d session found).0
attach_found-IsSound d session none h = h
attach_found-IsSound d session (some id) h = attach_to-IsSound d session id _ h

kill_found-IsSound :
    (d : Daemon) (session : Bytes) (found : Option ℕ)
    → IsSound d
    → IsSound (kill_found d session found).0
kill_found-IsSound d session none h = h
kill_found-IsSound d session (some id) h = remove-IsSound d id h

handle-IsSound :
    (d : Daemon) (f : Frame) → d.next_id + 1 < 2 ^ 32 → IsSound d → IsSound (handle d f).0
unfolding handle handle_attach handle_kill_session
handle-IsSound d (new_session name) room h = handle_new_session-IsSound d name room h
handle-IsSound d (attach session) room h =
    attach_found-IsSound (reaped d) session _ (reaped-IsSound d h)
handle-IsSound d list_sessions room h = reaped-IsSound d h
handle-IsSound d (kill_session session) room h =
    kill_found-IsSound (reaped d) session _ (reaped-IsSound d h)
handle-IsSound d kill_server room h = tt
handle-IsSound d f room h = h

serve-IsSound :
    (d : Daemon) (first : Option (Result DecodeError Frame))
    → d.next_id + 1 < 2 ^ 32
    → IsSound d
    → IsSound (serve d first).0
serve-IsSound d none room h = h
serve-IsSound d (some (ok f)) room h = handle-IsSound d f room h
serve-IsSound d (some (err e)) room h = h

admit-IsSound :
    (d : Daemon) (allowed : Result PeerError (Unit {0})) (first : Option (Result DecodeError Frame))
    → d.next_id + 1 < 2 ^ 32
    → IsSound d
    → IsSound (admit d allowed first).0
admit-IsSound d (ok _) first room h = serve-IsSound d first room h
admit-IsSound d (err e) first room h = h

select-IsSound :
    (my_uid : ℕ) (d : Daemon) (input : Input)
    → d.next_id + 1 < 2 ^ 32
    → IsSound d
    → IsSound (select my_uid d input).0
unfolding select
select-IsSound my_uid d (accepted cred first) room h =
    admit-IsSound d (verify_peer_uid my_uid cred) first room h
select-IsSound my_uid d accept_error room h = h
select-IsSound my_uid d sigterm room h = tt
select-IsSound my_uid d sigint room h = tt

-- One round keeps the table sound, as long as the next id does not wrap: every id is below the next
-- one, and no id and no name stands twice.
pub step-IsSound :
    (my_uid : ℕ) (d : Daemon) (tasks : List TaskEvent) (input : Input)
    → d.next_id + 1 < 2 ^ 32
    → IsSound d
    → IsSound (step my_uid d tasks input).0
unfolding step
step-IsSound my_uid d tasks input room h =
    select-IsSound my_uid _ input room (IsTable-apply_tasks d.next_id tasks _ (reaped-IsSound d h))

-- A round uses one id at most.
attach_to_next_id :
    (d : Daemon) (session : Bytes) (id : ℕ) (closed : Bool)
    → (attach_to d session id closed).0.next_id ≡ d.next_id
attach_to_next_id d session id true = refl
attach_to_next_id d session id false = refl

attach_found_next_id :
    (d : Daemon) (session : Bytes) (found : Option ℕ)
    → (attach_found d session found).0.next_id ≡ d.next_id
attach_found_next_id d session none = refl
attach_found_next_id d session (some id) = attach_to_next_id d session id _

kill_found_next_id :
    (d : Daemon) (session : Bytes) (found : Option ℕ)
    → (kill_found d session found).0.next_id ≡ d.next_id
kill_found_next_id d session none = refl
kill_found_next_id d session (some id) = refl

handle_next_id : (d : Daemon) (f : Frame) → (handle d f).0.next_id ≤ d.next_id + 1
unfolding handle handle_new_session create_session handle_attach handle_kill_session
handle_next_id d (new_session name) = ground arith
handle_next_id d (attach session) =
    omega
      (arith, attach_found_next_id (reaped d) session (resolve_session (reaped d).sessions session))
handle_next_id d (kill_session session) =
    omega
      (arith, kill_found_next_id (reaped d) session (resolve_session (reaped d).sessions session))
handle_next_id d f = omega arith

serve_next_id :
    (d : Daemon) (first : Option (Result DecodeError Frame))
    → (serve d first).0.next_id ≤ d.next_id + 1
serve_next_id d none = omega arith
serve_next_id d (some (ok f)) = handle_next_id d f
serve_next_id d (some (err e)) = omega arith

admit_next_id :
    (d : Daemon) (allowed : Result PeerError (Unit {0})) (first : Option (Result DecodeError Frame))
    → (admit d allowed first).0.next_id ≤ d.next_id + 1
admit_next_id d (ok _) first = serve_next_id d first
admit_next_id d (err e) first = omega arith

select_next_id :
    (my_uid : ℕ) (d : Daemon) (input : Input) → (select my_uid d input).0.next_id ≤ d.next_id + 1
unfolding select
select_next_id my_uid d (accepted cred first) = admit_next_id d (verify_peer_uid my_uid cred) first
select_next_id my_uid d accept_error = omega arith
select_next_id my_uid d sigterm = omega arith
select_next_id my_uid d sigint = omega arith

pub step_next_id :
    (my_uid : ℕ) (d : Daemon) (tasks : List TaskEvent) (input : Input)
    → (step my_uid d tasks input).0.next_id ≤ d.next_id + 1
unfolding step
step_next_id my_uid d tasks input = select_next_id my_uid _ input

-- The daemons that some rounds lead to from the start of `run`, with the number of rounds.
pub data Reaches (my_uid : ℕ) : ℕ → Daemon → Type 0 where
  start : Reaches my_uid 0 initial
  round :
      {n : ℕ} {d : Daemon} (tasks : List TaskEvent) (input : Input)
      → Reaches my_uid n d
      → (step my_uid d tasks input).2 ≡ again
      → Reaches my_uid (suc n) (step my_uid d tasks input).0

Reaches_next_id : {my_uid n : ℕ} {d : Daemon} → Reaches my_uid n d → d.next_id ≤ n
Reaches_next_id start = omega arith
Reaches_next_id (round {d = d} tasks input r _) =
    omega (arith, step_next_id _ d tasks input, Reaches_next_id r)

-- Within the first 2^32 - 2 rounds, whatever the clients send and the sessions do, the table is
-- sound: every session has an id of its own below the next id, and no two have the same name.
pub Reaches-IsSound : {my_uid n : ℕ} {d : Daemon} → Reaches my_uid n d → n + 1 < 2 ^ 32 → IsSound d
Reaches-IsSound start h = tt
Reaches-IsSound (round {d = d} tasks input r _) h =
    step-IsSound _ d tasks input (omega (arith, Reaches_next_id r))
      (Reaches-IsSound r (omega arith))
