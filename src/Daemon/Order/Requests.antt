-- ===== src/Daemon/Order/Requests.antt =====
-- A round of the daemon of src/daemon.rs does the same in whatever order its map is iterated.
use ttyleport.Prelude.{
  ℕ, ◌^◌, ◌≤◌, ◌≡◌, refl, sym, ap, inl, inr, Bool, true, false, Option, none, some, List, [], ◌∷◌,
  Bool-cases, Bytes, Result, ok, err,
}
use mathlib.Core.List.{Perm}
use mathlib.Core.List.Perm
use ttyleport.Protocol.{
  Frame, DecodeError, new_session, attach, kill_session, list_sessions, kill_server, session_info,
  ok_frame,
}
use ttyleport.Security.{verify_peer_uid, PeerError}
use ttyleport.Daemon.{reap_sessions, lookup, resolve_session}
use ttyleport.Daemon.Step.{
  Daemon, Effect, reply, Next, again, done, failed, Outcome, Input, accepted, accept_error, sigterm,
  sigint, TaskEvent, answer, fresh_session, name_opt, is_dup, is_some, create_session,
  handle_new_session, handle_attach, handle_kill_session, attach_to, attach_found, kill_found,
  handle, reaped, serve, admit, select, step, is_closed,
}
use ttyleport.Daemon.Table.{IsTable, IsTable-apply_tasks}
use ttyleport.Daemon.Invariant.{reaped-IsSound}
use ttyleport.Daemon.Order.{
  SameTable, SameTable-remove, SameTable-insert, SameTable-reap_sessions, SameTable-apply_tasks,
  find_by_name-same, resolve_session-same,
}
use ttyleport.Daemon.Order.Sorted.{build_session_entries-same, abort_all-perm}

-- Two daemons with the same map, iterated in two orders.
pub record Alike (d d' : Daemon) : Type 0 where
  pub sound : IsTable d.next_id d.sessions
  pub sound' : IsTable d.next_id d'.sessions
  pub next_id : d'.next_id ≡ d.next_id
  pub table : SameTable d.sessions d'.sessions

-- The same effects; where the daemon ends, the tasks may be aborted in another order.
abbrev pub SameEffects : Next → List Effect → List Effect → Type 0
SameEffects done es es' = Perm es es'
SameEffects _ es es' = es ≡ es'

abbrev pub SameOutcome : Outcome → Outcome → Type 0
SameOutcome (d, es, next) (d', es', next') =
    (next ≡ next')
    × (d.next_id ≡ d'.next_id)
    × SameTable d.sessions d'.sessions
    × SameEffects next es es'

answer-same :
    (d d' : Daemon) (frame frame' : Frame)
    → Alike d d'
    → frame ≡ frame'
    → SameOutcome (answer d frame) (answer d' frame')
answer-same d d' frame frame' h e = (refl, sym h.next_id, h.table, ap (λ f. reply f ∷ []) e)

Alike-reaped : (d d' : Daemon) → Alike d d' → Alike (reaped d) (reaped d')
Alike-reaped d d' h = record {
  sound = reaped-IsSound d h.sound;
  sound' = reaped-IsSound (record d { sessions = d'.sessions }) h.sound';
  next_id = h.next_id;
  table = SameTable-reap_sessions d.sessions d'.sessions h.table d.next_id h.sound h.sound';
}

is_dup-same :
    (d d' : Daemon) (name : Option Bytes)
    → Alike d d'
    → is_dup d.sessions name ≡ is_dup d'.sessions name
unfolding is_dup
is_dup-same d d' none h = refl
is_dup-same d d' (some n) h =
    ap is_some (find_by_name-same d.next_id d.sessions d'.sessions h.sound h.sound' h.table n)

create_session-same :
    (d d' : Daemon) (name : Option Bytes)
    → Alike d d'
    → SameOutcome (create_session d name) (create_session d' name)
unfolding create_session
create_session-same d d' name h = rw h.next_id (
  refl,
  refl,
  SameTable-insert d.sessions d'.sessions h.table d.next_id (fresh_session name),
  refl,
)

handle_new_session-same :
    (d d' : Daemon) (name : Bytes)
    → Alike d d'
    → SameOutcome (handle_new_session d name) (handle_new_session d' name)
unfolding handle_new_session
handle_new_session-same d d' name h =
    let dup = is_dup-same d d' (name_opt name) h in
    elim (Bool-cases (is_dup d'.sessions (name_opt name))) [
      | inl e ↦ rw (dup, e) (answer-same d d' _ _ h refl)
      | inr e ↦ rw (dup, e) (create_session-same d d' (name_opt name) h)
    ]

attach_to-same :
    (d d' : Daemon) (session : Bytes) (id : ℕ) (closed : Bool)
    → Alike d d'
    → SameOutcome (attach_to d session id closed) (attach_to d' session id closed)
attach_to-same d d' session id true h =
    (refl, sym h.next_id, SameTable-remove d.sessions d'.sessions h.table id, refl)
attach_to-same d d' session id false h = (refl, sym h.next_id, h.table, refl)

attach_found-same :
    (d d' : Daemon) (session : Bytes) (found : Option ℕ)
    → Alike d d'
    → SameOutcome (attach_found d session found) (attach_found d' session found)
attach_found-same d d' session none h = answer-same d d' _ _ h refl
attach_found-same d d' session (some id) h =
    rw (h.table id) (attach_to-same d d' session id (is_closed (lookup id d'.sessions)) h)

kill_found-same :
    (d d' : Daemon) (session : Bytes) (found : Option ℕ)
    → Alike d d'
    → SameOutcome (kill_found d session found) (kill_found d' session found)
kill_found-same d d' session none h = answer-same d d' _ _ h refl
kill_found-same d d' session (some id) h =
    (refl, sym h.next_id, SameTable-remove d.sessions d'.sessions h.table id, refl)

resolves :
    (d d' : Daemon) (target : Bytes)
    → Alike d d'
    → resolve_session d.sessions target ≡ resolve_session d'.sessions target
resolves d d' target h =
    resolve_session-same d.next_id d.sessions d'.sessions h.sound h.sound' h.table target

handle-same :
    (d d' : Daemon) (frame : Frame)
    → d.next_id ≤ 2 ^ 32
    → Alike d d'
    → SameOutcome (handle d frame) (handle d' frame)
unfolding handle handle_attach handle_kill_session
handle-same d d' (new_session name) room h = handle_new_session-same d d' name h
handle-same d d' (attach session) room h =
    let k = Alike-reaped d d' h in
    rw (resolves (reaped d) (reaped d') session k)
      (attach_found-same (reaped d) (reaped d') session _ k)
handle-same d d' list_sessions room h =
    let k = Alike-reaped d d' h in
    answer-same (reaped d) (reaped d') _ _ k (
      ap session_info (
        build_session_entries-same d.next_id (reaped d).sessions (reaped d').sessions k.sound
          k.sound' room k.table))
handle-same d d' (kill_session session) room h =
    let k = Alike-reaped d d' h in
    rw (resolves (reaped d) (reaped d') session k)
      (kill_found-same (reaped d) (reaped d') session _ k)
handle-same d d' kill_server room h = (
  refl,
  sym h.next_id,
  λ j. refl,
  Perm.append_right (reply ok_frame ∷ [])
      (abort_all-perm d.next_id d.sessions d'.sessions h.sound h.sound' h.table),
)
handle-same d d' frame room h = answer-same d d' _ _ h refl

idle-same :
    (d d' : Daemon) (next : Next)
    → Alike d d'
    → SameEffects next [] []
    → SameOutcome (d, [], next) (d', [], next)
idle-same d d' next h e = (refl, sym h.next_id, h.table, e)

serve-same :
    (d d' : Daemon) (first : Option (Result DecodeError Frame))
    → d.next_id ≤ 2 ^ 32
    → Alike d d'
    → SameOutcome (serve d first) (serve d' first)
serve-same d d' none room h = idle-same d d' again h refl
serve-same d d' (some (ok frame)) room h = handle-same d d' frame room h
serve-same d d' (some (err e)) room h = idle-same d d' again h refl

admit-same :
    (d d' : Daemon) (allowed : Result PeerError (Unit {0}))
    (first : Option (Result DecodeError Frame))
    → d.next_id ≤ 2 ^ 32
    → Alike d d'
    → SameOutcome (admit d allowed first) (admit d' allowed first)
admit-same d d' (ok _) first room h = serve-same d d' first room h
admit-same d d' (err e) first room h = idle-same d d' again h refl

select-same :
    (my_uid : ℕ) (d d' : Daemon) (input : Input)
    → d.next_id ≤ 2 ^ 32
    → Alike d d'
    → SameOutcome (select my_uid d input) (select my_uid d' input)
unfolding select
select-same my_uid d d' (accepted cred first) room h =
    admit-same d d' (verify_peer_uid my_uid cred) first room h
select-same my_uid d d' accept_error room h = idle-same d d' failed h refl
select-same my_uid d d' sigterm room h = (
  refl,
  sym h.next_id,
  λ j. refl,
  abort_all-perm d.next_id d.sessions d'.sessions h.sound h.sound' h.table,
)
select-same my_uid d d' sigint room h = (
  refl,
  sym h.next_id,
  λ j. refl,
  abort_all-perm d.next_id d.sessions d'.sessions h.sound h.sound' h.table,
)

-- Nothing that the daemon does depends on the order in which its map is iterated: two daemons with the
-- same sound map, iterated in any two orders, make of the same round the same map, the same next id, the
-- same effects in the same order, answers and lists included, and the same way on. Only where the daemon
-- ends may the tasks be aborted in another order.
pub step-SameOutcome :
    (my_uid : ℕ) (d d' : Daemon) (tasks : List TaskEvent) (input : Input)
    → d.next_id ≤ 2 ^ 32
    → Alike d d'
    → SameOutcome (step my_uid d tasks input) (step my_uid d' tasks input)
unfolding step
step-SameOutcome my_uid d d' tasks input room h =
    let k = Alike-reaped d d' h in
    select-same my_uid _ _ input room (record {
      sound = IsTable-apply_tasks d.next_id tasks (reap_sessions d.sessions) k.sound;
      sound' = IsTable-apply_tasks d.next_id tasks (reap_sessions d'.sessions) k.sound';
      next_id = h.next_id;
      table =
          SameTable-apply_tasks tasks (reap_sessions d.sessions) (reap_sessions d'.sessions)
            k.table;
    })
