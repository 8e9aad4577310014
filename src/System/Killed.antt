-- ===== src/System/Killed.antt =====
-- `gritty kill-session` in the daemon of src/daemon.rs with its tasks.
use ttyleport.Prelude.{
  ℕ, ◌+◌, ◌^◌, ◌<◌, ◌≡◌, refl, ◌≢◌, true, none, some, List, arith, Bytes, ok, ◌==◌, ==_iff,
}
use ttyleport.Protocol.{Frame, kill_session}
use ttyleport.Security.{verify_peer_uid_ok}
use ttyleport.Daemon.{reap_sessions, lookup, resolve_session}
use ttyleport.Daemon.Step.{Daemon, Next, again, accepted, apply_tasks, step, handle, select}
use ttyleport.Daemon.Table.{IsTable, IsTable-apply_tasks}
use ttyleport.Daemon.Invariant.{IsSound, Reaches, start, Reaches-IsSound, reaped-IsSound}
use ttyleport.Daemon.Invariant as Invariant
use ttyleport.Daemon.Resolve.{resolve_session_sound}
use ttyleport.Daemon.Requests.{kill_session_found}
use ttyleport.Server.Task.{Opening, TaskInput, aborted}
use ttyleport.Server.Task.Hangup.{hang_ups, shells}
use ttyleport.Server.{Start}
use ttyleport.System.{
  Slot, Slots, Event, has_ended, run_events, apply_effects, System, system_round, Runs, boot, round,
  turn_at,
}
use ttyleport.System.Slots.{turn_slot_forth, aborted-over}
use ttyleport.System.Tended.{Tended, Tended-reap_sessions}
use ttyleport.System.Events.{run_events-Tended}
use ttyleport.System.Shutdown.{Runs-Fits, system_round-Fits, Runs_next_id, hang_ups-over}

-- The daemon of a run is one that the daemon's rounds lead to.
Runs-Reaches :
    {my_uid n : ℕ} {s : System} {next : Next}
    → Runs my_uid n s next
    → next ≡ again
    → Reaches my_uid n s.daemon
unfolding system_round
Runs-Reaches boot e = start
Runs-Reaches (round {s = s} events o st input r) e =
    Invariant.round (run_events events s.slots).1 input (Runs-Reaches r refl) e

-- The daemon as it is when it serves a request, behind what happened beside it.
abbrev pub served : System → List Event → Daemon
served s events =
    let ran = run_events events s.slots in
    record s.daemon { sessions = apply_tasks ran.1 (reap_sessions s.daemon.sessions) }

-- The round that serves a request of the daemon's own user.
abbrev pub request_round : ℕ → System → List Event → Opening → Start → Frame → System × Next
request_round my_uid s events o st frame =
    system_round my_uid s events o st (accepted (ok my_uid) (some (ok frame)))

request_round-handle :
    (my_uid : ℕ) (s : System) (events : List Event) (o : Opening) (st : Start) (frame : Frame)
    → let out = handle (served s events) frame in
      request_round my_uid s events o st frame ≡ (
        record { daemon = out.0; slots = apply_effects o st out.1 (run_events events s.slots).0 },
        out.2,
      )
unfolding system_round step select
request_round-handle my_uid s events o st frame =
    rw ((verify_peer_uid_ok my_uid (ok my_uid)).1 refl) refl

-- The table that is served is sound, and fits its tasks.
served-IsTable :
    (my_uid n : ℕ) (s : System) (events : List Event)
    → Runs my_uid n s again
    → n + 1 < 2 ^ 32
    → IsTable s.daemon.next_id (reap_sessions (served s events).sessions)
served-IsTable my_uid n s events r room =
    let ran = run_events events s.slots in
    reaped-IsSound (served s events) (
      IsTable-apply_tasks s.daemon.next_id ran.1 (reap_sessions s.daemon.sessions)
        (reaped-IsSound s.daemon (Reaches-IsSound (Runs-Reaches r refl) room)))

served-Tended :
    (my_uid n : ℕ) (s : System) (events : List Event)
    → Runs my_uid n s again
    → n + 1 < 2 ^ 32
    → Tended
        (reap_sessions (served s events).sessions)
        s.daemon.next_id
        (run_events events s.slots).0
served-Tended my_uid n s events r room =
    let d = s.daemon in
    let ran = run_events events s.slots in
    Tended-reap_sessions (served s events).sessions d.next_id ran.0 (
      run_events-Tended (reap_sessions d.sessions) d.next_id s.slots events
        (Tended-reap_sessions d.sessions d.next_id s.slots (Runs-Fits r room).0))

other_slot : (id j : ℕ) (input : TaskInput) (f : Slots) → j ≢ id → turn_at id input f j ≡ f j
other_slot id j input f other = ground arith

-- `kill-session` ends the session and nothing else: within the first 2^32 - 3 rounds, when a request of the
-- daemon's own user is served whose target leads to a session, that session's task is over behind the
-- round, the process group of its shell, if it was started, has been hung up exactly once, its id is gone
-- from the table, and no other task is touched.
pub Runs_killed :
    (my_uid n : ℕ) (s : System) (events : List Event) (o : Opening) (st : Start) (target : Bytes)
    (id : ℕ)
    → Runs my_uid n s again
    → n + 2 < 2 ^ 32
    → resolve_session (reap_sessions (served s events).sessions) target ≡ some id
    → let (s', next) = request_round my_uid s events o st (kill_session target) in
      (next ≡ again)
      × ((sl : Slot) × (s'.slots id ≡ some sl)
          × (has_ended sl.task ≡ true)
          × (hang_ups sl.did ≡ shells sl.shell))
      × (lookup id s'.daemon.sessions ≡ none)
      × ((j : ℕ) → j ≢ id → s'.slots j ≡ (run_events events s.slots).0 j)
unfolding apply_effects
Runs_killed my_uid n s events o st target id r room found =
    let f = (run_events events s.slots).0 in
    let (named, at, _) =
      resolve_session_sound s.daemon.next_id id _ target
        (served-IsTable my_uid n s events r (omega arith)) found in
    let (old, there) = (served-Tended my_uid n s events r (omega arith)).known id (named, at) in
    let (sl, now) = turn_slot_forth aborted (f id) old there in
    let (effects, goes, gone, others) = kill_session_found (served s events) target id found in
    let whole = request_round-handle my_uid s events o st (kill_session target) in
    let self : id == id ≡ true = (==_iff id id).1 refl in
    let here : (request_round my_uid s events o st (kill_session target)).0.slots id ≡ some sl =
      rw (whole, effects, self) now in
    let over = aborted-over (f id) sl now in
    let fits =
      system_round-Fits my_uid s events o st
        (accepted (ok my_uid) (some (ok (kill_session target))))
        (omega (arith, Runs_next_id r, room)) (Runs-Fits r (omega arith)).0 in
    (
      rw whole goes,
      (
        sl,
        here,
        over,
        hang_ups-over sl.task sl.did (shells sl.shell) over (fits.0.accounted id sl here),
      ),
      rw whole gone,
      λ j other. rw (whole, effects) (other_slot id j aborted f other),
    )
