-- ===== src/System/Shutdown.antt =====
-- Every run of the daemon of src/daemon.rs with its tasks, and how it ends.
use ttyleport.Prelude.{
  ℕ, ◌+◌, ◌^◌, ◌≤◌, ◌<◌, ◌≡◌, refl, sym, ◌∙◌, ◌≢◌, Bool, true, false, Option, none, some, List, [],
  ◌∷◌, append-nil, arith, Bytes, Result, ok, err,
}
use ttyleport.Protocol.{
  Frame, DecodeError, new_session, attach, kill_session, list_sessions, kill_server, ok_frame,
}
use ttyleport.Security.{verify_peer_uid, PeerError}
use ttyleport.Daemon.{reap_sessions, lookup}
use ttyleport.Daemon.Step.{
  Daemon, reply, Next, again, done, failed, Outcome, Input, accepted, accept_error, sigterm, sigint,
  apply_tasks, create_session, handle_new_session, handle_attach, handle_kill_session, attach_to,
  attach_found, kill_found, handle, reaped, serve, admit, select, step, abort_all,
}
use ttyleport.Daemon.Invariant.{step_next_id}
use ttyleport.Server.Task.{Opening, Task, TaskEffect, alive, over}
use ttyleport.Server.Task.Hangup.{hang_ups, shells, Accounts}
use ttyleport.Server.{Start}
use ttyleport.System.{
  Slot, Slots, apply_effects, Event, has_ended, run_events, System, system_round, Runs, boot, round,
}
use ttyleport.System.Slots.{Live}
use ttyleport.System.Tended.{Tended, Ended, Tended-reap_sessions}
use ttyleport.System.Rounds.{After, handle-After, shutdown-Tended, apply_effects-append}
use ttyleport.System.Events.{run_events-Tended}

attach_to-again :
    (d : Daemon) (session : Bytes) (id : ℕ) (closed : Bool)
    → (attach_to d session id closed).2 ≡ again
attach_to-again d session id true = refl
attach_to-again d session id false = refl

attach_found-again :
    (d : Daemon) (session : Bytes) (found : Option ℕ) → (attach_found d session found).2 ≡ again
attach_found-again d session none = refl
attach_found-again d session (some id) = attach_to-again d session id _

kill_found-again :
    (d : Daemon) (session : Bytes) (found : Option ℕ) → (kill_found d session found).2 ≡ again
kill_found-again d session none = refl
kill_found-again d session (some id) = refl

handle_new_session-again : (d : Daemon) (name : Bytes) → (handle_new_session d name).2 ≡ again
unfolding handle_new_session create_session
handle_new_session-again d name = ground arith

module _ (o : Opening) (st : Start) where
  -- The round's tasks fit its table, and none runs if the daemon is done.
  abbrev Settled : Slots → Outcome → Type 0
  Settled f (d, es, next) =
      Tended d.sessions d.next_id (apply_effects o st es f)
      × (next ≡ done → (j : ℕ) → Ended j (apply_effects o st es f))

  going-Settled : (f : Slots) (out : Outcome) → After o st f out → out.2 ≡ again → Settled f out
  going-Settled f (d, es, next) h goes = (h, λ ends. cc (goes, ends))

  handle-Settled :
      (d : Daemon) (f : Slots) (frame : Frame)
      → d.next_id + 1 < 2 ^ 32
      → Tended d.sessions d.next_id f
      → Settled f (handle d frame)
  handle-Settled d f (new_session name) room h =
      going-Settled f _ (handle-After o st d f (new_session name) room h)
        (unfold handle in handle_new_session-again d name)
  handle-Settled d f (attach session) room h =
      going-Settled f _ (handle-After o st d f (attach session) room h)
        (unfold handle handle_attach in attach_found-again (reaped d) session _)
  handle-Settled d f list_sessions room h =
      going-Settled f _ (handle-After o st d f list_sessions room h) (unfold handle in refl)
  handle-Settled d f (kill_session session) room h =
      going-Settled f _ (handle-After o st d f (kill_session session) room h)
        (unfold handle handle_kill_session in kill_found-again (reaped d) session _)
  handle-Settled d f kill_server room h =
      unfold handle apply_effects in
      rw (apply_effects-append o st (abort_all d.sessions) (reply ok_frame ∷ []) f) (
        (shutdown-Tended o st d.sessions d.next_id f h).0,
        λ _. (shutdown-Tended o st d.sessions d.next_id f h).1,
      )
  handle-Settled d f frame room h =
      going-Settled f _ (handle-After o st d f frame room h) (unfold handle in refl)

  idle-Settled :
      (d : Daemon) (f : Slots) (next : Next)
      → next ≢ done
      → Tended d.sessions d.next_id f
      → Settled f (d, [], next)
  unfolding apply_effects
  idle-Settled d f next going h = (h, λ ends. absurd (going ends))

  serve-Settled :
      (d : Daemon) (f : Slots) (first : Option (Result DecodeError Frame))
      → d.next_id + 1 < 2 ^ 32
      → Tended d.sessions d.next_id f
      → Settled f (serve d first)
  serve-Settled d f none room h = idle-Settled d f again (cc) h
  serve-Settled d f (some (ok frame)) room h = handle-Settled d f frame room h
  serve-Settled d f (some (err e)) room h = idle-Settled d f again (cc) h

  admit-Settled :
      (d : Daemon) (f : Slots) (allowed : Result PeerError (Unit {0}))
      (first : Option (Result DecodeError Frame))
      → d.next_id + 1 < 2 ^ 32
      → Tended d.sessions d.next_id f
      → Settled f (admit d allowed first)
  admit-Settled d f (ok _) first room h = serve-Settled d f first room h
  admit-Settled d f (err e) first room h = idle-Settled d f again (cc) h

  select-Settled :
      (my_uid : ℕ) (d : Daemon) (f : Slots) (input : Input)
      → d.next_id + 1 < 2 ^ 32
      → Tended d.sessions d.next_id f
      → Settled f (select my_uid d input)
  unfolding select
  select-Settled my_uid d f (accepted cred first) room h =
      admit-Settled d f (verify_peer_uid my_uid cred) first room h
  select-Settled my_uid d f accept_error room h = idle-Settled d f failed (cc) h
  select-Settled my_uid d f sigterm room h =
      let (kept, ended) = shutdown-Tended o st d.sessions d.next_id f h in (kept, λ _. ended)
  select-Settled my_uid d f sigint room h =
      let (kept, ended) = shutdown-Tended o st d.sessions d.next_id f h in (kept, λ _. ended)

-- The system's tasks fit its table, and none runs if the daemon is done.
abbrev pub Fits : System → Next → Type 0
Fits s next =
    Tended s.daemon.sessions s.daemon.next_id s.slots × (next ≡ done → (j : ℕ) → Ended j s.slots)

pub system_round-Fits :
    (my_uid : ℕ) (s : System) (events : List Event) (o : Opening) (st : Start) (input : Input)
    → s.daemon.next_id + 1 < 2 ^ 32
    → Tended s.daemon.sessions s.daemon.next_id s.slots
    → Fits (system_round my_uid s events o st input).0 (system_round my_uid s events o st input).1
unfolding system_round step
system_round-Fits my_uid s events o st input room h =
    let d = s.daemon in
    let ran = run_events events s.slots in
    select-Settled o st my_uid
      (record d { sessions = apply_tasks ran.1 (reap_sessions d.sessions) }) ran.0 input room
      (run_events-Tended (reap_sessions d.sessions) d.next_id s.slots events
        (Tended-reap_sessions d.sessions d.next_id s.slots h))

booted-Tended : Tended [] 0 (λ id. none)
unfolding lookup
booted-Tended = record {
  live = λ j sl e. cc e;
  known = λ j (s, l). cc l;
  fresh = λ j le. refl;
  accounted = λ j sl e. cc e;
}

pub Runs_next_id :
    {my_uid n : ℕ} {s : System} {next : Next} → Runs my_uid n s next → s.daemon.next_id ≤ n
unfolding system_round
Runs_next_id boot = omega arith
Runs_next_id (round {s = s} events o st input r) =
    omega (arith, step_next_id _ s.daemon (run_events events s.slots).1 input, Runs_next_id r)

pub Runs-Fits :
    {my_uid n : ℕ} {s : System} {next : Next} → Runs my_uid n s next → n + 1 < 2 ^ 32 → Fits s next
Runs-Fits boot room = (booted-Tended, λ ends. cc ends)
Runs-Fits (round {s = s} events o st input r) room =
    system_round-Fits _ s events o st input (omega (arith, Runs_next_id r))
      (Runs-Fits r (omega arith)).0

-- No task is lost: within the first 2^32 - 2 rounds, whatever clients, sessions and the operating system
-- do, a session whose task runs is in the daemon's table, not marked as finished and with its channel
-- open.
pub Runs-Live :
    {my_uid n : ℕ} {s : System} {next : Next}
    → Runs my_uid n s next
    → n + 1 < 2 ^ 32
    → (j : ℕ) (sl : Slot) → s.slots j ≡ some sl
    → has_ended sl.task ≡ false
    → Live j s.daemon.sessions
Runs-Live r room = (Runs-Fits r room).0.live

pub hang_ups-over :
    (t : Task) (did : List TaskEffect) (groups : List ℕ)
    → has_ended t ≡ true
    → Accounts groups (t, did)
    → hang_ups did ≡ groups
hang_ups-over over did groups ended h = sym (append-nil (hang_ups did)) ∙ h
hang_ups-over (alive s pgid) did groups ended h = cc ended

-- No shell is left behind: when the daemon is done, by `kill-server`, SIGTERM or SIGINT, within the first
-- 2^32 - 2 rounds, every task that it ever spawned is over, and the process group of each shell that
-- was ever started was hung up exactly once by its task, and no other.
pub Runs_done :
    {my_uid n : ℕ} {s : System}
    → Runs my_uid n s done
    → n + 1 < 2 ^ 32
    → (j : ℕ) (sl : Slot) → s.slots j ≡ some sl
    → (has_ended sl.task ≡ true) × (hang_ups sl.did ≡ shells sl.shell)
Runs_done r room j sl e =
    let (h, ended) = Runs-Fits r room in
    let gone = ended refl j sl e in
    (gone, hang_ups-over sl.task sl.did (shells sl.shell) gone (h.accounted j sl e))
