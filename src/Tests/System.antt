-- ===== src/Tests/System.antt =====
-- The theorems about the daemon with its tasks at a session that is created and aborted.
use ttyleport.Prelude.{
  ◌≡◌, refl, subst, true, false, none, some, [], ◌∷◌, ◌++◌, arith, codes, ok, ℕ, ◌≢◌,
}
use ttyleport.Protocol.{new_session, kill_server, kill_session}
use ttyleport.Security.{verify_peer_uid}
use ttyleport.Daemon.{
  reap_sessions, retain, find_by_name, insert, remove, lookup, resolve_session, is_named,
}
use ttyleport.Daemon.Step.{
  Next, again, done, Input, accepted, step, select, apply_tasks, handle, handle_new_session, is_dup,
  create_session, abort_all,
}
use ttyleport.Server.{Start, start}
use ttyleport.Server.Task.{Opening, aborted, task_start, task_step}
use ttyleport.Server.Task.Hangup.{hang_ups, shells}
use ttyleport.System.{
  Slot, System, booted, Runs, boot, round, system_round, has_ended, apply_effects, run_events,
}
use ttyleport.System.Slots.{Live}
use ttyleport.System.Killed.{served, request_round, Runs_killed}
use ttyleport.System.Shutdown.{Runs-Live, Runs_done}

abbrev opened : Opening
opened = record {
  openpty = true;
  ttyname = none;
  dup_stdin = true;
  dup_stdout = true;
  dup_stderr = true;
  get_flags = true;
  set_flags = true;
  async_fd = true;
}

abbrev opening : Start
opening = record { client = some 0; first_frame = none; pty_path = []; shell = some 77; now = 40 }

abbrev asks_new : Input
asks_new = accepted (ok 1000) (some (ok (new_session (codes "w"))))

abbrev asks_end : Input
asks_end = accepted (ok 1000) (some (ok kill_server))

abbrev working : System
working = (system_round 1000 booted [] opened opening asks_new).0

abbrev ended : System
ended = (system_round 1000 working [] opened opening asks_end).0

works_again : (system_round 1000 booted [] opened opening asks_new).1 ≡ again
unfolding system_round step select verify_peer_uid apply_tasks reap_sessions retain handle
    handle_new_session is_dup create_session find_by_name
works_again = refl

working_runs : Runs 1000 1 working again
working_runs =
    subst (λ (next : Next). Runs 1000 1 working next) works_again
      (round [] opened opening asks_new boot)

ends_done : (system_round 1000 working [] opened opening asks_end).1 ≡ done
unfolding system_round step select verify_peer_uid handle
ends_done = refl

ended_runs : Runs 1000 2 ended done
ended_runs =
    subst (λ (next : Next). Runs 1000 2 ended next) ends_done
      (round [] opened opening asks_end working_runs)

abbrev works : Slot
works = record {
  task = (task_start opened opening).0;
  did = (task_start opened opening).1;
  shell = some 77;
}

works_in : working.slots 0 ≡ some works
unfolding system_round step select verify_peer_uid apply_tasks reap_sessions retain handle
    handle_new_session is_dup create_session find_by_name apply_effects run_events
works_in = refl

works_runs : has_ended works.task ≡ false
unfolding task_start start
works_runs = refl

Runs-Live_example : Live 0 working.daemon.sessions
Runs-Live_example = Runs-Live working_runs (omega arith) 0 works works_in works_runs

abbrev stopped : Slot
stopped = record {
  task = (task_step works.task aborted).0;
  did = works.did ++ (task_step works.task aborted).1;
  shell = some 77;
}

stopped_in : ended.slots 0 ≡ some stopped
unfolding system_round step select verify_peer_uid apply_tasks reap_sessions retain handle
    handle_new_session is_dup create_session find_by_name apply_effects run_events abort_all insert
    remove
stopped_in = refl

Runs_done_example : (has_ended stopped.task ≡ true) × (hang_ups stopped.did ≡ 77 ∷ [])
Runs_done_example = Runs_done ended_runs (omega arith) 0 stopped stopped_in

w_resolves : resolve_session (reap_sessions (served working []).sessions) (codes "w") ≡ some 0
unfolding system_round step select verify_peer_uid apply_tasks reap_sessions retain handle
    handle_new_session is_dup create_session find_by_name is_named resolve_session insert run_events
w_resolves = refl

Runs_killed_example :
    let (s', next) = request_round 1000 working [] opened opening (kill_session (codes "w")) in
    (next ≡ again)
    × ((sl : Slot) × (s'.slots 0 ≡ some sl)
        × (has_ended sl.task ≡ true)
        × (hang_ups sl.did ≡ shells sl.shell))
    × (lookup 0 s'.daemon.sessions ≡ none)
    × ((j : ℕ) → j ≢ 0 → s'.slots j ≡ (run_events [] working.slots).0 j)
Runs_killed_example =
    Runs_killed 1000 1 working [] opened opening (codes "w") 0 working_runs (omega arith) w_resolves
