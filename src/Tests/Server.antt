-- ===== src/Tests/Server.antt =====
-- The theorems about src/server.rs at a concrete session.
use ttyleport.Prelude.{true, List, [], ◌∷◌, some, none, codes, ok, ◌≡◌, ◌≢◌, refl, All, pos}
use ttyleport.Protocol.{data_frame, exit, detached, env}
use ttyleport.Server.{
  Answers, Input, Effect, Start, Relay, wrote, output, eof, frame_in, pty_in, client_in, send,
  pty_input, relaying, ended, step, relay_turn, on_frame, on_client, on_pty, steps, first_metadata,
}
use ttyleport.Server.Task.{Opening, TaskInput, turn, aborted, run_task}
use ttyleport.Server.Task.Hangup.{Accounts, run_task-Accounts}
use ttyleport.Server.Trace.{SendsTo, steps_takeover}

abbrev answers : Answers
answers = record {
  write = wrote 4096;
  now = 50;
  foreground = true;
  sent = true;
  try_wait = some (some (pos 3));
}

abbrev opening : Start
opening = record {
  client = some 0;
  first_frame = some (some (ok (env ((codes "TERM", codes "xterm") ∷ []))));
  pty_path = codes "/dev/pts/4";
  shell = some 77;
  now = 40;
}

abbrev relay : Relay
relay = record { connection = 0; metadata = first_metadata opening 77 }

abbrev typed_ls : Answers × Input
typed_ls = (answers, frame_in (some (ok (data_frame (codes "ls\n")))))

abbrev shows_a : Answers × Input
shows_a = (answers, pty_in (output (codes "a")))

abbrev attaches : Answers × Input
attaches = (answers, client_in (some 1))

whole_session :
    steps (relaying relay) (typed_ls ∷ attaches ∷ shows_a ∷ (answers, pty_in eof) ∷ []) ≡ (
      ended,
      pty_input (codes "ls\n")
          ∷ send 0 detached
          ∷ send 1 (data_frame (codes "a"))
          ∷ send 1 (exit (pos 3))
          ∷ [],
    )
unfolding steps step relay_turn on_frame on_client on_pty
whole_session = refl

steps_takeover_example :
    (later : List Effect) × ((steps (relaying relay) (attaches ∷ shows_a ∷ [])).1
      ≡ send 0 detached ∷ later)
    × All (SendsTo (λ c. c ≢ 0)) later
steps_takeover_example = steps_takeover answers relay 1 (shows_a ∷ []) (cc) (tt, tt)

abbrev opened : Opening
opened = record {
  openpty = true;
  ttyname = some (codes "/dev/pts/4");
  dup_stdin = true;
  dup_stdout = true;
  dup_stderr = true;
  get_flags = true;
  set_flags = true;
  async_fd = true;
}

-- The client leaves, and the daemon aborts the task.
abbrev killed : List TaskInput
killed = turn answers (frame_in none) ∷ aborted ∷ []

run_task-Accounts_example : Accounts (77 ∷ []) (run_task opened opening killed)
run_task-Accounts_example = run_task-Accounts opened opening killed refl
