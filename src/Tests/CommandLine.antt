-- ===== src/Tests/CommandLine.antt =====
-- The theorem about the exit status of `gritty attach` at a server that ends its shell with 3.
use ttyleport.Prelude.{pos, ◌≡◌, refl, true, false, none, some, [], ◌∷◌, ◌++◌, codes, ok, arith}
use ttyleport.Files.Memory.{memory_files}
use ttyleport.Protocol.Wire.{put_u32}
use ttyleport.Protocol.{exit, ok_frame, data_frame}
use ttyleport.Protocol.Framing.{IsSendable}
use ttyleport.Client.Relay.{
  World, Events, frame_in, going, opening_frames, send_all, relay, relay_loop, relay_round,
}
use ttyleport.Client.Run.{Life, first_escape}
use ttyleport.Connect.Tunnel.{Meets, not_run}
use ttyleport.Main.{Exchange, wait_for_daemon}
use ttyleport.Main.Cli.{Cli, Command, Meeting, LaunchMeeting, main_ending}
use ttyleport.Main.Cli.Status.{arriving_exit, stay_of, by_attach, main_ending-exit}

abbrev world : World
world = record { size = (80, 24); now = 5; good_sends = 9; can_print = true; can_suspend = true }

-- The shell writes before it ends.
abbrev front : Events
front = (world, frame_in (some (ok (data_frame (codes "bye"))))) ∷ []

abbrev life : Life
life = record {
  world = world;
  events = front ++ (arriving_exit world (pos 3) ∷ []);
  can_print = true;
  tries = [];
}

abbrev listening : Exchange
listening = record { connected = true; sent = true; answer = some (ok ok_frame) }

abbrev no_tunnel : Meets
no_tunnel = record {
  pid = 12;
  remote = not_run;
  directory = ok tt;
  child = none;
  start = 0;
  polls = [];
  signals = true;
  killed_after = none;
}

abbrev meeting : Meeting
meeting = record {
  process = record { uid = 7; xdg_runtime_dir = none };
  listening = λ path frame. listening;
  var = λ k. none;
  localtime = λ t. none;
  now = 60;
  lives = life ∷ [];
  tries = false ∷ true ∷ [];
  tunnel = no_tunnel;
  runtime = true;
}

abbrev cli : Cli
cli = record {
  ctl_socket = none;
  verbose = false;
  command = Command.attach (codes "4") false false;
}

abbrev launch : LaunchMeeting (memory_files 7)
launch = record {
  calls = record {
    pipe = true;
    fork = true;
    setsid = true;
    open_devnull = true;
    dup2_stdin = true;
    dup2_stdout = true;
    dup2_stderr = true;
    close_devnull = true;
    runtime = true;
    write_byte = true;
    read_byte = true;
  };
  devnull = 3;
  pid = 12;
  signals = ok tt;
  files = λ p. none;
}

goes_on : stay_of (relay world [] true (first_escape false) front) ≡ going 0
unfolding relay relay_loop relay_round opening_frames send_all
goes_on = refl

exit-IsSendable : IsSendable (exit (pos 3))
unfolding put_u32
exit-IsSendable = (omega arith, tt, omega arith)

main_ending-exit_example :
    main_ending (memory_files 7) launch meeting cli ≡ (some (pos 3), codes "bye")
main_ending-exit_example =
    main_ending-exit (memory_files 7) launch meeting cli (codes "4") [] true false life [] front []
      world (pos 3) 0 (by_attach (unfold wait_for_daemon in refl) refl refl) refl refl
      exit-IsSendable refl goes_on
