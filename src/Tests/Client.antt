-- ===== src/Tests/Client.antt =====
-- The theorems about src/client.rs at a concrete terminal.
use ttyleport.Prelude.{
  ℕ, true, false, [], ◌∷◌, ◌++◌, ◌+◌, some, none, codes, ok, ◌≡◌, refl, arith, All,
}
use ttyleport.Protocol.{data_frame, resize, env, ok_frame}
use ttyleport.Client.Escape.{after_newline, process, process_from, round, flush}
use ttyleport.Client.Relay.{
  World, Relay, Events, send, print, going, eof, keys, stdin_in, frame_in, sigwinch_in, tick_in,
  relay, relay_loop, relay_round, on_actions, on_action, send_all, opening_frames,
}
use ttyleport.Client.Reconnect.{Try, reconnected, reconnect}
use ttyleport.Client.Reconnect.Persists.{Attaches, reconnect_persists}
use ttyleport.Client.Stdout.{
  wrote, write_would_block, flushed, flush_interrupted, finished, write_stdout,
  write_stdout-finished,
}
use ttyleport.Client.Run.{Life, run}
use ttyleport.Client.Run.{run_loop}
use ttyleport.Client.Terminal.{TerminalTypes, Calls, Terminal, has_ended, run_in_terminal}
use ttyleport.Client.Terminal.Restored.{Restored, run_in_terminal-Restored}
use ttyleport.Client.Relay.Typing.{Typed, relay_loop-Typed}
use ttyleport.Client.Relay.Heartbeat.{HasEnded, relay_loop-HasEnded}

abbrev at : ℕ → World
at t = record { size = (80, 24); now = t; good_sends = 9; can_print = true; can_suspend = true }

abbrev fresh : Relay
fresh = record { escape = some after_newline; last_pong = 0 }

abbrev evening : Events
evening =
    (at 1, stdin_in (keys (codes "~")))
    ∷ (at 2, sigwinch_in)
    ∷ (at 3, stdin_in (keys (codes "~x")))
    ∷ (at 4, frame_in (some (ok (data_frame (codes "out")))))
    ∷ []

sends_one_tilde :
    (relay_loop fresh evening).1
    ≡ (send (resize 80 24) ∷ send (data_frame (codes "~x")) ∷ print (codes "out") ∷ [], going 0)
unfolding relay_loop relay_round on_actions on_action process process_from round flush
sends_one_tilde = refl

opens :
    (relay (at 0) ((codes "A", codes "b") ∷ []) true (some after_newline) []).1.0
    ≡ send (env ((codes "A", codes "b") ∷ []))
      ∷ send (resize 80 24)
      ∷ send (data_frame (0x0c ∷ []))
      ∷ []
unfolding relay relay_loop send_all opening_frames
opens = refl

relay_loop-Typed_example : Typed after_newline (codes "~~x") (relay_loop fresh evening)
relay_loop-Typed_example = relay_loop-Typed after_newline fresh evening refl

relay_loop-HasEnded_example :
    HasEnded (relay_loop fresh (evening ++ (at 15_000_000_001, tick_in) ∷ [])).1.1
relay_loop-HasEnded_example =
    relay_loop-HasEnded fresh evening (at 15_000_000_001) [] (tt, (tt, (tt, (tt, tt))))
      (omega arith)

abbrev refused : Try
refused = record {
  peek = some b'x';
  can_print = true;
  connected = false;
  sent = true;
  answer = none;
}

abbrev accepted_again : Try
accepted_again = record {
  peek = none;
  can_print = true;
  connected = true;
  sent = true;
  answer = some (ok ok_frame);
}

reconnect_persists_example :
    ((reconnect (codes "w") (refused ∷ accepted_again ∷ [])).1 ≡ reconnected)
    × All (Attaches (codes "w")) (reconnect (codes "w") (refused ∷ accepted_again ∷ [])).0
reconnect_persists_example =
    reconnect_persists (codes "w") (refused ∷ []) accepted_again [] ((refl, λ h. tt), tt)
      (refl, refl, refl, refl, refl)

write_stdout-finished_example :
    write_stdout
      (codes "abc")
      (write_would_block ∷ wrote 2 ∷ wrote 0 ∷ wrote 9 ∷ wrote 1 ∷ [])
      (flush_interrupted ∷ flushed ∷ [])
    ≡ (codes "abc", finished)
write_stdout-finished_example =
    write_stdout-finished (codes "abc")
      (write_would_block ∷ wrote 2 ∷ wrote 0 ∷ wrote 9 ∷ wrote 1 ∷ [])
      (flush_interrupted ∷ flushed ∷ []) tt tt

-- Modes and flags as numbers: 0 is raw, and 2048 is the flag that the second guard sets.
abbrev numbered : TerminalTypes
numbered = record {
  Modes = ℕ;
  Flags = ℕ;
  cfmakeraw = λ modes. 0;
  from_bits_truncate = λ flags. flags;
  or_nonblock = λ flags. flags + 2048;
}

abbrev all_succeed : Calls
all_succeed = record {
  tcgetattr = true;
  tcsetattr = true;
  get_flags = true;
  set_flags = true;
  async_fd = true;
  sigwinch = true;
  reset_flags = true;
  reset_modes = true;
}

abbrev cooked : Terminal numbered
cooked = record { modes = 5; flags = 2 }

-- `~^Z`, and then the keyboard ends.
abbrev one_life : Life
one_life = record {
  world = at 0;
  events = (at 1, stdin_in (keys (0x7e ∷ 0x1a ∷ []))) ∷ (at 2, stdin_in eof) ∷ [];
  can_print = true;
  tries = [];
}

-- The shell makes the terminal cooked and blocking again.
abbrev cooked_again : Terminal numbered → Terminal numbered
cooked_again t = cooked

one_life_ends : has_ended numbered (run (codes "w") [] false false (one_life ∷ [])).1 ≡ true
unfolding run run_loop relay relay_loop relay_round send_all opening_frames on_actions on_action
    process process_from round flush
one_life_ends = refl

run_in_terminal-Restored_example :
    Restored numbered cooked (run (codes "w") [] false false (one_life ∷ [])) (
      run_in_terminal numbered cooked_again all_succeed cooked
        (codes "w")
        []
        false
        false
        (one_life ∷ []))
run_in_terminal-Restored_example =
    run_in_terminal-Restored numbered cooked_again all_succeed cooked (codes "w") [] false false
      (one_life ∷ []) refl refl refl one_life_ends

suspends_once :
    (run_in_terminal numbered cooked_again all_succeed cooked
      (codes "w")
      []
      false
      false
      (one_life ∷ [])).suspends
    ≡ record { modes = 0; flags = 2050 } ∷ []
unfolding run_in_terminal run run_loop relay relay_loop relay_round send_all opening_frames
    on_actions on_action process process_from round flush
suspends_once = refl
