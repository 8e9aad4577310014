-- ===== src/Main/Cli/Status.antt =====
-- The exit status of `gritty attach` and `gritty new`: from the server's exit frame over the codec,
-- the relay and the outer loop of the client to the end of `main` of src/main.rs.
use ttyleport.Prelude.{zero, suc, append-nil, ◌∙◌}
use ttyleport.Prelude.{
  ℕ, ℤ, ◌≡◌, refl, ap, Bool, true, false, not, Option, some, List, [], ◌∷◌, ◌++◌, Bytes, ok, Result,
}
use ttyleport.Files.{FilePath, FileSystem}
use mathlib.Core.Option.{get_or}
use ttyleport.Protocol.{Frame, expect_from, exit, ok_frame, session_created}
use ttyleport.Protocol.Framing.{IsSendable}
use ttyleport.Client.Escape.{EscapeState}
use ttyleport.Client.Relay.{
  World, Stay, going, returned, failed, Round, Relay, frame_in, Doing, Events, relay_loop, relay,
  Input, relay_from, send_all, opening_frames,
}
use ttyleport.Client.Run.{Life, relayed, exited, first_escape, run_loop, run}
use ttyleport.Main.{
  collect_env_vars, attach_command, new_session_command, daemon_request, wait_for_daemon,
  CommandError, Attached,
}
use ttyleport.Client.Relay.Screen.{
  printed_bytes, printed_bytes-append, printed_going, screen, relay_loop-Prints,
}
use ttyleport.Client.Relay.Told.{relay_loop-exit}
use ttyleport.Main.Requests.{wire, wire-sendable}
use ttyleport.Main.Cli.{
  Command, new_session, attach, Meeting, Cli, ctl_path, LaunchMeeting, run_command, main_ending,
  after_waiting, attached_ending, client_output,
}

abbrev pub stay_of : Round → Stay
stay_of x = x.1.1

-- The frame that ends the session, as it arrives.
abbrev pub arriving_exit : World → ℤ → World × Input
arriving_exit w code = (w, frame_in (wire (exit code)))

relay_loop-arriving_exit :
    (r : Relay) (front rest : Events) (w : World) (code : ℤ) (m : ℕ)
    → IsSendable (exit code)
    → stay_of (relay_loop r front) ≡ going m
    → (relay_loop r (front ++ (arriving_exit w code ∷ rest))).1
      ≡ ((relay_loop r front).1.0, returned (some code))
relay_loop-arriving_exit r front rest w code m h on =
    rw (wire-sendable (exit code) h) (relay_loop-exit r front rest w code m on)

relay_from-exit :
    (now : ℕ) (escape : Option EscapeState) (front rest : Events) (w : World) (code : ℤ) (m : ℕ)
    (doing : Doing)
    → IsSendable (exit code)
    → stay_of (relay_from now escape front doing) ≡ going m
    → (relay_from now escape (front ++ (arriving_exit w code ∷ rest)) doing).1
      ≡ ((relay_from now escape front doing).1.0, returned (some code))
relay_from-exit now escape front rest w code m (acts, going n) h on =
    rw
      (relay_loop-arriving_exit (record { escape = escape; last_pong = now }) front rest w code m h
        on)
      refl
relay_from-exit now escape front rest w code m (acts, returned c) h on = cc on
relay_from-exit now escape front rest w code m (acts, failed) h on = cc on

-- A relay that goes on until the server's exit frame returns its code, and does nothing more.
relay-exit :
    (first : World) (vars : List (Bytes × Bytes)) (redraw : Bool) (escape : Option EscapeState)
    (front rest : Events) (w : World) (code : ℤ) (m : ℕ)
    → IsSendable (exit code)
    → stay_of (relay first vars redraw escape front) ≡ going m
    → (relay first vars redraw escape (front ++ (arriving_exit w code ∷ rest))).1
      ≡ ((relay first vars redraw escape front).1.0, returned (some code))
unfolding relay
relay-exit first vars redraw escape front rest w code m h on =
    relay_from-exit first.now escape front rest w code m
      (send_all first.good_sends (opening_frames first vars redraw)) h on

-- The opening frames write nothing.
send_all-silent : (n : ℕ) (frames : List Frame) → printed_bytes (send_all n frames).0 ≡ []
unfolding send_all
send_all-silent n [] = refl
send_all-silent zero (f ∷ frames) = refl
send_all-silent (suc n) (f ∷ frames) = send_all-silent n frames

relay_from-screen :
    (now : ℕ) (escape : Option EscapeState) (events : Events) (m : ℕ) (doing : Doing)
    → printed_bytes doing.0 ≡ []
    → stay_of (relay_from now escape events doing) ≡ going m
    → printed_bytes (relay_from now escape events doing).1.0 ≡ screen escape events
relay_from-screen now escape events m (acts, going n) quiet on =
    let r : Relay = record { escape = escape; last_pong = now } in
    printed_bytes-append acts (relay_loop r events).1.0
    ∙ rw quiet (
        printed_going (screen escape events) (relay_loop r events).1 m on
          (relay_loop-Prints r escape events refl))
relay_from-screen now escape events m (acts, returned c) quiet on = cc on
relay_from-screen now escape events m (acts, failed) quiet on = cc on

run-exit :
    (session : Bytes) (vars : List (Bytes × Bytes)) (redraw no_escape : Bool) (life : Life)
    (lives : List Life) (front rest : Events) (w : World) (code : ℤ) (m : ℕ)
    → IsSendable (exit code)
    → life.events ≡ front ++ (arriving_exit w code ∷ rest)
    → stay_of (relay life.world vars redraw (first_escape no_escape) front) ≡ going m
    → run session vars redraw no_escape (life ∷ lives) ≡ (
      relayed (relay life.world vars redraw (first_escape no_escape) front).1.0 ∷ [],
      exited code,
    )
unfolding run run_loop
run-exit session vars redraw no_escape life lives front rest w code m h events on =
    rw (events, relay-exit life.world vars redraw (first_escape no_escape) front rest w code m h on)
      refl

after_waiting-run :
    (waited : ℕ × Bool) (r : Result CommandError Attached)
    → waited.1 ≡ true
    → after_waiting waited r ≡ attached_ending r
after_waiting-run (n, true) r waits = refl
after_waiting-run (n, false) r waits = cc waits

-- The two commands that run a client, where the daemon gives them a session: the session that the
-- client asks for when it attaches again, its variables, whether it redraws, and `--no-escape`.
pub data Attaches (w : Meeting) (path : FilePath)
    : Command → Bytes → List (Bytes × Bytes) → Bool → Bool → Type 0 where
  by_attach :
      {target : Bytes} {no_redraw no_escape : Bool}
      → (wait_for_daemon w.tries).1 ≡ true
      → (w.listening path (Frame.attach target)).sent ≡ true
      → (w.listening path (Frame.attach target)).answer ≡ some (ok ok_frame)
      → Attaches w path (attach target no_redraw no_escape) target [] (not no_redraw) no_escape
  by_new :
      {target : Option Bytes} {no_escape : Bool} (id : Bytes)
      → daemon_request (w.listening path) (Frame.new_session (get_or target []))
        ≡ ok (session_created id)
      → Attaches w path (new_session target no_escape) id (collect_env_vars w.var) false no_escape

main_ending-run :
    (F : FileSystem) (l : LaunchMeeting F) (w : Meeting) (cli : Cli) (command : Command)
    (session : Bytes) (vars : List (Bytes × Bytes)) (redraw no_escape : Bool)
    → cli.command ≡ command
    → Attaches w (ctl_path w cli.ctl_socket) command session vars redraw no_escape
    → w.runtime ≡ true
    → main_ending F l w cli ≡ attached_ending (ok ([], run session vars redraw no_escape w.lives))
unfolding main_ending run_command attach_command new_session_command expect_from
main_ending-run F l w cli command session vars redraw no_escape is (by_attach waits sent answer)
      up =
    rw (is, up, sent, answer) (after_waiting-run (wait_for_daemon w.tries) _ waits)
main_ending-run F l w cli command session vars redraw no_escape is (by_new id answer) up =
    rw (is, up, answer) refl

-- The exit status of the shell is that of `gritty attach` and of `gritty new`: where the daemon gives the
-- command a session and the relay goes on until the server's exit frame comes, which the frame's
-- code must let it be sent, the process exits with that code, and it has written to stdout exactly the
-- server's Data frames and the help that the typed text asks for, in order and once.
pub main_ending-exit :
    (F : FileSystem) (l : LaunchMeeting F) (w : Meeting) (cli : Cli) (session : Bytes)
    (vars : List (Bytes × Bytes)) (redraw no_escape : Bool) (life : Life) (lives : List Life)
    (front rest : Events) (u : World) (code : ℤ) (m : ℕ)
    → Attaches w (ctl_path w cli.ctl_socket) cli.command session vars redraw no_escape
    → w.runtime ≡ true
    → w.lives ≡ life ∷ lives
    → IsSendable (exit code)
    → life.events ≡ front ++ (arriving_exit u code ∷ rest)
    → stay_of (relay life.world vars redraw (first_escape no_escape) front) ≡ going m
    → main_ending F l w cli ≡ (some code, screen (first_escape no_escape) front)
unfolding client_output relay
main_ending-exit F l w cli session vars redraw no_escape life lives front rest u code m attaches up
      is_life h events on =
    let opening = send_all life.world.good_sends (opening_frames life.world vars redraw) in
    let shown =
      relay_from-screen life.world.now (first_escape no_escape) front m opening
        (send_all-silent life.world.good_sends (opening_frames life.world vars redraw)) on in
    main_ending-run F l w cli cli.command session vars redraw no_escape refl attaches up
    ∙ rw
        (
          is_life,
          run-exit session vars redraw no_escape life lives front rest u code m h events on,
          append-nil,
        )
        (ap (λ (text : Bytes). (some code, text)) shown)
