-- ===== src/Tests/Screen.antt =====
-- The theorems about the way from the shell to the terminal, and about a client that is left alone, at
-- concrete runs.
use ttyleport.Prelude.{Bytes, take, drop}
use ttyleport.Prelude.{
  ℕ, ◌≡◌, refl, true, none, some, List, [], ◌∷◌, ◌++◌, arith, codes, All, ok, pos,
}
use ttyleport.Protocol.{Frame, data_frame, exit, pong, ping}
use ttyleport.Protocol.Wire.{put_u32}
use ttyleport.Protocol.Framing.{encode_all, IsSendable}
use ttyleport.Client.Escape.{after_newline, process, process_from, round, flush}
use ttyleport.Client.Escape.Stream.{meaning}
use ttyleport.Client.Relay as Client
use ttyleport.Client.Relay.{
  World, going, returned, keys, stdin_in, tick_in, sigwinch_in, relay_loop, relay_round, on_actions,
  on_action,
}
use ttyleport.Client.Relay.Idle.{GoesOn, relay_loop-GoesOn}
use ttyleport.Client.Relay.Told.{told_exit}
use ttyleport.Client.Relay.Screen.{printed_bytes}
use ttyleport.Server.{
  Answers, Events, Relay, wrote, frame_in, pty_in, output, child_in, relaying, steps, step,
  relay_turn, on_frame, on_pty, on_child, Start, first_metadata,
}
use ttyleport.Server.Relaying.{shown_in}
use ttyleport.Protocol.Encode.{encode}
use ttyleport.Protocol.Arrival.{Arrives, joined, Arrives-sent}
use ttyleport.Server.Told.{told}
use ttyleport.Server.Screen.{printed_bytes-shown_in}

abbrev at : ℕ → World
at t = record { size = (80, 24); now = t; good_sends = 9; can_print = true; can_suspend = true }

abbrev fresh : Client.Relay
fresh = record { escape = some after_newline; last_pong = 0 }

abbrev answers : Answers
answers = record { write = wrote 1; now = 50; foreground = true; sent = true; try_wait = none }

abbrev opening : Start
opening = record {
  client = some 0;
  first_frame = none;
  pty_path = codes "/dev/pts/4";
  shell = some 77;
  now = 40;
}

abbrev shell : Relay
shell = record { connection = 0; metadata = first_metadata opening 77 }

abbrev working : Events
working =
    (answers, pty_in (output (codes "$ ")))
    ∷ (answers, frame_in (some (ok ping)))
    ∷ (answers, frame_in (some (ok (data_frame (codes "x")))))
    ∷ (answers, pty_in (output (codes "x")))
    ∷ []

abbrev watching : Client.Events
watching =
    (at 1, Client.frame_in (some (ok (data_frame (codes "$ ")))))
    ∷ (at 2, stdin_in (keys (codes "x")))
    ∷ (at 3, Client.frame_in (some (ok pong)))
    ∷ (at 4, Client.frame_in (some (ok (data_frame (codes "x")))))
    ∷ []

abbrev frames : List Frame
frames = data_frame (codes "$ ") ∷ pong ∷ data_frame (codes "x") ∷ exit (pos 3) ∷ []

goes_on : (relay_loop fresh watching).1.1 ≡ going 0
unfolding relay_loop relay_round on_actions on_action process process_from round flush
goes_on = refl

tells :
    told 0 (steps (relaying shell) (working ++ (answers, child_in (some (some (pos 3)))) ∷ [])).1
    ≡ frames
unfolding steps step relay_turn on_frame on_pty on_child
tells = refl

frames-IsSendable : All IsSendable frames
unfolding put_u32
frames-IsSendable = (
  (tt, tt, omega arith),
  ((tt, tt, omega arith), ((tt, tt, omega arith), ((omega arith, tt, omega arith), tt))),
)

-- The stream comes in three pieces, which are cut in the header of a frame and in its payload.
abbrev pieces : List Bytes
pieces =
    let stream = encode_all frames [] in
    take 3 stream ∷ take 14 (drop 3 stream) ∷ drop 17 stream ∷ []

arrived : (end : Bytes) × Arrives [] pieces frames end
unfolding encode put_u32
arrived = Arrives-sent frames pieces frames-IsSendable refl

pieces-joined : joined pieces ≡ encode_all frames []
unfolding encode put_u32
pieces-joined = refl

printed_bytes-shown_in_example :
    let (c', (acts, stay)) = relay_loop fresh (watching ++ told_exit (at 5) (pos 3) ∷ []) in
    (printed_bytes acts ≡ shown_in working) × (stay ≡ returned (some (pos 3)))
printed_bytes-shown_in_example =
    printed_bytes-shown_in shell working [] answers (child_in (some (some (pos 3)))) (pos 3) (pos 3)
      fresh watching [] (at 5) 0 pieces arrived.0 (refl, (tt, ((cc), (refl, tt))))
      (tt, (tt, (tt, (tt, tt)))) refl (refl, ((unfold meaning in refl), (refl, (refl, tt)))) goes_on
      (rw tells frames-IsSendable) (rw tells pieces-joined) arrived.1

abbrev left_alone : Client.Events
left_alone =
    (at 5_000_000_000, tick_in)
    ∷ (at 5_000_000_100, Client.frame_in (some (ok pong)))
    ∷ (at 6_000_000_000, Client.frame_in (some (ok (data_frame (codes "x")))))
    ∷ (at 7_000_000_000, sigwinch_in)
    ∷ (at 20_000_000_000, tick_in)
    ∷ []

relay_loop-GoesOn_example : GoesOn (relay_loop fresh left_alone).1.1
relay_loop-GoesOn_example =
    relay_loop-GoesOn fresh left_alone
      ((omega arith, omega arith), (tt, (refl, (omega arith, ((omega arith, omega arith), tt)))))
