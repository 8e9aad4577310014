-- ===== src/Tests/Keyboard.antt =====
-- The theorem about the way from the keyboard to the shell at a concrete run.
use ttyleport.Prelude.{Bytes, List, take, drop}
use ttyleport.Prelude.{ℕ, ◌≡◌, refl, true, none, some, [], ◌∷◌, arith, codes, All, ok}
use ttyleport.Protocol.{data_frame}
use ttyleport.Protocol.Framing.{encode_all, IsSendable}
use ttyleport.Client.Escape.{after_newline, process, process_from, round, flush}
use ttyleport.Client.Escape.Stream.{meaning}
use ttyleport.Client.Relay.{
  World, Relay as ClientRelay, Events as ClientEvents, going, keys, stdin_in, relay_loop,
  relay_round, on_actions, on_action,
}
use ttyleport.Client.Relay.Keys.{bytes_of, typed_in}
use ttyleport.Server.{
  Answers, Events, Relay, wrote, frame_in, pty_in, output, relaying, steps, Start, first_metadata,
}
use ttyleport.Server.Relaying.{typed_bytes}
use ttyleport.Server.Keyboard.{sent_frames, frames_in, typed_bytes-meaning}
use ttyleport.Protocol.Wire.{put_u32}
use ttyleport.Protocol.Encode.{encode}
use ttyleport.Protocol.Arrival.{Arrives, joined, Arrives-sent}

abbrev at : ℕ → World
at t = record { size = (80, 24); now = t; good_sends = 9; can_print = true; can_suspend = true }

abbrev fresh : ClientRelay
fresh = record { escape = some after_newline; last_pong = 0 }

abbrev typing : ClientEvents
typing =
    (at 1, stdin_in (keys (codes "~")))
    ∷ (at 3, stdin_in (keys (codes "~x")))
    ∷ (at 4, stdin_in (keys (codes "y")))
    ∷ []

abbrev answers : ℕ → Answers
answers n = record { write = wrote n; now = 50; foreground = true; sent = true; try_wait = none }

abbrev echoing : Events
echoing =
    (answers 2, frame_in (some (ok (data_frame (codes "~x")))))
    ∷ (answers 0, pty_in (output (codes "~x")))
    ∷ (answers 1, frame_in (some (ok (data_frame (codes "y")))))
    ∷ []

abbrev opening : Start
opening = record {
  client = some 0;
  first_frame = none;
  pty_path = codes "/dev/pts/4";
  shell = some 77;
  now = 40;
}

abbrev shell : Relay
shell = record { connection = 0; metadata = first_metadata opening 77 }

goes_on : (relay_loop fresh typing).1.1 ≡ going 0
unfolding relay_loop relay_round on_actions on_action process process_from round flush
goes_on = refl

sends_echoed : sent_frames (relay_loop fresh typing).1.0 ≡ frames_in echoing
unfolding relay_loop relay_round on_actions on_action process process_from round flush
sends_echoed = refl

echoing-IsSendable : All IsSendable (frames_in echoing)
echoing-IsSendable = ((tt, tt, omega arith), ((tt, tt, omega arith), tt))

-- The stream comes in three pieces, which are cut in the header of a frame and in its payload.
abbrev pieces : List Bytes
pieces =
    let stream = encode_all (frames_in echoing) [] in
    take 3 stream ∷ take 3 (drop 3 stream) ∷ drop 6 stream ∷ []

arrived : (end : Bytes) × Arrives [] pieces (frames_in echoing) end
unfolding encode put_u32
arrived = Arrives-sent (frames_in echoing) pieces echoing-IsSendable refl

pieces-joined : joined pieces ≡ encode_all (frames_in echoing) []
unfolding encode put_u32
pieces-joined = refl

typed_bytes-meaning_example :
    typed_bytes (steps (relaying shell) echoing).1
    ≡ bytes_of (meaning after_newline (typed_in typing)).1
typed_bytes-meaning_example =
    typed_bytes-meaning after_newline fresh 0 typing shell echoing pieces arrived.0 refl goes_on
      (rw sends_echoed echoing-IsSendable) (rw sends_echoed pieces-joined) arrived.1
      ((cc), (refl, ((cc), tt))) (refl, (tt, (refl, tt)))
