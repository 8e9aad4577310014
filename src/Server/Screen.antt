-- ===== src/Server/Screen.antt =====
-- From the shell of src/server.rs to the terminal of the client of src/client.rs, through the codec of
-- src/protocol.rs, to the end of the shell.
use ttyleport.Client.Relay.Told.{told_exit, relay_loop-exit}
use ttyleport.Prelude.{ℕ, ℤ, ◌≡◌, refl, ap, ◌∙◌, Option, some, List, [], ◌∷◌, ◌++◌, Bytes, All, ok}
use ttyleport.Protocol.{Frame, data_frame, exit}
use ttyleport.Protocol.Arrival.{Arrives, joined, Arrives-unique}
use ttyleport.Protocol.Framing.{encode_all, IsSendable}
use ttyleport.Client.Escape.{EscapeState}
use ttyleport.Client.Relay as Client
use ttyleport.Client.Relay.{
  Stay, going, returned, failed, Round, relay_loop, chain_round, relay_round, stdin_in, keys,
}
use ttyleport.Client.Relay.Screen.{
  printed_bytes, screen, help_shown, after_keys, next_escape, printed_going, relay_loop-Prints,
}
use ttyleport.Server.{Answers, Input, Events, Relay, relaying, steps}
use ttyleport.Server.Relaying.{Keeps, shown_in}
use ttyleport.Server.Keyboard.{data_bytes}
use ttyleport.Server.Told.{told, end_code, Alone, told-steps}

-- The frames that the client gets, in order.
abbrev pub heard : Client.Events → List Frame
heard [] = []
heard ((w, Client.frame_in (some (ok f))) ∷ events) = f ∷ heard events
heard (_ ∷ events) = heard events

-- The help that an input asks for.
abbrev pub help_now : Option EscapeState → Client.Input → Bytes
help_now escape (stdin_in (keys bytes)) = help_shown escape bytes
help_now escape _ = []

-- No input asks for help.
abbrev pub NoHelp : Option EscapeState → Client.Events → Type 0
NoHelp escape [] = Unit
NoHelp escape ((w, input) ∷ events) =
    (help_now escape input ≡ []) × NoHelp (next_escape escape input) events

-- Without help, the screen shows the Data frames.
screen-heard :
    (escape : Option EscapeState) (events : Client.Events)
    → NoHelp escape events
    → screen escape events ≡ data_bytes (heard events)
screen-heard escape [] h = refl
screen-heard escape ((w, Client.frame_in (some (ok (data_frame p)))) ∷ events) (h, hs) =
    ap (λ q. p ++ q) (screen-heard escape events hs)
screen-heard escape ((w, stdin_in (keys bytes)) ∷ events) (h, hs) =
    rw h (screen-heard (after_keys escape bytes) events hs)
screen-heard escape ((w, Client.frame_in (some (ok _))) ∷ events) (h, hs) =
    screen-heard escape events hs
screen-heard escape ((w, _) ∷ events) (h, hs) = screen-heard escape events hs

snoc-same : (fs gs : List Frame) (f g : Frame) → fs ++ f ∷ [] ≡ gs ++ g ∷ [] → (fs ≡ gs) × (f ≡ g)
snoc-same [] [] f g e = (refl, cc e)
snoc-same [] (x ∷ []) f g e = cc e
snoc-same [] (x ∷ y ∷ gs) f g e = cc e
snoc-same (x ∷ []) [] f g e = cc e
snoc-same (x ∷ y ∷ fs) [] f g e = cc e
snoc-same (x ∷ fs) (y ∷ gs) f g e =
    let (rests, lasts) = snoc-same fs gs f g (cc e) in (cc (rests, e), lasts)

-- From the shell to the terminal, until the session's loop comes to the shell's end. Let that loop serve
-- one client, to which the output of the shell and its frames come in any order, until `wait` gives a
-- status or the PTY ends; and let the client's relay, which asks for no help, go on until it gets an
-- exit frame, where its frames are those that the session's stream gives, which comes in any pieces. Then
-- the client has written to the terminal exactly what the loop had read from the PTY by then, in order
-- and once, and nothing of what the shell has left in the PTY; and it returns the code that the session
-- tells: the code that a `try_wait` finds then, and else the status that `wait` gave, 1 if it has no
-- code, or 0 where the PTY ended, whatever the shell's status comes to be.
pub printed_bytes-shown_in :
    (r : Relay) (before after : Events) (a : Answers) (i : Input) (code told_code : ℤ)
    (c : Client.Relay) (front rest : Client.Events) (w : Client.World) (m : ℕ) (pieces : List Bytes)
    (end : Bytes)
    → All Keeps before
    → All Alone before
    → end_code a i ≡ some code
    → NoHelp c.escape front
    → (relay_loop c front).1.1 ≡ going m
    → All IsSendable (told r.connection (steps (relaying r) (before ++ (a, i) ∷ after)).1)
    → joined pieces
      ≡ encode_all (told r.connection (steps (relaying r) (before ++ (a, i) ∷ after)).1) []
    → Arrives [] pieces (heard front ++ exit told_code ∷ []) end
    → let (c', (acts, stay)) = relay_loop c (front ++ told_exit w told_code ∷ rest) in
      (printed_bytes acts ≡ shown_in before) × (stay ≡ returned (some code))
printed_bytes-shown_in r before after a i code told_code c front rest w m pieces end keeps alone
      ends help on sendable cut arrived =
    let (frames, shell_wrote) = told-steps r before after a i code keeps alone ends in
    let same = Arrives-unique _ _ end pieces sendable cut arrived ∙ frames in
    let (fronts, exits) = snoc-same (heard front) _ (exit told_code) (exit code) same in
    let codes : told_code ≡ code = cc exits in
    let shows = relay_loop-Prints c c.escape front refl in
    rw (relay_loop-exit c front rest w told_code m on) (
      printed_going (screen c.escape front) (relay_loop c front).1 m on shows
          ∙ screen-heard c.escape front help
          ∙ ap data_bytes fronts
          ∙ shell_wrote,
      ap (λ k. returned (some k)) codes,
    )
