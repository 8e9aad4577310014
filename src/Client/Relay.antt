-- ===== src/Client/Relay.antt =====
-- The relay of src/client.rs between the terminal and the connection: `relay` from its opening frames
-- to its end. Instants are numbers of nanoseconds. The connection is not named: the relay has one.
pub mod Keys
pub mod Screen
pub mod Told
pub mod Typing
pub mod Heartbeat
pub mod Idle
use ttyleport.Prelude.{
  ℕ, zero, suc, ◌-◌, ℤ, pos, Bool, true, false, List, [], ◌∷◌, ◌++◌, Option, none, some, Bytes,
  codes, ltb, if◌then◌else◌, is_empty, Result, ok, err, ◌≡◌, refl,
}
use ttyleport.Protocol.{Frame, DecodeError, data_frame, resize, exit, detached, ping, pong, env}
use ttyleport.Client.Escape.{EscapeState, EscapeAction, typed, detach, suspend, help, process}

abbrev pub escape_help : Bytes
escape_help =
    codes "\r\nSupported escape sequences:\r\n~.  - detach from session\r\n~^Z - suspend client\r\n"
    ++ codes "~?  - this message\r\n~~  - send the escape character by typing it twice\r\n"
    ++ codes "(Note that escapes are only recognized immediately after newline.)\r\n"

abbrev pub heartbeat_timeout : ℕ
heartbeat_timeout = 15_000_000_000

-- What one round meets: the size of the terminal, the clock, how many of its `timed_send`s succeed
-- before one fails, and whether it can write to stdout and suspend itself.
pub record World : Type 0 where
  pub size : ℕ × ℕ
  pub now : ℕ
  pub good_sends : ℕ
  pub can_print : Bool
  pub can_suspend : Bool

-- A `send` is tried: it may fail or time out.
pub data Action : Type 0 where
  send : Frame → Action
  print : Bytes → Action
  stop_self : Action

-- Whether the relay goes on, returns `Ok`, or returns an error.
pub data Stay : Type 0 where
  going : (good_sends : ℕ) → Stay
  returned : Option ℤ → Stay
  failed : Stay

abbrev pub Doing : Type 0
Doing = List Action × Stay

-- `if !timed_send(..) { return Ok(None) }`
abbrev pub timed_send : ℕ → Frame → Doing
timed_send zero frame = (send frame ∷ [], returned none)
timed_send (suc n) frame = (send frame ∷ [], going n)

-- `write_stdout(..)?` and then the given end.
abbrev pub print_then : Bool → Bytes → Stay → Doing
print_then true text stay = (print text ∷ [], stay)
print_then false text stay = (print text ∷ [], failed)

abbrev pub send_size : World → ℕ → Doing
send_size w n = let (cols, rows) = w.size in timed_send n (resize cols rows)

-- `suspend()?`, and the size of the terminal behind it.
abbrev pub suspended : World → Bool → ℕ → Doing
suspended w true n = let (acts, stay) = send_size w n in (stop_self ∷ acts, stay)
suspended w false n = (stop_self ∷ [], failed)

-- One action of the escape processor.
unfoldable pub on_action : World → ℕ → EscapeAction → Doing
on_action w n (typed bytes) = timed_send n (data_frame bytes)
on_action w n detach = print_then w.can_print (codes "\r\n[detached]\r\n") (returned (some (pos 0)))
on_action w n suspend = suspended w w.can_suspend n
on_action w n help = print_then w.can_print escape_help (going n)

-- What follows an action that lets the relay go on.
abbrev pub chain : Doing → (ℕ → Doing) → Doing
chain (acts, going m) k = let rest = k m in (acts ++ rest.0, rest.1)
chain (acts, returned code) k = (acts, returned code)
chain (acts, failed) k = (acts, failed)

-- The loop over the actions, which an end leaves.
unfoldable pub on_actions : World → ℕ → List EscapeAction → Doing
on_actions w n [] = ([], going n)
on_actions w n (a ∷ actions) = chain (on_action w n a) (λ m. on_actions w m actions)

-- The state of the loop. `escape` is `none` with `--no-escape`.
pub record Relay : Type 0 where
  pub escape : Option EscapeState
  pub last_pong : ℕ

abbrev pub Round : Type 0
Round = Relay × Doing

-- Keyboard input.
abbrev pub on_keys : World → Relay → Option EscapeState → Bytes → Round
on_keys w r (some state) bytes =
    let (state', actions) = process state bytes in
    (record r { escape = some state' }, on_actions w w.good_sends actions)
on_keys w r none bytes = (r, timed_send w.good_sends (data_frame bytes))

pub data StdinRead : Type 0 where
  eof read_failed read_would_block : StdinRead
  keys : (bytes : Bytes) → StdinRead

abbrev pub on_stdin : World → Relay → StdinRead → Round
on_stdin w r eof = (r, ([], returned (some (pos 0))))
on_stdin w r (keys bytes) = on_keys w r r.escape bytes
on_stdin w r read_failed = (r, ([], failed))
on_stdin w r read_would_block = (r, ([], going w.good_sends))

-- A frame from the server.
abbrev pub on_frame : World → Relay → Option (Result DecodeError Frame) → Round
on_frame w r (some (ok (data_frame bytes))) = (r, print_then w.can_print bytes (going w.good_sends))
on_frame w r (some (ok pong)) = (record r { last_pong = w.now }, ([], going w.good_sends))
on_frame w r (some (ok (exit code))) = (r, ([], returned (some code)))
on_frame w r (some (ok detached)) =
    (r, print_then w.can_print (codes "[detached]\r\n") (returned (some (pos 0))))
on_frame w r (some (ok _)) = (r, ([], going w.good_sends))
on_frame w r (some (err e)) = (r, ([], returned none))
on_frame w r none = (r, ([], returned none))

-- The heartbeat.
abbrev pub on_tick : World → Relay → Round
on_tick w r =
    if ltb heartbeat_timeout (w.now - r.last_pong)
    then (r, ([], returned none))
    else (r, timed_send w.good_sends ping)

-- What `select!` gives.
pub data Input : Type 0 where
  stdin_in : StdinRead → Input
  frame_in : Option (Result DecodeError Frame) → Input
  sigwinch_in tick_in : Input

unfoldable pub relay_round : World → Relay → Input → Round
relay_round w r (stdin_in read) = on_stdin w r read
relay_round w r (frame_in frame) = on_frame w r frame
relay_round w r sigwinch_in = (r, send_size w w.good_sends)
relay_round w r tick_in = on_tick w r

abbrev pub Events : Type 0
Events = List (World × Input)

-- What follows a round that lets the relay go on.
abbrev pub chain_round : Round → (Relay → Round) → Round
chain_round (r, (acts, going m)) k = let rest = k r in (rest.0, (acts ++ rest.1.0, rest.1.1))
chain_round (r, (acts, returned code)) k = (r, (acts, returned code))
chain_round (r, (acts, failed)) k = (r, (acts, failed))

-- The loop, on the inputs of its rounds.
unfoldable pub relay_loop : Relay → Events → Round
relay_loop r [] = (r, ([], going zero))
relay_loop r ((w, input) ∷ events) =
    chain_round (relay_round w r input) (λ r'. relay_loop r' events)

-- The frames before the loop: the variables if there are any, the size, and a redraw.
unfoldable pub opening_frames : World → List (Bytes × Bytes) → Bool → List Frame
opening_frames w vars redraw =
    (if is_empty vars then [] else env vars ∷ [])
    ++ (let (cols, rows) = w.size in resize cols rows ∷ [])
    ++ (if redraw then data_frame (0x0c ∷ []) ∷ [] else [])

unfoldable pub send_all : ℕ → List Frame → Doing
send_all n [] = ([], going n)
send_all zero (f ∷ frames) = (send f ∷ [], returned none)
send_all (suc n) (f ∷ frames) = let (acts, stay) = send_all n frames in (send f ∷ acts, stay)

abbrev pub relay_from : ℕ → Option EscapeState → Events → Doing → Round
relay_from now escape events (acts, going n) =
    let rest = relay_loop (record { escape = escape; last_pong = now }) events in
    (rest.0, (acts ++ rest.1.0, rest.1.1))
relay_from now escape events (acts, stay) =
    (record { escape = escape; last_pong = now }, (acts, stay))

unfoldable pub relay : World → List (Bytes × Bytes) → Bool → Option EscapeState → Events → Round
relay w vars redraw escape events =
    relay_from w.now escape events (send_all w.good_sends (opening_frames w vars redraw))
