-- ===== src/Server/Keyboard.antt =====
-- From the keyboard at the client of src/client.rs to the shell of src/server.rs, through the codec of
-- src/protocol.rs.
use ttyleport.Prelude.{
  ℕ, ◌≡◌, refl, sym, ap, ◌∙◌, some, List, [], ◌∷◌, ◌++◌, Bytes, length, take, All, ok,
}
use ttyleport.Protocol.{Frame, data_frame}
use ttyleport.Protocol.Framing.{encode_all, IsSendable}
use ttyleport.Protocol.Arrival.{Arrives, joined, Arrives-unique}
use ttyleport.Client.Escape.{EscapeState}
use ttyleport.Client.Escape.Stream.{meaning}
use ttyleport.Server.Relaying
use ttyleport.Client.Relay.{
  Relay as ClientRelay, Events as ClientEvents, Action, send, Stay, going, returned, failed,
  relay_loop,
}
use ttyleport.Client.Relay.Keys.{sent_bytes, bytes_of, typed_in}
use ttyleport.Client.Relay.Typing.{Typed, relay_loop-Typed}
use ttyleport.Server.{Answers, Input, Relay, wrote, frame_in, client_in, Events, relaying, steps}
use ttyleport.Server.Relaying.{typed_bytes, Keeps, Carries, steps-Carries}

-- The frames that the client sends, in order.
abbrev pub sent_frames : List Action → List Frame
sent_frames [] = []
sent_frames (send f ∷ acts) = f ∷ sent_frames acts
sent_frames (_ ∷ acts) = sent_frames acts

-- The frames that the session's task gets, in order.
abbrev pub frames_in : Events → List Frame
frames_in [] = []
frames_in ((a, frame_in (some (ok f))) ∷ events) = f ∷ frames_in events
frames_in (_ ∷ events) = frames_in events

abbrev pub data_bytes : List Frame → Bytes
data_bytes [] = []
data_bytes (data_frame p ∷ fs) = p ++ data_bytes fs
data_bytes (_ ∷ fs) = data_bytes fs

-- The PTY takes each Data frame whole, and no other client comes.
abbrev pub TakesAll : Answers × Input → Type 0
TakesAll (a, frame_in (some (ok (data_frame p)))) = a.write ≡ wrote (length p)
TakesAll (a, client_in client) = ⊥
TakesAll _ = Unit

take-length : (p : Bytes) → take (length p) p ≡ p
take-length [] = refl
take-length (c ∷ p) = ap {B = Bytes} (λ q. c ∷ q) (take-length p)

sent_bytes-sent_frames : (acts : List Action) → sent_bytes acts ≡ data_bytes (sent_frames acts)
sent_bytes-sent_frames [] = refl
sent_bytes-sent_frames (send (data_frame p) ∷ acts) = ap (λ q. p ++ q) (sent_bytes-sent_frames acts)
sent_bytes-sent_frames (send _ ∷ acts) = sent_bytes-sent_frames acts
sent_bytes-sent_frames (_ ∷ acts) = sent_bytes-sent_frames acts

typed_in-frames_in :
    (events : Events)
    → All TakesAll events
    → Relaying.typed_in events ≡ data_bytes (frames_in events)
typed_in-frames_in [] h = refl
typed_in-frames_in ((a, frame_in (some (ok (data_frame p)))) ∷ events) (h, hs) =
    rw (h, take-length p) (ap (λ q. p ++ q) (typed_in-frames_in events hs))
typed_in-frames_in ((a, frame_in (some (ok _))) ∷ events) (h, hs) = typed_in-frames_in events hs
typed_in-frames_in (_ ∷ events) (h, hs) = typed_in-frames_in events hs

meant_bytes :
    (state : EscapeState) (typed : Bytes) (c : ClientRelay) (acts : List Action) (stay : Stay)
    (m : ℕ)
    → stay ≡ going m
    → Typed state typed (c, (acts, stay))
    → sent_bytes acts ≡ bytes_of (meaning state typed).1
meant_bytes state typed c acts (going n) m e (h, _, _) = h
meant_bytes state typed c acts (returned code) m e h = cc e
meant_bytes state typed c acts failed m e h = cc e

-- From the keyboard to the shell. While the client's relay goes on, and the session's loop gets the
-- frames that the client's stream gives, which comes in any pieces, among output of the shell in any
-- order, with a PTY that takes each Data frame whole: the shell is given exactly the bytes that the
-- typed text means to the escape processor, in order and once, however the text and the stream were cut.
pub typed_bytes-meaning :
    (state : EscapeState) (c : ClientRelay) (m : ℕ) (typed : ClientEvents) (r : Relay)
    (events : Events) (pieces : List Bytes) (end : Bytes)
    → c.escape ≡ some state
    → (relay_loop c typed).1.1 ≡ going m
    → All IsSendable (sent_frames (relay_loop c typed).1.0)
    → joined pieces ≡ encode_all (sent_frames (relay_loop c typed).1.0) []
    → Arrives [] pieces (frames_in events) end
    → All Keeps events
    → All TakesAll events
    → typed_bytes (steps (relaying r) events).1 ≡ bytes_of (meaning state (typed_in typed)).1
typed_bytes-meaning state c m typed r events pieces end at goes sendable cut arrived keeps takes =
    let (r', here, last, given, shown) = steps-Carries r events keeps in
    let sent = (relay_loop c typed).1.0 in
    let frames =
      Arrives-unique (sent_frames sent) (frames_in events) end pieces sendable cut arrived in
    let meant = relay_loop-Typed state c typed at in
    given
    ∙ typed_in-frames_in events takes
    ∙ ap data_bytes frames
    ∙ sym (sent_bytes-sent_frames sent)
    ∙ meant_bytes state (typed_in typed) (relay_loop c typed).0 sent (relay_loop c typed).1.1 m goes
        meant
