-- ===== src/Client/Reconnect.antt =====
-- The loop of `run` of src/client.rs that attaches to the session again when the connection is lost.
pub mod Persists
use ttyleport.Prelude.{
  ℕ, ℤ, pos, Bool, true, false, ◌||◌, not, List, [], ◌∷◌, ◌++◌, Option, none, some, Bytes, codes,
  ◌==◌, if◌then◌else◌, Result, ok, err, ◌≡◌, refl, All, All-append, Bool-cases, inl, inr, ◌∙◌, ap,
  ap₂,
}
use ttyleport.Protocol.{Frame, DecodeError, attach, ok_frame, error_frame}
use ttyleport.Client.Escape.{EscapeState}
use ttyleport.Client.Relay.{
  World, Action, send, print, going, returned, failed, Round, Events, relay,
}

-- One try behind the sleep of a second: the byte of keyboard input, if one is read, whether the
-- terminal, the connection and the send work, and what the daemon answers.
pub record Try : Type 0 where
  pub peek : Option ℕ
  pub can_print : Bool
  pub connected : Bool
  pub sent : Bool
  pub answer : Option (Result DecodeError Frame)

-- The loop goes on, leaves with a new connection, or `run` returns.
pub data TryEnd : Type 0 where
  retry reconnected broke : TryEnd
  gave_up : (code : ℤ) → TryEnd

abbrev pub Tried : Type 0
Tried = List Action × TryEnd

abbrev pub say : Bool → Bytes → TryEnd → Tried
say true text end = (print text ∷ [], end)
say false text end = (print text ∷ [], broke)

abbrev pub is_ctrl_c : Option ℕ → Bool
is_ctrl_c (some b) = b == 0x03
is_ctrl_c none = false

abbrev pub on_answer : Bool → Option (Result DecodeError Frame) → Tried
on_answer can (some (ok ok_frame)) = say can (codes "[reconnected]\r\n") reconnected
on_answer can (some (ok (error_frame message))) =
    say can (codes "[session gone: " ++ (message ++ codes "]\r\n")) (gave_up (pos 1))
on_answer can _ = ([], retry)

unfoldable pub try_once : Bytes → Try → Tried
try_once session t =
    if is_ctrl_c t.peek
    then say t.can_print (codes "\r\n") (gave_up (pos 1))
    else if not t.connected
    then ([], retry)
    else if not t.sent
    then (send (attach session) ∷ [], retry)
    else (let (acts, end) = on_answer t.can_print t.answer in (send (attach session) ∷ acts, end))

abbrev pub try_next : Tried → Tried → Tried
try_next (acts, retry) later = (acts ++ later.0, later.1)
try_next (acts, end) later = (acts, end)

-- The inner loop, on the tries that are made.
unfoldable pub reconnect : Bytes → List Try → Tried
reconnect session [] = ([], retry)
reconnect session (t ∷ tries) = try_next (try_once session t) (reconnect session tries)
