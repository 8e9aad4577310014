-- ===== src/Client/Reconnect/Persists.antt =====
-- How long the client of src/client.rs tries to get its session back.
use ttyleport.Prelude.{
  Bool, true, false, ◌||◌, not, List, [], ◌∷◌, ◌++◌, Option, none, some, Bytes, codes, Result, ok,
  err, ◌≡◌, refl, All, All-append, Bool-cases, inl, inr, ◌∙◌,
}
use ttyleport.Protocol.{Frame, DecodeError, attach, ok_frame, error_frame}
use ttyleport.Client.Relay.{Action, send, print}
use ttyleport.Client.Reconnect.{
  Try, TryEnd, Tried, retry, reconnected, broke, gave_up, say, is_ctrl_c, on_answer, try_once,
  try_next, reconnect,
}

-- A try that decides nothing: no Ctrl-C, and no connection, no send, or no answer that counts.
abbrev pub IsNoAnswer : Option (Result DecodeError Frame) → Type 0
IsNoAnswer (some (ok ok_frame)) = ⊥
IsNoAnswer (some (ok (error_frame message))) = ⊥
IsNoAnswer _ = Unit

abbrev pub IsUndecided : Try → Type 0
IsUndecided t =
    (is_ctrl_c t.peek ≡ false) × ((not t.connected || not t.sent) ≡ false → IsNoAnswer t.answer)

on_answer-retry :
    (can : Bool) (answer : Option (Result DecodeError Frame))
    → IsNoAnswer answer
    → on_answer can answer ≡ ([], retry)
on_answer-retry can none h = refl
on_answer-retry can (some (err e)) h = refl
on_answer-retry can (some (ok ok_frame)) h = absurd h
on_answer-retry can (some (ok (error_frame message))) h = absurd h
on_answer-retry can (some (ok _)) h = refl

try_once_undecided : (session : Bytes) (t : Try) → IsUndecided t → (try_once session t).1 ≡ retry
unfolding try_once
try_once_undecided session t (quiet, silent) = elim (Bool-cases t.connected) [
  | inr e ↦ rw (quiet, e) refl
  | inl e ↦ elim (Bool-cases t.sent) [
    | inr f ↦ rw (quiet, e, f) refl
    | inl f ↦
        let idle = on_answer-retry t.can_print t.answer (silent (rw (e, f) refl)) in
        rw (quiet, e, f, idle) refl
  ]
]

-- A try that gets the connection: the daemon answers Ok.
abbrev pub Succeeds : Try → Type 0
Succeeds t =
    (is_ctrl_c t.peek ≡ false)
    × (t.connected ≡ true)
    × (t.sent ≡ true)
    × (t.answer ≡ some (ok ok_frame))
    × (t.can_print ≡ true)

try_once-Succeeds :
    (session : Bytes) (t : Try)
    → Succeeds t
    → try_once session t
      ≡ (send (attach session) ∷ print (codes "[reconnected]\r\n") ∷ [], reconnected)
unfolding try_once
try_once-Succeeds session t (quiet, connected, sent, answer, can) =
    rw (quiet, connected, sent, answer, can) refl

-- If a frame is sent, it asks for the session.
abbrev pub Attaches : Bytes → Action → Type 0
Attaches session (send f) = f ≡ attach session
Attaches session _ = Unit

say-Attaches :
    (session : Bytes) (can : Bool) (text : Bytes) (end : TryEnd)
    → All (Attaches session) (say can text end).0
say-Attaches session true text end = (tt, tt)
say-Attaches session false text end = (tt, tt)

on_answer-Attaches :
    (session : Bytes) (can : Bool) (answer : Option (Result DecodeError Frame))
    → All (Attaches session) (on_answer can answer).0
on_answer-Attaches session can none = tt
on_answer-Attaches session can (some (err e)) = tt
on_answer-Attaches session can (some (ok ok_frame)) = say-Attaches session can _ _
on_answer-Attaches session can (some (ok (error_frame message))) = say-Attaches session can _ _
on_answer-Attaches session can (some (ok _)) = tt

try_once-Attaches : (session : Bytes) (t : Try) → All (Attaches session) (try_once session t).0
unfolding try_once
try_once-Attaches session t = elim (Bool-cases (is_ctrl_c t.peek)) [
  | inl q ↦ rw q (say-Attaches session t.can_print _ _)
  | inr q ↦ elim (Bool-cases t.connected) [
    | inr e ↦ rw (q, e) tt
    | inl e ↦ elim (Bool-cases t.sent) [
      | inr f ↦ rw (q, e, f) (refl, tt)
      | inl f ↦ rw (q, e, f) (refl, on_answer-Attaches session t.can_print t.answer)
    ]
  ]
]

-- Whatever was tried first, a try that decides nothing leaves the loop as it was.
try_next-retry : (tried later : Tried) → tried.1 ≡ retry → (try_next tried later).1 ≡ later.1
try_next-retry (acts, retry) later h = refl
try_next-retry (acts, reconnected) later h = cc h
try_next-retry (acts, broke) later h = cc h
try_next-retry (acts, gave_up code) later h = cc h

try_next-Attaches :
    (session : Bytes) (tried later : Tried)
    → All (Attaches session) tried.0
    → All (Attaches session) later.0
    → All (Attaches session) (try_next tried later).0
try_next-Attaches session (acts, retry) later h k = All-append (Attaches session) acts later.0 h k
try_next-Attaches session (acts, reconnected) later h k = h
try_next-Attaches session (acts, broke) later h k = h
try_next-Attaches session (acts, gave_up code) later h k = h

pub reconnect-Attaches :
    (session : Bytes) (tries : List Try) → All (Attaches session) (reconnect session tries).0
unfolding reconnect
reconnect-Attaches session [] = tt
reconnect-Attaches session (t ∷ tries) =
    try_next-Attaches session (try_once session t) (reconnect session tries)
      (try_once-Attaches session t) (reconnect-Attaches session tries)

reconnect-reconnected :
    (session : Bytes) (before : List Try) (t : Try) (rest : List Try)
    → All IsUndecided before
    → Succeeds t
    → (reconnect session (before ++ t ∷ rest)).1 ≡ reconnected
unfolding reconnect
reconnect-reconnected session [] t rest _ h = rw (try_once-Succeeds session t h) refl
reconnect-reconnected session (u ∷ before) t rest (hu, hs) h =
    try_next-retry (try_once session u) (reconnect session (before ++ t ∷ rest))
      (try_once_undecided session u hu)
    ∙ reconnect-reconnected session before t rest hs h

-- The client gives up on no number of tries that fail without a Ctrl-C and without an answer from the
-- daemon: the first try that the daemon answers with Ok gets the connection. The only frames it sends
-- meanwhile ask for its own session.
pub reconnect_persists :
    (session : Bytes) (before : List Try) (t : Try) (rest : List Try)
    → All IsUndecided before
    → Succeeds t
    → ((reconnect session (before ++ t ∷ rest)).1 ≡ reconnected)
      × All (Attaches session) (reconnect session (before ++ t ∷ rest)).0
reconnect_persists session before t rest hs h = (
  reconnect-reconnected session before t rest hs h,
  reconnect-Attaches session (before ++ t ∷ rest),
)
