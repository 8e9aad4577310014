-- ===== src/Server/Exit.antt =====
-- How the task of src/server.rs tells the end of the shell.
use ttyleport.Prelude.{
  ℕ, Bool, true, false, List, [], ◌∷◌, ◌++◌, Option, none, some, Result, ok, err, ◌≡◌, ◌⊎◌, inl,
  inr, refl, All, All-append, ℤ, append_assoc, append-nil, Bytes,
}
use ttyleport.Protocol.{Frame, DecodeError, data_frame, resize, exit, ping}
use ttyleport.Security.{clamp_winsize}
use ttyleport.Server.{
  Answers, Input, Events, Effect, Session, Relay, Turn, PtyWrite, frame_in, pty_in, client_in,
  child_in, send, relaying, waiting, ended, broken, step, steps, relay_turn, after_turn, on_frame,
  on_pty, on_client, on_child, on_data, on_resize, next, fail, break_with, client_gone,
  shell_exited, wrote, write_failed, write_would_block, output, exit_code,
}

-- An effect other than an `Exit` frame.
abbrev pub IsQuiet : Effect → Type 0
IsQuiet (send c (exit code)) = ⊥
IsQuiet _ = Unit

abbrev pub NoExit : List Effect → Type 0
NoExit = All IsQuiet

abbrev pub TurnNoExit : Turn → Type 0
TurnNoExit (r, es, flow) = NoExit es

on_data-NoExit : (w : PtyWrite) (r : Relay) (p : Bytes) → TurnNoExit (on_data w r p)
on_data-NoExit (wrote n) r p = (tt, tt)
on_data-NoExit write_failed r p = tt
on_data-NoExit write_would_block r p = tt

on_resize-NoExit : (fg : Bool) (r : Relay) (size : ℕ × ℕ) → TurnNoExit (on_resize fg r size)
on_resize-NoExit true r (c, w) = (tt, (tt, tt))
on_resize-NoExit false r (c, w) = (tt, tt)

on_frame-NoExit :
    (a : Answers) (r : Relay) (f : Option (Result DecodeError Frame)) → TurnNoExit (on_frame a r f)
unfolding on_frame
on_frame-NoExit a r none = tt
on_frame-NoExit a r (some (err e)) = tt
on_frame-NoExit a r (some (ok (data_frame p))) = on_data-NoExit a.write r p
on_frame-NoExit a r (some (ok (resize c w))) = on_resize-NoExit a.foreground r (clamp_winsize c w)
on_frame-NoExit a r (some (ok ping)) = (tt, tt)
on_frame-NoExit a r (some (ok _)) = tt

relay_turn-NoExit : (a : Answers) (r : Relay) (i : Input) → TurnNoExit (relay_turn a r i)
unfolding relay_turn on_pty on_client on_child
relay_turn-NoExit a r (frame_in f) = on_frame-NoExit a r f
relay_turn-NoExit a r (pty_in (output bytes)) = (tt, tt)
relay_turn-NoExit a r (pty_in _) = tt
relay_turn-NoExit a r (client_in none) = tt
relay_turn-NoExit a r (client_in (some c)) = (tt, tt)
relay_turn-NoExit a r (child_in none) = tt
relay_turn-NoExit a r (child_in (some code)) = tt

-- Either no exit is told, or it is told once, as the last thing that is done.
abbrev pub TellsOnce : Session × List Effect → Type 0
TellsOnce (s, es) =
    NoExit es
    ⊎ ((front : List Effect) × (c : ℕ) × (code : ℤ) × (es ≡ front ++ send c (exit code) ∷ [])
        × NoExit front
        × (s ≡ ended))

after_turn-TellsOnce : (a : Answers) (t : Turn) → TurnNoExit t → TellsOnce (after_turn a t)
after_turn-TellsOnce a (r, es, next) h = inl h
after_turn-TellsOnce a (r, es, fail) h = inl h
after_turn-TellsOnce a (r, es, break_with client_gone) h = inl h
after_turn-TellsOnce a (r, es, break_with (shell_exited code)) h =
    inr (es, r.connection, exit_code code a.try_wait, refl, h, refl)

step-TellsOnce : (a : Answers) (s : Session) (i : Input) → TellsOnce (step a s i)
unfolding step
step-TellsOnce a (relaying r) i =
    after_turn-TellsOnce a (relay_turn a r i) (relay_turn-NoExit a r i)
step-TellsOnce a (waiting m) i = inl tt
step-TellsOnce a ended i = inl tt
step-TellsOnce a broken i = inl tt

pub steps-ended : (events : Events) → steps ended events ≡ (ended, [])
unfolding steps step
steps-ended [] = refl
steps-ended ((a, i) ∷ events) = steps-ended events

-- In every run of the task, the end of the shell is told to at most one client, once, by the frame
-- that is the last thing the run does, and the task has then returned.
pub steps-TellsOnce : (s : Session) (events : Events) → TellsOnce (steps s events)
unfolding steps
steps-TellsOnce s [] = inl tt
steps-TellsOnce s ((a, i) ∷ events) = elim (step-TellsOnce a s i) [
  | inl quiet ↦ elim (steps-TellsOnce (step a s i).0 events) [
    | inl still ↦ inl (All-append IsQuiet _ _ quiet still)
    | inr (front, c, code, e, h, done) ↦ inr (
      (step a s i).1 ++ front,
      c,
      code,
      rw (e, append_assoc) refl,
      All-append IsQuiet _ _ quiet h,
      done,
    )
  ]
  | inr (front, c, code, e, h, done) ↦ inr (
    front,
    c,
    code,
    rw (done, steps-ended events, append-nil) e,
    h,
    rw (done, steps-ended events) refl,
  )
]
