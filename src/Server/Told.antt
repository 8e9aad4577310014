-- ===== src/Server/Told.antt =====
-- What the one client of src/server.rs is told, to the end of the shell.
use mathlib.Core.Option.{get_or, some-injective}
use ttyleport.Server.Exit.{steps-ended}
use ttyleport.Prelude.{
  ℕ, ℤ, pos, ◌≡◌, refl, ap, ◌∙◌, Option, some, none, true, List, [], ◌∷◌, ◌++◌, append_assoc, All,
  if◌then◌else◌, ◌==◌, ==_iff, Bool-cases, inl, inr,
}
use ttyleport.Protocol.{Frame, data_frame, exit}
use ttyleport.Server.{
  Answers, Input, Events, Effect, Session, Relay, send, child_in, relaying, steps, step, exit_code,
  frame_in, client_in, output, read_failed, read_would_block, on_pty, spawn_shell, pty_input,
  winsize, sigwinch, pty_in, eof, eio, relay_turn, on_child,
}
use ttyleport.Server.Relaying.{Keeps, shown_bytes, shown_in, last_client, steps-Carries}
use ttyleport.Server.Trace.{Brings, SendsTo, steps-Talks}
use ttyleport.Server.Keyboard.{data_bytes}

-- The frames that go to a connection, in order.
abbrev pub told : ℕ → List Effect → List Frame
told c [] = []
told c (send d f ∷ es) = if d == c then f ∷ told c es else told c es
told c (_ ∷ es) = told c es

-- The code that an input ends the shell with, as the session tells it.
abbrev pub end_code : Answers → Input → Option ℤ
end_code a (child_in (some status)) = some (exit_code (get_or status (pos 1)) a.try_wait)
end_code a (pty_in eof) = some (exit_code (pos 0) a.try_wait)
end_code a (pty_in eio) = some (exit_code (pos 0) a.try_wait)
end_code a _ = none

told-append : (c : ℕ) (xs ys : List Effect) → told c (xs ++ ys) ≡ told c xs ++ told c ys
told-append c [] ys = refl
told-append c (send d f ∷ xs) ys = elim (Bool-cases (d == c)) [
  | inl e ↦ rw (e, told-append c xs ys) refl
  | inr e ↦ rw e (told-append c xs ys)
]
told-append c (spawn_shell vars ∷ xs) ys = told-append c xs ys
told-append c (pty_input p ∷ xs) ys = told-append c xs ys
told-append c (winsize w h ∷ xs) ys = told-append c xs ys
told-append c (sigwinch ∷ xs) ys = told-append c xs ys

sends_shown :
    (c : ℕ) (f : Frame) (es : List Effect) (fs : List Frame)
    → data_bytes fs ≡ shown_bytes es
    → data_bytes (f ∷ fs) ≡ shown_bytes (send c f ∷ es)
sends_shown c (data_frame p) es fs e = ap (λ q. p ++ q) e
sends_shown c _ es fs e = e

-- The output of the shell, where every frame goes to the one client.
data_bytes-told :
    (c : ℕ) (es : List Effect)
    → All (SendsTo (λ d. d ≡ c)) es
    → data_bytes (told c es) ≡ shown_bytes es
data_bytes-told c [] h = refl
data_bytes-told c (send d f ∷ es) (h, hs) =
    let same : d == c ≡ true = (==_iff d c).1 h in
    rw same (sends_shown d f es (told c es) (data_bytes-told c es hs))
data_bytes-told c (spawn_shell vars ∷ es) (h, hs) = data_bytes-told c es hs
data_bytes-told c (pty_input p ∷ es) (h, hs) = data_bytes-told c es hs
data_bytes-told c (winsize w x ∷ es) (h, hs) = data_bytes-told c es hs
data_bytes-told c (sigwinch ∷ es) (h, hs) = data_bytes-told c es hs

steps-append :
    (s : Session) (xs ys : Events)
    → steps s (xs ++ ys)
      ≡ ((steps (steps s xs).0 ys).0, (steps s xs).1 ++ (steps (steps s xs).0 ys).1)
unfolding steps
steps-append s [] ys = refl
steps-append s ((a, i) ∷ xs) ys =
    rw (steps-append (step a s i).0 xs ys, append_assoc (step a s i).1) refl

-- The end of the shell, as the session tells it.
steps-end_code :
    (r : Relay) (a : Answers) (i : Input) (after : Events) (code : ℤ)
    → end_code a i ≡ some code
    → (steps (relaying r) ((a, i) ∷ after)).1 ≡ send r.connection (exit code) ∷ []
unfolding steps step relay_turn on_child on_pty
steps-end_code r a (child_in (some status)) after code h =
    rw (steps-ended after) (ap (λ k. send r.connection (exit k) ∷ []) (some-injective _ _ h))
steps-end_code r a (pty_in eof) after code h =
    rw (steps-ended after) (ap (λ k. send r.connection (exit k) ∷ []) (some-injective _ _ h))
steps-end_code r a (pty_in eio) after code h =
    rw (steps-ended after) (ap (λ k. send r.connection (exit k) ∷ []) (some-injective _ _ h))
steps-end_code r a (child_in none) after code h = cc h
steps-end_code r a (pty_in (output p)) after code h = cc h
steps-end_code r a (pty_in read_failed) after code h = cc h
steps-end_code r a (pty_in read_would_block) after code h = cc h
steps-end_code r a (frame_in f) after code h = cc h
steps-end_code r a (client_in c) after code h = cc h

-- No other client comes.
abbrev pub Alone : Answers × Input → Type 0
Alone (a, client_in (some c)) = ⊥
Alone _ = Unit

Alone-Brings : (P : ℕ → Type 0) (events : Events) → All Alone events → All (Brings P) events
Alone-Brings P [] h = tt
Alone-Brings P ((a, client_in (some c)) ∷ events) (h, hs) = absurd h
Alone-Brings P ((a, client_in none) ∷ events) (h, hs) = (tt, Alone-Brings P events hs)
Alone-Brings P ((a, frame_in f) ∷ events) (h, hs) = (tt, Alone-Brings P events hs)
Alone-Brings P ((a, pty_in f) ∷ events) (h, hs) = (tt, Alone-Brings P events hs)
Alone-Brings P ((a, child_in f) ∷ events) (h, hs) = (tt, Alone-Brings P events hs)

last_client-Alone : (c : ℕ) (events : Events) → All Alone events → last_client c events ≡ c
last_client-Alone c [] h = refl
last_client-Alone c ((a, client_in (some d)) ∷ events) (h, hs) = absurd h
last_client-Alone c ((a, client_in none) ∷ events) (h, hs) = last_client-Alone c events hs
last_client-Alone c ((a, frame_in f) ∷ events) (h, hs) = last_client-Alone c events hs
last_client-Alone c ((a, pty_in f) ∷ events) (h, hs) = last_client-Alone c events hs
last_client-Alone c ((a, child_in f) ∷ events) (h, hs) = last_client-Alone c events hs

-- All that the one client is told: the output of the shell, and then its end.
pub told-steps :
    (r : Relay) (before after : Events) (a : Answers) (i : Input) (code : ℤ)
    → All Keeps before
    → All Alone before
    → end_code a i ≡ some code
    → (told r.connection (steps (relaying r) (before ++ (a, i) ∷ after)).1
        ≡ told r.connection (steps (relaying r) before).1 ++ exit code ∷ [])
      × (data_bytes (told r.connection (steps (relaying r) before).1) ≡ shown_in before)
told-steps r before after a i code keeps alone ends =
    let (r', here, last, given, shown) = steps-Carries r before keeps in
    let stays : r'.connection ≡ r.connection = last ∙ last_client-Alone r.connection before alone in
    let end : (steps (steps (relaying r) before).0 ((a, i) ∷ after)).1
        ≡ send r.connection (exit code) ∷ [] =
      rw here (steps-end_code r' a i after code ends ∙ ap (λ c. send c (exit code) ∷ []) stays) in
    let self : r.connection == r.connection ≡ true = (==_iff r.connection r.connection).1 refl in
    (
      rw (steps-append (relaying r) before ((a, i) ∷ after), end, told-append, self) refl,
      data_bytes-told r.connection (steps (relaying r) before).1 (
            steps-Talks (λ c. c ≡ r.connection) (relaying r) before refl
              (Alone-Brings (λ c. c ≡ r.connection) before alone))
          ∙ shown,
    )
