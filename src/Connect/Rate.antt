-- ===== src/Connect/Rate.antt =====
-- How often the task of src/connect.rs that keeps the tunnel up starts ssh again.
use ttyleport.Prelude.{
  ℕ, ◌+◌, ◌≤◌, ◌<◌, ℤ, List, [], ◌∷◌, ◌++◌, Option, none, some, leb, length, if◌then◌else◌, ◌≡◌,
  refl, arith, All, inl, inr, Option-cases, map,
}
use ttyleport.Connect.Monitor.{
  Exited, MonitorInput, window, max_exits, recent, start_again, on_exit, monitor_round,
  tunnel_monitor, exited,
}

-- How many of the instants are not before the given one.
abbrev since : ℕ → List ℕ → ℕ
since t0 [] = 0
since t0 (t ∷ times) = if leb t0 t then since t0 times + 1 else since t0 times

since-length : (t0 : ℕ) (times : List ℕ) → since t0 times ≤ length times
since-length t0 [] = omega arith
since-length t0 (t ∷ times) = ground (arith, since-length t0 times)

since-recent :
    (t0 now : ℕ) (times : List ℕ) → now < t0 + window → since t0 (recent now times) ≡ since t0 times
unfolding recent
since-recent t0 now [] h = refl
since-recent t0 now (t ∷ times) h = ground (arith, since-recent t0 now times h)

since-append :
    (t0 t : ℕ) (times : List ℕ) → t0 ≤ t → since t0 (times ++ t ∷ []) ≡ since t0 times + 1
since-append t0 t [] h = ground arith
since-append t0 t (u ∷ times) h = ground (arith, since-append t0 t times h)

-- A round that goes on has counted its exit, and has seen fewer than five in the window.
start_again-since :
    (t0 : ℕ) (x : Exited) (times next : List ℕ)
    → (start_again x times).1 ≡ some next
    → (next ≡ times) × (length next < max_exits)
unfolding start_again
start_again-since t0 x times next e = ground arith

on_exit-since :
    (t0 : ℕ) (x : Exited) (times next : List ℕ) (status : Option (Option ℤ))
    → t0 ≤ x.now
    → x.now < t0 + window
    → (on_exit x times status).1 ≡ some next
    → (since t0 next ≡ since t0 times + 1) × (length next < max_exits)
unfolding on_exit
on_exit-since t0 x times next none lo hi e = cc e
on_exit-since t0 x times next (some code) lo hi e = ground (
  arith,
  start_again-since t0 x (recent x.now (times ++ x.now ∷ [])) next,
  since-recent t0 x.now (times ++ x.now ∷ []) hi,
  since-append t0 x.now times lo,
)

-- The exit stands less than ten seconds behind the instant.
abbrev pub InWindow : ℕ → Exited → Type 0
InWindow t0 x = (t0 ≤ x.now) × (x.now < t0 + window)

-- A run that goes on has gone on in its first round.
tunnel_monitor-cons :
    (times : List ℕ) (x : Exited) (inputs : List MonitorInput) (last : List ℕ)
    → (tunnel_monitor times (exited x ∷ inputs)).1 ≡ some last
    → (next : List ℕ) × ((on_exit x times x.status).1 ≡ some next)
      × ((tunnel_monitor next inputs).1 ≡ some last)
unfolding tunnel_monitor monitor_round
tunnel_monitor-cons times x inputs last e = elim (Option-cases (on_exit x times x.status).1) [
  | inl stopped ↦ cc (rw (stopped, tunnel_monitor, monitor_round) at e)
  | inr (next, on) ↦ (next, on, rw (on, tunnel_monitor, monitor_round) at e)
]

tunnel_monitor-since :
    (t0 : ℕ) (times : List ℕ) (x : Exited) (xs : List Exited) (last : List ℕ)
    → All (InWindow t0) (x ∷ xs)
    → (tunnel_monitor times (map exited (x ∷ xs))).1 ≡ some last
    → since t0 times + length (x ∷ xs) < max_exits
tunnel_monitor-since t0 times x [] last ((lo, hi), hs) e =
    let (next, on, rest) = tunnel_monitor-cons times x [] last e in
    let (grown, few) = on_exit-since t0 x times next x.status lo hi on in
    omega (arith, since-length t0 next)
tunnel_monitor-since t0 times x (y ∷ ys) last ((lo, hi), hs) e =
    let (next, on, rest) = tunnel_monitor-cons times x (map exited (y ∷ ys)) last e in
    let (grown, few) = on_exit-since t0 x times next x.status lo hi on in
    omega (arith, tunnel_monitor-since t0 next y ys last hs rest)

-- Five exits of ssh within ten seconds end the task, whatever exits came before and however the five
-- came about.
pub tunnel_monitor_limit :
    (t0 : ℕ) (times : List ℕ) (xs : List Exited)
    → max_exits ≤ length xs
    → All (InWindow t0) xs
    → (tunnel_monitor times (map exited xs)).1 ≡ none
tunnel_monitor_limit t0 times [] h hs = absurd (omega arith)
tunnel_monitor_limit t0 times (x ∷ xs) h hs =
    elim (Option-cases (tunnel_monitor times (map exited (x ∷ xs))).1) [
      | inl stopped ↦ stopped
      | inr (last, on) ↦ absurd (omega (arith, tunnel_monitor-since t0 times x xs last hs on))
    ]
