-- ===== src/Connect/Spaced.antt =====
-- When the task of src/connect.rs that keeps the tunnel up never gives up.
use ttyleport.Prelude.{
  ℕ, ◌-◌, ◌+◌, ◌≤◌, ◌<◌, ◌*◌, ℤ, true, false, List, [], ◌∷◌, ◌++◌, Option, some, ltb, leb, length,
  ◌≡◌, refl, arith, All, Bool-cases, inl, inr, map, ap,
}
use ttyleport.Connect.Monitor.{
  Exited, MonitorEffect, Watched, window, max_exits, recent, is_final, start_again, on_exit,
  monitor_round, tunnel_monitor, exited, sleep, spawn_tunnel,
}

-- A quarter of the window.
abbrev pub gap : ℕ
gap = 2_500_000_000

-- The instants stand in order, each the gap behind the one before it, the first not before `lo`, and
-- `hi` not before the gap behind the last.
abbrev pub SpacedIn : ℕ → ℕ → List ℕ → Type 0
SpacedIn lo hi [] = lo ≤ hi
SpacedIn lo hi (t ∷ times) = (lo ≤ t) × SpacedIn (t + gap) hi times

SpacedIn-length : (lo hi : ℕ) (times : List ℕ) → SpacedIn lo hi times → lo + length times * gap ≤ hi
SpacedIn-length lo hi [] h = omega arith
SpacedIn-length lo hi (t ∷ times) (le, h) = omega (arith, SpacedIn-length (t + gap) hi times h)

SpacedIn-le : (a b hi : ℕ) (times : List ℕ) → a ≤ b → SpacedIn b hi times → SpacedIn a hi times
SpacedIn-le a b hi [] le h = omega arith
SpacedIn-le a b hi (t ∷ times) le (lt, h) = (omega arith, h)

SpacedIn-later : (lo a b : ℕ) (times : List ℕ) → a ≤ b → SpacedIn lo a times → SpacedIn lo b times
SpacedIn-later lo a b [] le h = omega arith
SpacedIn-later lo a b (t ∷ times) le (lt, h) = (lt, SpacedIn-later (t + gap) a b times le h)

SpacedIn-recent :
    (lo hi now : ℕ) (times : List ℕ) → SpacedIn lo hi times → SpacedIn lo hi (recent now times)
unfolding recent
SpacedIn-recent lo hi now [] h = h
SpacedIn-recent lo hi now (t ∷ times) (le, h) = elim (Bool-cases (ltb (now - t) window)) [
  | inl e ↦ rw e (le, SpacedIn-recent (t + gap) hi now times h)
  | inr e ↦
      rw e (SpacedIn-le lo (t + gap) hi _ (omega arith) (SpacedIn-recent (t + gap) hi now times h))
]

SpacedIn-append :
    (lo now : ℕ) (times : List ℕ)
    → SpacedIn lo now times
    → SpacedIn lo (now + gap) (times ++ now ∷ [])
SpacedIn-append lo now [] h = (h, omega arith)
SpacedIn-append lo now (t ∷ times) (le, h) = (le, SpacedIn-append (t + gap) now times h)

-- Few instants that are so far apart are recent.
recent-few :
    (lo now : ℕ) (times : List ℕ)
    → SpacedIn lo (now + gap) times
    → length (recent now times) < max_exits
unfolding recent
recent-few lo now [] h = omega arith
recent-few lo now (t ∷ times) (le, h) = elim (Bool-cases (ltb (now - t) window)) [
  | inl e ↦ rw e (
      ground (
        arith,
        SpacedIn-length (t + gap) (now + gap) (recent now times)
            (SpacedIn-recent (t + gap) (now + gap) now times h),
      ))
  | inr e ↦ rw e (recent-few (t + gap) now times h)
]

-- A transient exit: ssh was killed by a signal or gave 255, nobody stopped the tunnel, and ssh could
-- be started again.
abbrev pub IsTransient : Exited → Type 0
IsTransient x =
    ((code : Option ℤ) × (x.status ≡ some code) × (is_final code ≡ false))
    × (x.stopped ≡ false)
    × (x.stopped_asleep ≡ false)
    × (x.spawned ≡ true)

-- Each exit stands the gap behind the one before it, the first not before `lo`.
abbrev pub SpacedFrom : ℕ → List Exited → Type 0
SpacedFrom lo [] = Unit
SpacedFrom lo (x ∷ xs) = (lo ≤ x.now) × SpacedFrom (x.now + gap) xs

-- How often ssh is started.
abbrev pub starts : List MonitorEffect → ℕ
starts [] = 0
starts (spawn_tunnel ∷ es) = starts es + 1
starts (_ ∷ es) = starts es

-- The task still runs, with a list of instants, and has started ssh so often.
abbrev pub StillRuns : ℕ → Watched → Type 0
StillRuns n (effects, next) = (starts effects ≡ n) × ((times : List ℕ) × (next ≡ some times))

monitor_round-transient :
    (x : Exited) (times : List ℕ)
    → IsTransient x
    → length (recent x.now (times ++ x.now ∷ [])) < max_exits
    → monitor_round times (exited x)
      ≡ (sleep ∷ spawn_tunnel ∷ [], some (recent x.now (times ++ x.now ∷ [])))
unfolding monitor_round on_exit start_again
monitor_round-transient x times ((code, at, transient), stop, asleep, spawned) few =
    let short : leb max_exits (length (recent x.now (times ++ x.now ∷ []))) ≡ false =
      ground arith in
    rw (at, stop, transient, short, asleep, spawned) refl

tunnel_monitor-spaced :
    (lo : ℕ) (times : List ℕ) (xs : List Exited)
    → All IsTransient xs
    → SpacedFrom lo xs
    → SpacedIn 0 lo times
    → StillRuns (length xs) (tunnel_monitor times (map exited xs))
unfolding tunnel_monitor
tunnel_monitor-spaced lo times [] _ _ _ = (refl, (times, refl))
tunnel_monitor-spaced lo times (x ∷ xs) (k, ks) (le, far) old =
    let now_old = SpacedIn-append 0 x.now times (SpacedIn-later 0 lo x.now times le old) in
    let next = recent x.now (times ++ x.now ∷ []) in
    let (count, last) =
      tunnel_monitor-spaced (x.now + gap) next xs ks far
        (SpacedIn-recent 0 (x.now + gap) x.now (times ++ x.now ∷ []) now_old) in
    let round =
      monitor_round-transient x times k (recent-few 0 x.now (times ++ x.now ∷ []) now_old) in
    rw (ap (λ w. w.1) round, ap (λ w. w.0) round, tunnel_monitor) (omega (arith, count), last)

-- A tunnel whose connection errors come two and a half seconds apart, or more, is kept up:
-- ssh is started again after each of them, and the task still runs.
pub tunnel_monitor_keeps :
    (xs : List Exited)
    → All IsTransient xs
    → SpacedFrom 0 xs
    → StillRuns (length xs) (tunnel_monitor [] (map exited xs))
tunnel_monitor_keeps xs transient far = tunnel_monitor-spaced 0 [] xs transient far (omega arith)
