-- ===== src/Connect/Monitor.antt =====
-- The task that keeps the ssh tunnel up, `tunnel_monitor` of src/connect.rs: it starts ssh again after
-- a connection error, at most a few times in ten seconds. Instants are numbers of nanoseconds.
use ttyleport.Prelude.{
  ℕ, ◌-◌, ℤ, pos, negsuc, not, ◌==◌, Bool, true, false, List, [], ◌∷◌, ◌++◌, Option, none, some,
  ltb, leb, length, if◌then◌else◌,
}

-- One exit of ssh with what happens around it. `status` is `none` if `wait` fails, and holds no code
-- if a signal ended ssh; `stopped` is what `is_cancelled` says behind `wait`, `stopped_asleep` what it
-- says behind the sleep of one second; `spawned` is whether ssh could be started again.
pub record Exited : Type 0 where
  pub status : Option (Option ℤ)
  pub stopped : Bool
  pub now : ℕ
  pub stopped_asleep : Bool
  pub spawned : Bool

-- What `select!` gives.
pub data MonitorInput : Type 0 where
  cancelled : MonitorInput
  exited : Exited → MonitorInput

pub data MonitorEffect : Type 0 where
  kill_child sleep spawn_tunnel : MonitorEffect

-- The effects, and the new `exit_times`, or `none` if the task has returned.
abbrev pub Watched : Type 0
Watched = List MonitorEffect × Option (List ℕ)

abbrev pub window : ℕ
window = 10_000_000_000

abbrev pub max_exits : ℕ
max_exits = 5

-- `exit_times.retain(|t| now.duration_since(*t) < 10 s)`
unfoldable pub recent : ℕ → List ℕ → List ℕ
recent now [] = []
recent now (t ∷ times) =
    let rest = recent now times in if ltb (now - t) window then t ∷ rest else rest

-- An exit with a code other than 255 is final.
abbrev pub is_final : Option ℤ → Bool
is_final none = false
is_final (some (pos code)) = not (code == 255)
is_final (some (negsuc code)) = true

unfoldable pub start_again : Exited → List ℕ → Watched
start_again x times =
    if leb max_exits (length times)
    then ([], none)
    else if x.stopped_asleep
    then (sleep ∷ [], none)
    else if x.spawned
    then (sleep ∷ spawn_tunnel ∷ [], some times)
    else (sleep ∷ spawn_tunnel ∷ [], none)

unfoldable pub on_exit : Exited → List ℕ → Option (Option ℤ) → Watched
on_exit x times none = ([], none)
on_exit x times (some code) =
    if x.stopped
    then ([], none)
    else if is_final code
    then ([], none)
    else start_again x (recent x.now (times ++ x.now ∷ []))

-- One round of the loop.
unfoldable pub monitor_round : List ℕ → MonitorInput → Watched
monitor_round times cancelled = (kill_child ∷ [], none)
monitor_round times (exited x) = on_exit x times x.status

-- The loop, on the inputs of its rounds.
unfoldable pub tunnel_monitor : List ℕ → List MonitorInput → Watched
tunnel_monitor times [] = ([], some times)
tunnel_monitor times (input ∷ inputs) =
    let (effects, next) = monitor_round times input in
    elim next [
      | none ↦ (effects, none)
      | some times' ↦ let rest = tunnel_monitor times' inputs in (effects ++ rest.0, rest.1)
    ]
