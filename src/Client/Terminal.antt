-- ===== src/Client/Terminal.antt =====
-- The modes of the terminal through `run` of src/client.rs: `RawModeGuard` and `NonBlockGuard`, and what
-- they leave behind.
pub mod Restored
use ttyleport.Prelude.{
  ℕ, zero, suc, ◌+◌, ◌-◌, ◌*◌, ◌/◌, ◌%◌, ◌^◌, ◌≤◌, ◌<◌, ◌≡◌, refl, sym, ap, ap₂, subst, ◌∙◌, ◌≢◌,
  ◌↔◌, ◌⊎◌, inl, inr, Bool, true, false, not, ◌&&◌, ◌||◌, Option, none, some, List, [], ◌∷◌, ◌++◌,
  map, append-nil, append_assoc, arith, ltb, leb, ◌==◌, if◌then◌else◌, ==_iff, Bool-cases,
  Option-cases, Bytes, bytes_eq, bytes_eq_iff, is_empty, codes, length, take, drop, length-append,
  All, All-append, Lacks, Result, ok, err, ℤ, pos, negsuc,
}
use ttyleport.Client.Relay.{Action, stop_self}
use ttyleport.Client.Run.{
  Life, Stage, relayed, between, RunEnd, Ran, exited, run_failed, unfinished, run,
}

-- The types of termios and of the flags of a file, `cfmakeraw`, `OFlag::from_bits_truncate`, and the
-- union with `O_NONBLOCK`.
pub record TerminalTypes : Type 1 where
  pub Modes : Type 0
  pub Flags : Type 0
  pub cfmakeraw : Modes → Modes
  pub from_bits_truncate : Flags → Flags
  pub or_nonblock : Flags → Flags

-- Which calls succeed, in their order. A call that fails changes nothing.
pub record Calls : Type 0 where
  pub tcgetattr : Bool
  pub tcsetattr : Bool
  pub get_flags : Bool
  pub set_flags : Bool
  pub async_fd : Bool
  pub sigwinch : Bool
  pub reset_flags : Bool
  pub reset_modes : Bool

module _ (T : TerminalTypes) where
  pub record Terminal : Type 0 where
    pub modes : T.Modes
    pub flags : T.Flags

  -- `RawModeGuard::enter`: the guard holds the modes it found.
  unfoldable pub enter : Calls → Terminal → Option T.Modes × Terminal
  enter c t =
      if c.tcgetattr && c.tcsetattr
      then (some t.modes, record t { modes = T.cfmakeraw t.modes })
      else (none, t)

  -- `NonBlockGuard::set`: the guard holds the flags it found, as far as they have names.
  unfoldable pub set_nonblock : Calls → Terminal → Option T.Flags × Terminal
  set_nonblock c t =
      if c.get_flags && c.set_flags
      then (
        some (T.from_bits_truncate t.flags),
        record t { flags = T.or_nonblock (T.from_bits_truncate t.flags) },
      )
      else (none, t)

  -- The two `drop`s.
  unfoldable pub drop_raw : Calls → T.Modes → Terminal → Terminal
  drop_raw c original t = if c.reset_modes then record t { modes = original } else t

  unfoldable pub drop_nonblock : Calls → T.Flags → Terminal → Terminal
  drop_nonblock c original t = if c.reset_flags then record t { flags = original } else t

  -- The terminal through the actions of the loop, and as it is whenever the client stops itself: `suspend`
  -- only sends SIGTSTP, and an attempt that fails counts. `meanwhile` is what others do to the terminal
  -- while the client is stopped.
  abbrev pub Seen : Type 0
  Seen = List Terminal × Terminal

  unfoldable pub through : (Terminal → Terminal) → List Action → Terminal → Seen
  through meanwhile [] t = ([], t)
  through meanwhile (stop_self ∷ acts) t =
      let rest = through meanwhile acts (meanwhile t) in (t ∷ rest.0, rest.1)
  through meanwhile (_ ∷ acts) t = through meanwhile acts t

  -- The actions of a run of the loop, in order.
  unfoldable pub all_actions : List Stage → List Action
  all_actions [] = []
  all_actions (relayed acts ∷ stages) = acts ++ all_actions stages
  all_actions (between acts ∷ stages) = acts ++ all_actions stages

  -- What `run` comes to: its loop, if it gets there, the terminal when the loop begins, the terminal at
  -- each suspend, and the terminal that is left.
  pub record InTerminal : Type 0 where
    pub ran : Option Ran
    pub entered : Option Terminal
    pub suspends : List Terminal
    pub left : Terminal

  abbrev pub has_ended : RunEnd → Bool
  has_ended unfinished = false
  has_ended _ = true

  abbrev pub drop_guards : Calls → T.Modes → T.Flags → Terminal → Terminal
  drop_guards c original flags t = drop_raw c original (drop_nonblock c flags t)

  -- The loop with both guards.
  abbrev pub looping :
      (Terminal → Terminal) → Calls → T.Modes → T.Flags → Terminal → Ran → InTerminal
  looping meanwhile c original flags t ran =
      let seen = through meanwhile (all_actions ran.0) t in
      record {
        ran = some ran;
        entered = some t;
        suspends = seen.0;
        left = if has_ended ran.1 then drop_guards c original flags seen.1 else seen.1;
      }

  abbrev pub not_run : Terminal → InTerminal
  not_run t = record { ran = none; entered = none; suspends = []; left = t }

  abbrev pub with_flags :
      (Terminal → Terminal) → Calls → T.Modes → Ran → Option T.Flags × Terminal → InTerminal
  with_flags meanwhile c original ran (some flags, t) =
      if c.async_fd && c.sigwinch
      then looping meanwhile c original flags t ran
      else not_run (drop_guards c original flags t)
  with_flags meanwhile c original ran (none, t) = not_run (drop_raw c original t)

  abbrev pub with_modes :
      (Terminal → Terminal) → Calls → Ran → Option T.Modes × Terminal → InTerminal
  with_modes meanwhile c ran (some original, t) =
      with_flags meanwhile c original ran (set_nonblock c t)
  with_modes meanwhile c ran (none, t) = not_run t

  unfoldable pub run_in_terminal :
      (Terminal → Terminal)
      → Calls
      → Terminal
      → Bytes
      → List (Bytes × Bytes)
      → Bool
      → Bool
      → List Life
      → InTerminal
  unfolding enter set_nonblock drop_raw drop_nonblock through all_actions
  run_in_terminal meanwhile c t session vars redraw no_escape lives =
      with_modes meanwhile c (run session vars redraw no_escape lives) (enter c t)
