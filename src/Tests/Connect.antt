-- ===== src/Tests/Connect.antt =====
-- The theorems about src/connect.rs at concrete destinations and exits of ssh.
use ttyleport.Prelude.{
  ℕ, pos, true, false, List, [], ◌∷◌, some, none, codes, ok, ◌≡◌, refl, arith, map,
}
use ttyleport.Text.Decimal.{parse}
use ttyleport.Text.Lines.{split_once}
use ttyleport.Text.Search.{rsplit_once}
use ttyleport.Connect.{Destination, parse_destination}
use ttyleport.Connect.Parse.{written, parse_destination-written}
use ttyleport.Connect.Accepts.{Says, parse_destination_sound}
use ttyleport.Connect.Monitor.{Exited, exited, tunnel_monitor}
use ttyleport.Security.Dirs.{Process}
use ttyleport.Connect.Tunnel.{ConnectOpts, Meets, output}
use ttyleport.Connect.Rate.{tunnel_monitor_limit}
use ttyleport.Connect.Spaced.{StillRuns, IsTransient, tunnel_monitor_keeps}

abbrev bastion : Destination
bastion = record { user = some (codes "al"); host = codes "::1"; port = some 22 }

parse_destination-written_example : parse_destination (written bastion) ≡ ok bastion
parse_destination-written_example =
    parse_destination-written bastion
      ((cc), ((cc), (omega arith, (omega arith, tt))), tt, omega arith)

parses_padded_port : parse_destination (codes "al@::1:022") ≡ ok bastion
unfolding parse_destination split_once rsplit_once parse
parses_padded_port = refl

parse_destination_sound_example : Says (codes "al@::1:022") bastion
parse_destination_sound_example =
    parse_destination_sound (codes "al@::1:022") bastion parses_padded_port

abbrev broke_at : ℕ → Exited
broke_at t = record {
  status = some (some (pos 255));
  stopped = false;
  now = t;
  stopped_asleep = false;
  spawned = true;
}

abbrev burst : List Exited
burst =
    broke_at 1_000_000_000
    ∷ broke_at 2_100_000_000
    ∷ broke_at 3_200_000_000
    ∷ broke_at 4_300_000_000
    ∷ broke_at 5_400_000_000
    ∷ []

tunnel_monitor_limit_example : (tunnel_monitor [] (map exited burst)).1 ≡ none
tunnel_monitor_limit_example = tunnel_monitor_limit 0 [] burst (omega arith) (
  (omega arith, omega arith),
  (
    (omega arith, omega arith),
    ((omega arith, omega arith), ((omega arith, omega arith), ((omega arith, omega arith), tt))),
  ),
)

abbrev drops : List Exited
drops = broke_at 3_000_000_000 ∷ broke_at 6_000_000_000 ∷ []

broke : (t : ℕ) → IsTransient (broke_at t)
broke t = ((some (pos 255), refl, refl), refl, refl, refl)

tunnel_monitor_keeps_example : StillRuns 2 (tunnel_monitor [] (map exited drops))
tunnel_monitor_keeps_example =
    tunnel_monitor_keeps drops (broke 3_000_000_000, (broke 6_000_000_000, tt))
      (omega arith, (omega arith, tt))

abbrev runner : Process
runner = record { uid = 7; xdg_runtime_dir = none }

abbrev asks : ConnectOpts
asks = record { destination = codes "al@box"; no_daemon_start = false; ssh_options = [] }

-- The local socket never comes up.
abbrev in_vain : Meets
in_vain = record {
  pid = 12;
  remote = output true (codes "/tmp/gritty-0/ctl.sock") [];
  directory = ok tt;
  child = some (some 41);
  start = 0;
  polls = record { connected = false; now = 15_000_000_000 } ∷ [];
  signals = true;
  killed_after = none;
}
