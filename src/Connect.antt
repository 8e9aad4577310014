-- ===== src/Connect.antt =====
-- The destination of `gritty connect` and the command lines of ssh, of src/connect.rs.
pub mod Tunnel
pub mod Parse
pub mod Accepts
pub mod Monitor
pub mod Rate
pub mod Spaced
use ttyleport.Prelude.{
  ℕ, Bool, true, false, List, [], ◌∷◌, ◌++◌, Option, none, some, Bytes, codes, is_empty,
  if◌then◌else◌, Result, ok, err, ◌>>=◌, ◌≡◌, refl,
}
use ttyleport.Text.Decimal.{to_string, parse}
use ttyleport.Text.Lines.{split_once}
use ttyleport.Text.Search.{rsplit_once, at_last}

pub record Destination : Type 0 where
  pub user : Option Bytes
  pub host : Bytes
  pub port : Option ℕ

-- The errors of `Destination::parse`, without the text that they quote.
pub data DestinationError : Type 0 where
  empty_destination empty_user invalid_port empty_host : DestinationError

abbrev pub at_sign : ℕ
at_sign = b'@'

abbrev pub colon : ℕ
colon = b':'

abbrev pub u16_max : ℕ
u16_max = 65535

abbrev pub Parsed : Type 0 → Type 0
Parsed = Result DestinationError

-- What stands in front of the first `@`, and the remainder.
abbrev pub user_part : Bytes → Option (Bytes × Bytes) → Parsed (Option Bytes × Bytes)
user_part s (some (u, remainder)) = if is_empty u then err empty_user else ok (some u, remainder)
user_part s none = ok (none, s)

abbrev pub port_part : Bytes → Option ℕ → Parsed (Bytes × Option ℕ)
port_part h (some p) = ok (h, some p)
port_part h none = err invalid_port

-- What stands in front of the last `:`, and the port behind it.
abbrev pub host_part : Bytes → Option (Bytes × Bytes) → Parsed (Bytes × Option ℕ)
host_part remainder (some (h, p)) = port_part h (parse u16_max p)
host_part remainder none = ok (remainder, none)

abbrev pub destination : Option Bytes → Bytes → Option ℕ → Parsed Destination
destination user host port =
    if is_empty host then err empty_host else ok (record { user = user; host = host; port = port })

-- `Destination::parse`
unfoldable pub parse_destination : Bytes → Parsed Destination
parse_destination s = if is_empty s then err empty_destination else (do
  (user, remainder) ← user_part s (split_once at_sign s)
  (host, port) ← host_part remainder (rsplit_once colon remainder)
  destination user host port)

abbrev pub with_user : Option Bytes → Bytes → Bytes
with_user (some u) host = u ++ at_sign ∷ host
with_user none host = host

unfoldable pub ssh_dest : Destination → Bytes
ssh_dest d = with_user d.user d.host

abbrev pub port_option : Option ℕ → List Bytes
port_option (some p) = codes "-p" ∷ to_string p ∷ []
port_option none = []

unfoldable pub port_args : Destination → List Bytes
port_args d = port_option d.port

abbrev pub ssh_tunnel_opts : List Bytes
ssh_tunnel_opts =
    codes "-o"
    ∷ codes "ServerAliveInterval=3"
    ∷ codes "-o"
    ∷ codes "ServerAliveCountMax=2"
    ∷ codes "-o"
    ∷ codes "StreamLocalBindUnlink=yes"
    ∷ codes "-o"
    ∷ codes "ExitOnForwardFailure=yes"
    ∷ codes "-o"
    ∷ codes "ConnectTimeout=5"
    ∷ codes "-N"
    ∷ codes "-T"
    ∷ []

unfoldable pub extra_args : List Bytes → List Bytes
extra_args [] = []
extra_args (opt ∷ opts) = codes "-o" ∷ opt ∷ extra_args opts

-- The arguments of the tunnel's ssh.
unfoldable pub tunnel_command : Destination → Bytes → Bytes → List Bytes → List Bytes
unfolding port_args ssh_dest extra_args
tunnel_command dest local_sock remote_sock extra_ssh_opts =
    port_args dest
    ++ ssh_tunnel_opts
    ++ extra_args extra_ssh_opts
    ++ codes "-L" ∷ (local_sock ++ colon ∷ remote_sock) ∷ ssh_dest dest ∷ []

-- The arguments of the ssh that runs a command on the remote host.
unfoldable pub remote_exec_args : Destination → Bytes → List Bytes → List Bytes
unfolding port_args ssh_dest extra_args
remote_exec_args dest remote_cmd extra_ssh_opts =
    port_args dest
    ++ extra_args extra_ssh_opts
    ++ codes "-o"
      ∷ codes "ConnectTimeout=5"
      ∷ ssh_dest dest
      ∷ (codes "PATH=\"$HOME/bin:$HOME/.local/bin:$HOME/.cargo/bin:$PATH\"; " ++ remote_cmd)
      ∷ []

parses_user_host_port :
    parse_destination (codes "user@host:2222")
    ≡ ok (record { user = some (codes "user"); host = codes "host"; port = some 2222 })
unfolding parse_destination split_once rsplit_once parse
parses_user_host_port = refl
