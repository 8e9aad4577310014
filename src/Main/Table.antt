-- ===== src/Main/Table.antt =====
-- `list_sessions` of src/main.rs, and the table that it prints.
pub mod Aligned
use ttyleport.Prelude.{
  ℕ, zero, suc, ◌+◌, ◌-◌, ◌*◌, ◌/◌, ◌%◌, ◌^◌, ◌≤◌, ◌<◌, ◌≡◌, refl, sym, ap, ap₂, subst, ◌∙◌, ◌≢◌,
  ◌↔◌, ◌⊎◌, inl, inr, Bool, true, false, not, ◌&&◌, ◌||◌, Option, none, some, List, [], ◌∷◌, ◌++◌,
  map, append-nil, append_assoc, arith, ltb, leb, ◌==◌, if◌then◌else◌, ==_iff, Bool-cases,
  Option-cases, Bytes, bytes_eq, bytes_eq_iff, is_empty, codes, ◌>>=◌, length, take, drop,
  length-append, All, All-append, Lacks, Result, ok, err, ℤ, pos, negsuc,
}
use ttyleport.Text.Decimal.{to_string}
use ttyleport.Protocol.{Frame, SessionEntry, list_sessions, session_info}
use ttyleport.Main.Timestamp.{Tm, repeat, format_timestamp}
use ttyleport.Main.{Serve, CommandError, unexpected_response, daemon_request}

pub record Row : Type 0 where
  pub id : Bytes
  pub name : Bytes
  pub pty : Bytes
  pub pid : Bytes
  pub created : Bytes
  pub status : Bytes

abbrev pub or_dash : Bytes → Bytes
or_dash name = if is_empty name then codes "-" else name

abbrev pub attached_text : ℕ → ℕ → Bytes
attached_text now last_heartbeat =
    if ltb 0 last_heartbeat
    then codes "attached (heartbeat " ++ (to_string (now - last_heartbeat) ++ codes "s ago)")
    else codes "attached"

unfoldable pub session_row : (ℤ → Option Tm) → ℕ → SessionEntry → Row
unfolding format_timestamp to_string
session_row localtime now s =
    if s.shell_pid == 0
    then record {
      id = s.id;
      name = or_dash s.name;
      pty = codes "-";
      pid = codes "-";
      created = codes "-";
      status = codes "starting";
    }
    else record {
      id = s.id;
      name = or_dash s.name;
      pty = s.pty_path;
      pid = to_string s.shell_pid;
      created = format_timestamp localtime s.created_at;
      status = if s.attached then attached_text now s.last_heartbeat else codes "detached";
    }

-- `iter().map(len).max().unwrap().max(floor)`; `len` counts bytes.
unfoldable pub width : ℕ → (Row → Bytes) → List Row → ℕ
width floor column [] = floor
width floor column (r ∷ rows) =
    let rest = width floor column rows in
    if ltb rest (length (column r)) then length (column r) else rest

-- The characters of a UTF-8 text: its bytes but for those that continue a character.
unfoldable pub chars : Bytes → ℕ
chars [] = 0
chars (c ∷ text) = let n = chars text in if leb 0x80 c && leb c 0xbf then n else suc n

-- `{:<w$}` fills up with spaces, counting characters.
unfoldable pub pad : ℕ → Bytes → Bytes
unfolding chars repeat
pad w text = text ++ repeat b' ' (w - chars text)

pub record Widths : Type 0 where
  pub w_id : ℕ
  pub w_name : ℕ
  pub w_pty : ℕ
  pub w_pid : ℕ
  pub w_created : ℕ

unfoldable pub widths : List Row → Widths
unfolding width
widths rows = record {
  w_id = width 2 (λ r. r.id) rows;
  w_name = width 4 (λ r. r.name) rows;
  w_pty = width 3 (λ r. r.pty) rows;
  w_pid = width 3 (λ r. r.pid) rows;
  w_created = width 7 (λ r. r.created) rows;
}

abbrev pub two_spaces : Bytes → Bytes
two_spaces rest = b' ' ∷ b' ' ∷ rest

-- What stands in front of the last column.
unfoldable pub line_front : Widths → Row → Bytes
unfolding pad
line_front w r =
    pad w.w_id r.id
    ++ two_spaces (
        pad w.w_name r.name
        ++ two_spaces (
            pad w.w_pty r.pty
            ++ two_spaces
                (pad w.w_pid r.pid ++ two_spaces (pad w.w_created r.created ++ two_spaces []))))

unfoldable pub table_line : Widths → Row → Bytes
unfolding line_front
table_line w r = line_front w r ++ r.status

abbrev pub heading : Row
heading = record {
  id = codes "ID";
  name = codes "Name";
  pty = codes "PTY";
  pid = codes "PID";
  created = codes "Created";
  status = codes "Status";
}

abbrev pub table_lines : List Row → List Bytes
table_lines rows = map (table_line (widths rows)) (heading ∷ rows)

-- The lines of the table, or the one line that there is none.
unfoldable pub session_lines : (ℤ → Option Tm) → ℕ → List SessionEntry → List Bytes
unfolding session_row widths table_line
session_lines localtime now sessions =
    if is_empty sessions
    then codes "no active sessions" ∷ []
    else table_lines (map (session_row localtime now) sessions)

abbrev pub on_info : (ℤ → Option Tm) → ℕ → Frame → Result CommandError (List Bytes)
on_info localtime now (session_info sessions) = ok (session_lines localtime now sessions)
on_info localtime now other = err (unexpected_response other)

unfoldable pub list_sessions_command :
    Serve → (ℤ → Option Tm) → ℕ → Result CommandError (List Bytes)
list_sessions_command serve localtime now =
    daemon_request serve list_sessions >>= on_info localtime now

lists_one :
    session_lines
      (λ t. none)
      60
      (record {
        id = codes "0";
        name = codes "w";
        pty_path = codes "/dev/pts/3";
        shell_pid = 41;
        created_at = 5;
        attached = true;
        last_heartbeat = 52;
      }
        ∷ [])
    ≡ codes "ID  Name  PTY         PID  Created  Status"
      ∷ codes "0   w     /dev/pts/3  41   -        attached (heartbeat 8s ago)"
      ∷ []
unfolding session_lines
lists_one = refl
