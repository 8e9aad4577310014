-- ===== src/Daemon.antt =====
-- The daemon of src/daemon.rs: its table of sessions and the request that each connection brings.
-- A session's task runs beside the daemon. What the daemon sees of it is in the table: whether the
-- task has finished, whether its end of the channel is closed, and the metadata that it has set.
-- `sessions` lists the hash map in its iteration order, which no theorem fixes.
pub mod Step
pub mod Table
pub mod Invariant
pub mod Resolve
pub mod Requests
pub mod Rounds
pub mod Listing
pub mod Order
pub mod Startup
use ttyleport.Prelude.{
  ℕ, ◌+◌, ◌^◌, ◌%◌, Bool, true, false, not, List, [], ◌∷◌, ◌++◌, map, Option, none, some, Bytes,
  bytes_eq, ◌==◌, if◌then◌else◌, is_empty, leb,
}
use mathlib.Core.Option.{get_or}
use ttyleport.Text.Decimal.{to_string, parse}
use ttyleport.Protocol.{SessionEntry}
use ttyleport.Protocol.Decode.{u32_max}

-- `SessionMetadata` of src/server.rs, its two atomics read.
pub record SessionMetadata : Type 0 where
  pub pty_path : Bytes
  pub shell_pid : ℕ
  pub created_at : ℕ
  pub attached : Bool
  pub last_heartbeat : ℕ

-- `handle.is_finished()` and `client_tx.is_closed()` are the first two fields.
pub record SessionState : Type 0 where
  pub finished : Bool
  pub closed : Bool
  pub metadata : Option SessionMetadata
  pub name : Option Bytes

abbrev pub Sessions : Type 0
Sessions = List (ℕ × SessionState)

unfoldable pub retain : (SessionState → Bool) → Sessions → Sessions
retain keep [] = []
retain keep ((id, s) ∷ sessions) =
    let rest = retain keep sessions in if keep s then (id, s) ∷ rest else rest

unfoldable pub reap_sessions : Sessions → Sessions
reap_sessions = retain (λ s. not s.finished)

unfoldable pub contains_key : ℕ → Sessions → Bool
contains_key id [] = false
contains_key id ((j, s) ∷ sessions) = if j == id then true else contains_key id sessions

unfoldable pub lookup : ℕ → Sessions → Option SessionState
lookup id [] = none
lookup id ((j, s) ∷ sessions) = if j == id then some s else lookup id sessions

unfoldable pub remove : ℕ → Sessions → Sessions
remove id [] = []
remove id ((j, s) ∷ sessions) =
    let rest = remove id sessions in if j == id then rest else (j, s) ∷ rest

-- A `HashMap` holds one value for a key.
unfoldable pub insert : ℕ → SessionState → Sessions → Sessions
insert id s sessions = (id, s) ∷ remove id sessions

-- `state.name.as_deref() == Some(target)`
unfoldable pub is_named : Option Bytes → Bytes → Bool
unfolding bytes_eq
is_named none target = false
is_named (some name) target = bytes_eq name target

unfoldable pub find_by_name : Sessions → Bytes → Option ℕ
find_by_name [] target = none
find_by_name ((id, s) ∷ sessions) target =
    if is_named s.name target then some id else find_by_name sessions target

-- A numeric id counts if it is in the table.
unfoldable pub find_by_id : Sessions → Option ℕ → Option ℕ
find_by_id sessions none = none
find_by_id sessions (some id) = if contains_key id sessions then some id else none

abbrev pub or_by_id : Sessions → Bytes → Option ℕ → Option ℕ
or_by_id sessions target (some id) = some id
or_by_id sessions target none = find_by_id sessions (parse u32_max target)

unfoldable pub resolve_session : Sessions → Bytes → Option ℕ
resolve_session sessions target = or_by_id sessions target (find_by_name sessions target)

abbrev pub fill_entry : ℕ → Option Bytes → Option SessionMetadata → SessionEntry
fill_entry id name (some meta) = record {
  id = to_string id;
  name = get_or name [];
  pty_path = meta.pty_path;
  shell_pid = meta.shell_pid;
  created_at = meta.created_at;
  attached = meta.attached;
  last_heartbeat = meta.last_heartbeat;
}
fill_entry id name none = record {
  id = to_string id;
  name = get_or name [];
  pty_path = [];
  shell_pid = 0;
  created_at = 0;
  attached = false;
  last_heartbeat = 0;
}

unfoldable pub session_entry : ℕ × SessionState → SessionEntry
session_entry (id, s) = fill_entry id s.name s.metadata

unfoldable pub entry_key : SessionEntry → ℕ
unfolding parse
entry_key e = get_or (parse u32_max e.id) u32_max

-- `sort_by_key` is a stable sort.
unfoldable pub insert_by_key : SessionEntry → List SessionEntry → List SessionEntry
insert_by_key e [] = e ∷ []
insert_by_key e (f ∷ es) =
    if leb (entry_key e) (entry_key f) then e ∷ f ∷ es else f ∷ insert_by_key e es

unfoldable pub sort_by_key : List SessionEntry → List SessionEntry
sort_by_key [] = []
sort_by_key (e ∷ es) = insert_by_key e (sort_by_key es)

unfoldable pub build_session_entries : Sessions → List SessionEntry
build_session_entries sessions = sort_by_key (map session_entry sessions)
