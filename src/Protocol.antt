-- ===== src/Protocol.antt =====
-- The frames of src/protocol.rs: their types, type bytes and limits. The codec is in the modules
-- below this one.
pub mod Wire
pub mod Encode
pub mod Decode
pub mod Shape
pub mod Payloads
pub mod Vars
pub mod Entries
pub mod RoundTrip
pub mod Framing
pub mod Arrival
pub mod Limits
use ttyleport.Prelude.{ℕ, ◌^◌, Bool, List, Option, none, some, Bytes, ℤ, Result, ok, err}

abbrev pub type_data : ℕ
type_data = 0x01

abbrev pub type_resize : ℕ
type_resize = 0x02

abbrev pub type_exit : ℕ
type_exit = 0x03

abbrev pub type_detached : ℕ
type_detached = 0x04

abbrev pub type_ping : ℕ
type_ping = 0x05

abbrev pub type_pong : ℕ
type_pong = 0x06

abbrev pub type_env : ℕ
type_env = 0x07

abbrev pub type_new_session : ℕ
type_new_session = 0x10

abbrev pub type_attach : ℕ
type_attach = 0x11

abbrev pub type_list_sessions : ℕ
type_list_sessions = 0x12

abbrev pub type_kill_session : ℕ
type_kill_session = 0x13

abbrev pub type_kill_server : ℕ
type_kill_server = 0x14

abbrev pub type_session_created : ℕ
type_session_created = 0x20

abbrev pub type_session_info : ℕ
type_session_info = 0x21

abbrev pub type_ok : ℕ
type_ok = 0x22

abbrev pub type_error : ℕ
type_error = 0x23

-- One type byte and four length bytes.
abbrev pub header_len : ℕ
header_len = 5

abbrev pub max_frame_size : ℕ
max_frame_size = 2 ^ 20

pub record SessionEntry : Type 0 where
  pub id : Bytes
  pub name : Bytes
  pub pty_path : Bytes
  pub shell_pid : ℕ
  pub created_at : ℕ
  pub attached : Bool
  pub last_heartbeat : ℕ

-- `Frame::Data`, `Frame::Ok` and `Frame::Error` are `data_frame`, `ok_frame` and `error_frame`.
pub data Frame : Type 0 where
  data_frame : Bytes → Frame
  resize : (cols rows : ℕ) → Frame
  exit : (code : ℤ) → Frame
  detached : Frame
  ping : Frame
  pong : Frame
  env : (vars : List (Bytes × Bytes)) → Frame
  new_session : (name : Bytes) → Frame
  attach : (session : Bytes) → Frame
  list_sessions : Frame
  kill_session : (session : Bytes) → Frame
  kill_server : Frame
  session_created : (id : Bytes) → Frame
  session_info : (sessions : List SessionEntry) → Frame
  ok_frame : Frame
  error_frame : (message : Bytes) → Frame

-- The reasons for an `io::Error` of kind `InvalidData` in `decode`.
pub data DecodeError : Type 0 where
  payload_too_large : (payload_len : ℕ) → DecodeError
  resize_length : DecodeError
  exit_length : DecodeError
  not_utf8 : DecodeError
  unknown_type : (frame_type : ℕ) → DecodeError

-- The two errors of `expect_from`.
pub data ExpectError : Type 0 where
  protocol_error : DecodeError → ExpectError
  closed_connection : ExpectError

unfoldable pub expect_from : Option (Result DecodeError Frame) → Result ExpectError Frame
expect_from (some (ok frame)) = ok frame
expect_from (some (err e)) = err (protocol_error e)
expect_from none = err closed_connection
