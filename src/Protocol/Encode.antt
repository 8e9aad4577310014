-- ===== src/Protocol/Encode.antt =====
-- `Encoder::encode` of src/protocol.rs. It appends to `dst` and never fails, so the result is the new
-- buffer.
use ttyleport.Prelude.{
  ℕ, ◌%◌, ◌^◌, List, [], ◌∷◌, ◌++◌, map, Bytes, length, codes, ◌≡◌, refl, Bool, if◌then◌else◌,
  negsuc,
}
use ttyleport.Text.Decimal.{to_string}
use ttyleport.Text.Lines.{newline, join}
use ttyleport.Protocol.Wire.{put_u16, put_u32, i32_bits}
use ttyleport.Protocol.{
  Frame, SessionEntry, data_frame, resize, exit, detached, ping, pong, env, new_session, attach,
  list_sessions, kill_session, kill_server, session_created, session_info, ok_frame, error_frame,
  type_data, type_resize, type_exit, type_detached, type_ping, type_pong, type_env,
  type_new_session, type_attach, type_list_sessions, type_kill_session, type_kill_server,
  type_session_created, type_session_info, type_ok, type_error,
}

abbrev pub tab : ℕ
tab = b'\t'

abbrev pub equals : ℕ
equals = b'='

-- `len() as u32`
abbrev pub u32 : ℕ → ℕ
u32 n = n % 2 ^ 32

unfoldable pub encode_empty : Bytes → ℕ → Bytes
encode_empty dst ty = dst ++ ty ∷ put_u32 0

unfoldable pub encode_str : Bytes → ℕ → Bytes → Bytes
encode_str dst ty s = dst ++ ty ∷ (put_u32 (u32 (length s)) ++ s)

-- `format!("{k}={v}")`
unfoldable pub env_line : Bytes × Bytes → Bytes
env_line (k, v) = k ++ equals ∷ v

unfoldable pub env_text : List (Bytes × Bytes) → Bytes
env_text vars = join newline (map env_line vars)

abbrev pub flag : Bool → Bytes
flag b = if b then codes "1" else codes "0"

unfoldable pub entry_line : SessionEntry → Bytes
entry_line e =
    e.id
    ++ tab
      ∷ (e.name
          ++ tab
            ∷ (e.pty_path
                ++ tab
                  ∷ (to_string e.shell_pid
                      ++ tab
                        ∷ (to_string e.created_at
                            ++ tab ∷ (flag e.attached ++ tab ∷ to_string e.last_heartbeat)))))

unfoldable pub info_text : List SessionEntry → Bytes
info_text sessions = join newline (map entry_line sessions)

unfoldable pub encode : Frame → Bytes → Bytes
unfolding encode_empty encode_str env_text info_text env_line entry_line join to_string put_u16
    put_u32 i32_bits
encode (data_frame payload) dst = dst ++ type_data ∷ (put_u32 (u32 (length payload)) ++ payload)
encode (resize cols rows) dst = dst ++ type_resize ∷ (put_u32 4 ++ (put_u16 cols ++ put_u16 rows))
encode (exit code) dst = dst ++ type_exit ∷ (put_u32 4 ++ put_u32 (i32_bits code))
encode detached dst = encode_empty dst type_detached
encode ping dst = encode_empty dst type_ping
encode pong dst = encode_empty dst type_pong
encode (env vars) dst =
    let text = env_text vars in dst ++ type_env ∷ (put_u32 (u32 (length text)) ++ text)
encode (new_session name) dst = encode_str dst type_new_session name
encode (attach session) dst = encode_str dst type_attach session
encode list_sessions dst = encode_empty dst type_list_sessions
encode (kill_session session) dst = encode_str dst type_kill_session session
encode kill_server dst = encode_empty dst type_kill_server
encode (session_created id) dst = encode_str dst type_session_created id
encode (session_info sessions) dst =
    let text = info_text sessions in
    dst ++ type_session_info ∷ (put_u32 (u32 (length text)) ++ text)
encode ok_frame dst = encode_empty dst type_ok
encode (error_frame message) dst = encode_str dst type_error message

encodes_exit : encode (exit (negsuc 0)) [] ≡ 3 ∷ 0 ∷ 0 ∷ 0 ∷ 4 ∷ 255 ∷ 255 ∷ 255 ∷ 255 ∷ []
unfolding encode
encodes_exit = refl

encodes_env :
    encode (env ((codes "A", codes "x") ∷ (codes "B", []) ∷ [])) []
    ≡ 7 ∷ 0 ∷ 0 ∷ 0 ∷ 6 ∷ codes "A=x\nB="
unfolding encode
encodes_env = refl
