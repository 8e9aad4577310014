-- ===== src/Protocol/Shape.antt =====
-- What every frame of src/protocol.rs looks like on the wire, and how `decode` takes a frame apart.
use ttyleport.Prelude.{
  ℕ, ◌+◌, ◌^◌, ◌≤◌, ◌<◌, [], ◌∷◌, ◌++◌, none, Bytes, length, All, ok, ◌≡◌, refl, ap, ◌∙◌, arith,
  Lacks, take-append, drop-append, length-append, append_assoc,
}
use ttyleport.Text.Utf8.{IsUtf8}
use ttyleport.Text.Lines.{newline, strip_cr}
use ttyleport.Protocol.Wire.{put_u16, put_u32, i32_bits, IsI32, u32_from_be_bytes-put_u32}
use ttyleport.Protocol.Encode.{u32, tab, equals, env_text, info_text, encode}
use ttyleport.Protocol.Decode.{decode_payload, decode_body, decode, some_frame}
use ttyleport.Protocol.{
  Frame, SessionEntry, data_frame, resize, exit, detached, ping, pong, env, new_session, attach,
  list_sessions, kill_session, kill_server, session_created, session_info, ok_frame, error_frame,
  type_data, type_resize, type_exit, type_detached, type_ping, type_pong, type_env,
  type_new_session, type_attach, type_list_sessions, type_kill_session, type_kill_server,
  type_session_created, type_session_info, type_ok, type_error, max_frame_size,
}

abbrev pub frame_type : Frame → ℕ
frame_type (data_frame _) = type_data
frame_type (resize _ _) = type_resize
frame_type (exit _) = type_exit
frame_type detached = type_detached
frame_type ping = type_ping
frame_type pong = type_pong
frame_type (env _) = type_env
frame_type (new_session _) = type_new_session
frame_type (attach _) = type_attach
frame_type list_sessions = type_list_sessions
frame_type (kill_session _) = type_kill_session
frame_type kill_server = type_kill_server
frame_type (session_created _) = type_session_created
frame_type (session_info _) = type_session_info
frame_type ok_frame = type_ok
frame_type (error_frame _) = type_error

abbrev pub payload : Frame → Bytes
payload (data_frame p) = p
payload (resize cols rows) = put_u16 cols ++ put_u16 rows
payload (exit code) = put_u32 (i32_bits code)
payload (env vars) = env_text vars
payload (new_session name) = name
payload (attach session) = session
payload (kill_session session) = session
payload (session_created id) = id
payload (session_info sessions) = info_text sessions
payload (error_frame message) = message
payload _ = []

-- What the Rust types of an entry and of a frame guarantee: ranges, and that a text is UTF-8.
pub record IsEntry (e : SessionEntry) : Type 0 where
  pub id_utf8 : IsUtf8 e.id
  pub name_utf8 : IsUtf8 e.name
  pub pty_utf8 : IsUtf8 e.pty_path
  pub pid_u32 : e.shell_pid < 2 ^ 32
  pub created_u64 : e.created_at < 2 ^ 64
  pub heartbeat_u64 : e.last_heartbeat < 2 ^ 64

abbrev pub IsVar : Bytes × Bytes → Type 0
IsVar v = IsUtf8 v.0 × IsUtf8 v.1

abbrev pub IsFrame : Frame → Type 0
IsFrame (resize cols rows) = (cols < 2 ^ 16) × (rows < 2 ^ 16)
IsFrame (exit code) = IsI32 code
IsFrame (env vars) = All IsVar vars
IsFrame (new_session name) = IsUtf8 name
IsFrame (attach session) = IsUtf8 session
IsFrame (kill_session session) = IsUtf8 session
IsFrame (session_created id) = IsUtf8 id
IsFrame (session_info sessions) = All IsEntry sessions
IsFrame (error_frame message) = IsUtf8 message
IsFrame _ = Unit

-- The texts in a list hold none of the bytes that separate its items.
pub record IsCleanEntry (e : SessionEntry) : Type 0 where
  pub id_tab : Lacks tab e.id
  pub id_newline : Lacks newline e.id
  pub name_tab : Lacks tab e.name
  pub name_newline : Lacks newline e.name
  pub pty_tab : Lacks tab e.pty_path
  pub pty_newline : Lacks newline e.pty_path

pub record IsCleanVar (v : Bytes × Bytes) : Type 0 where
  pub key_equals : Lacks equals v.0
  pub key_newline : Lacks newline v.0
  pub value_newline : Lacks newline v.1
  pub value_cr : strip_cr v.1 ≡ v.1

abbrev pub IsClean : Frame → Type 0
IsClean (env vars) = All IsCleanVar vars
IsClean (session_info sessions) = All IsCleanEntry sessions
IsClean _ = Unit

-- Every frame is its type byte, the length of its payload and the payload.
pub encode_shape :
    (f : Frame) (dst : Bytes)
    → encode f dst ≡ dst ++ frame_type f ∷ (put_u32 (u32 (length (payload f))) ++ payload f)
unfolding encode
encode_shape (data_frame p) dst = refl
encode_shape (resize cols rows) dst = refl
encode_shape f dst = refl

pub encode_append :
    (f : Frame) (rest : Bytes)
    → encode f [] ++ rest
      ≡ frame_type f ∷ (put_u32 (u32 (length (payload f))) ++ (payload f ++ rest))
encode_append f rest =
    ap (λ (s : Bytes). s ++ rest) (encode_shape f [])
    ∙ ap (λ (s : Bytes). frame_type f ∷ s) (append_assoc (put_u32 _) (payload f) rest)

pub decode_header :
    (ty n : ℕ) (rest : Bytes)
    → n < 2 ^ 32
    → decode (ty ∷ (put_u32 n ++ rest)) ≡ decode_body ty n (ty ∷ (put_u32 n ++ rest)) rest
unfolding put_u32
decode_header ty n rest h =
    rw
      (← ap (λ (k : ℕ). decode_body ty k (ty ∷ (put_u32 n ++ rest)) rest)
        (u32_from_be_bytes-put_u32 n h))
      (unfold decode in refl)

pub length_header : (ty n : ℕ) (rest : Bytes) → length (ty ∷ (put_u32 n ++ rest)) ≡ length rest + 5
unfolding put_u32
length_header ty n rest = omega arith

decode_body_whole :
    (ty : ℕ) (src p rest : Bytes)
    → length p ≤ max_frame_size
    → 5 + length p ≤ length src
    → decode_body ty (length p) src (p ++ rest) ≡ (rest, some_frame (decode_payload ty p))
unfolding decode_body
decode_body_whole ty src p rest fits whole = ground (arith, take-append p rest, drop-append p rest)

-- A whole frame in front of the buffer is taken off, and its payload decides the outcome.
pub decode_whole :
    (ty : ℕ) (p rest : Bytes)
    → length p ≤ max_frame_size
    → decode (ty ∷ (put_u32 (u32 (length p)) ++ (p ++ rest)))
      ≡ (rest, some_frame (decode_payload ty p))
decode_whole ty p rest fits =
    let e : u32 (length p) ≡ length p = omega arith in
    rw e (
      decode_header ty (length p) (p ++ rest) (omega arith)
      ∙ decode_body_whole ty _ p rest fits
          (omega (arith, length_header ty (length p) (p ++ rest), length-append p rest)))

pub decode_body_part :
    (ty n : ℕ) (src rest : Bytes)
    → n ≤ max_frame_size
    → length src < 5 + n
    → decode_body ty n src rest ≡ (src, ok none)
unfolding decode_body
decode_body_part ty n src rest fits part = ground arith
