-- ===== src/Protocol/Vars.antt =====
-- The variables of an `Env` frame of src/protocol.rs, written and read back.
use ttyleport.Prelude.{List, ◌∷◌, map, some, Bytes, All, ◌≡◌, arith, All-append, ◌≢◌}
use ttyleport.Text.Utf8.{IsUtf8}
use ttyleport.Text.Lines.{newline, split_once}
use ttyleport.Text.Lines.Laws.{
  IsLine, lines-join, split_once-append, strip_cr-append, append-cons-ne-nil,
}
use ttyleport.Protocol.Encode.{equals, env_line, env_text}
use ttyleport.Protocol.Decode.{decode_vars}
use ttyleport.Protocol.Shape.{IsVar, IsCleanVar}
use ttyleport.Protocol.Payloads.{between-IsUtf8, join-IsUtf8, filter_map-map, All-map}

-- The variables of an `Env` frame.
env_line-IsUtf8 : (v : Bytes × Bytes) → IsVar v → IsUtf8 (env_line v)
unfolding env_line
env_line-IsUtf8 (k, v) (hk, hv) = between-IsUtf8 equals k v (omega arith) hk hv

env_line-IsLine : (v : Bytes × Bytes) → IsCleanVar v → IsLine (env_line v)
unfolding env_line
env_line-IsLine (k, v) h = record {
  lacks_newline =
      All-append (λ c. c ≢ newline) k (equals ∷ v) h.key_newline (omega arith, h.value_newline);
  no_final_cr = strip_cr-append k v equals (omega arith) h.value_cr;
  ne_nil = append-cons-ne-nil k v equals;
}

split_once-env_line : (v : Bytes × Bytes) → IsCleanVar v → split_once equals (env_line v) ≡ some v
unfolding env_line
split_once-env_line (k, v) h = split_once-append equals k v h.key_equals

pub decode_vars-env_text :
    (vars : List (Bytes × Bytes)) → All IsCleanVar vars → decode_vars (env_text vars) ≡ vars
unfolding decode_vars env_text
decode_vars-env_text vars h =
    rw (lines-join (map env_line vars) (All-map IsLine env_line env_line-IsLine vars h))
      (filter_map-map env_line (split_once equals) split_once-env_line vars h)

pub env_text-IsUtf8 : (vars : List (Bytes × Bytes)) → All IsVar vars → IsUtf8 (env_text vars)
unfolding env_text
env_text-IsUtf8 vars h =
    join-IsUtf8 newline (map env_line vars) (omega arith)
      (All-map IsUtf8 env_line env_line-IsUtf8 vars h)
