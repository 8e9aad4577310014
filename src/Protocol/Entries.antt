-- ===== src/Protocol/Entries.antt =====
-- The entries of a `SessionInfo` frame of src/protocol.rs, written and read back.
use ttyleport.Prelude.{
  ℕ, ◌<◌, List, [], ◌∷◌, ◌++◌, map, some, Bytes, All, ◌≡◌, refl, arith, Lacks, All-append, Bool,
  bytes_eq, codes, ◌≢◌, true, false,
}
use ttyleport.Text.Utf8.{IsUtf8}
use ttyleport.Text.Decimal.{to_string}
use ttyleport.Text.Decimal.Laws.{to_string-IsDigit, parse-to_string, IsDigit-Lacks}
use ttyleport.Text.Lines.{newline, carriage_return, strip_cr, join, split}
use ttyleport.Text.Lines.Laws.{IsLine, lines-join, split-join, strip_cr-append, append-cons-ne-nil}
use ttyleport.Protocol.Encode.{tab, entry_line, info_text, flag}
use ttyleport.Protocol.Decode.{entry_of_parts, decode_entries, u32_max, u64_max}
use ttyleport.Protocol.Shape.{IsEntry, IsCleanEntry}
use ttyleport.Protocol.{SessionEntry}
use ttyleport.Protocol.Payloads.{
  join-IsUtf8, to_string-IsUtf8, flag-IsUtf8, filter_map-map, All-map,
}

-- The fields of an entry, as `split` gives them back.
entry_parts : SessionEntry → List Bytes
entry_parts e =
    e.id
    ∷ e.name
    ∷ e.pty_path
    ∷ to_string e.shell_pid
    ∷ to_string e.created_at
    ∷ flag e.attached
    ∷ to_string e.last_heartbeat
    ∷ []

entry_line-join : (e : SessionEntry) → entry_line e ≡ join tab (entry_parts e)
unfolding entry_line entry_parts join
entry_line-join e = refl

pub to_string-Lacks : (c n : ℕ) → c < b'0' → Lacks c (to_string n)
to_string-Lacks c n h = IsDigit-Lacks c (to_string n) h (to_string-IsDigit n)

pub flag-Lacks : (c : ℕ) (b : Bool) → c < b'0' → Lacks c (flag b)
flag-Lacks c true h = ground arith
flag-Lacks c false h = ground arith

All-entry_parts {ℓ} :
    (P : Bytes → Type ℓ) (e : SessionEntry)
    → P e.id
    → P e.name
    → P e.pty_path
    → ((n : ℕ) → P (to_string n))
    → ((b : Bool) → P (flag b))
    → All P (entry_parts e)
unfolding entry_parts
All-entry_parts P e id name pty number bool = (
  id,
  (
    name,
    (
      pty,
      (number e.shell_pid, (number e.created_at, (bool e.attached, (number e.last_heartbeat, tt)))),
    ),
  ),
)

entry_parts-Lacks :
    (c : ℕ) (e : SessionEntry)
    → c < b'0'
    → Lacks c e.id
    → Lacks c e.name
    → Lacks c e.pty_path
    → All (Lacks c) (entry_parts e)
entry_parts-Lacks c e lt id name pty =
    All-entry_parts (Lacks c) e id name pty (λ n. to_string-Lacks c n lt) (λ b. flag-Lacks c b lt)

pub join-Lacks : (c : ℕ) (ps : List Bytes) → tab ≢ c → All (Lacks c) ps → Lacks c (join tab ps)
unfolding join
join-Lacks c [] ne h = tt
join-Lacks c (p ∷ []) ne (hp, _) = hp
join-Lacks c (p ∷ q ∷ ps) ne (hp, hs) =
    All-append (λ b. b ≢ c) p _ hp (ne, join-Lacks c (q ∷ ps) ne hs)

strip_cr-Lacks : (s : Bytes) → Lacks carriage_return s → strip_cr s ≡ s
unfolding strip_cr
strip_cr-Lacks [] h = refl
strip_cr-Lacks (c ∷ []) (hc, _) = ground arith
strip_cr-Lacks (c ∷ d ∷ s) (hc, hs) = rw (strip_cr-Lacks (d ∷ s) hs)

strip_cr-tab : (k v : Bytes) → strip_cr v ≡ v → strip_cr (k ++ tab ∷ v) ≡ k ++ tab ∷ v
strip_cr-tab k v h = strip_cr-append k v tab (omega arith) h

pub entry_line-strip_cr : (e : SessionEntry) → strip_cr (entry_line e) ≡ entry_line e
unfolding entry_line
entry_line-strip_cr e =
    let last = strip_cr-Lacks _ (to_string-Lacks carriage_return e.last_heartbeat (omega arith)) in
    let ending = strip_cr-tab (to_string e.created_at) _ (strip_cr-tab (flag e.attached) _ last) in
    let middle = strip_cr-tab e.pty_path _ (strip_cr-tab (to_string e.shell_pid) _ ending) in
    strip_cr-tab e.id _ (strip_cr-tab e.name _ middle)

pub entry_line-IsLine :
    (e : SessionEntry)
    → Lacks newline e.id
    → Lacks newline e.name
    → Lacks newline e.pty_path
    → IsLine (entry_line e)
entry_line-IsLine e id name pty = record {
  lacks_newline =
      rw (entry_line-join e) (
        join-Lacks newline _ (omega arith) (entry_parts-Lacks newline e (omega arith) id name pty));
  no_final_cr = entry_line-strip_cr e;
  ne_nil = unfold entry_line in append-cons-ne-nil e.id _ tab;
}

pub clean-IsLine : (e : SessionEntry) → IsCleanEntry e → IsLine (entry_line e)
clean-IsLine e h = entry_line-IsLine e h.id_newline h.name_newline h.pty_newline

flag-bytes_eq : (b : Bool) → bytes_eq (flag b) (codes "1") ≡ b
unfolding bytes_eq
flag-bytes_eq true = refl
flag-bytes_eq false = refl

entry_of_parts-entry_parts :
    (e : SessionEntry) → IsEntry e → entry_of_parts (entry_parts e) ≡ some e
unfolding entry_of_parts entry_parts
entry_of_parts-entry_parts e h = rw (
  parse-to_string u32_max e.shell_pid (omega arith) (omega arith),
  parse-to_string u64_max e.created_at (omega arith) (omega arith),
  parse-to_string u64_max e.last_heartbeat (omega arith) (omega arith),
  flag-bytes_eq e.attached,
)

abbrev pub IsGoodEntry : SessionEntry → Type 0
IsGoodEntry e = IsEntry e × IsCleanEntry e

All-zip : (es : List SessionEntry) → All IsEntry es → All IsCleanEntry es → All IsGoodEntry es
All-zip [] h c = tt
All-zip (e ∷ es) (he, hs) (ce, cs) = ((he, ce), All-zip es hs cs)

pub read_entry :
    (e : SessionEntry) → IsGoodEntry e → entry_of_parts (split tab (entry_line e)) ≡ some e
read_entry e (h, c) =
    rw
      (
        entry_line-join e,
        split-join tab (entry_parts e) (unfold entry_parts in cc)
            (entry_parts-Lacks tab e (omega arith) c.id_tab c.name_tab c.pty_tab),
      )
      (entry_of_parts-entry_parts e h)

pub decode_entries-info_text :
    (es : List SessionEntry)
    → All IsEntry es
    → All IsCleanEntry es
    → decode_entries (info_text es) ≡ es
unfolding decode_entries info_text
decode_entries-info_text es h c =
    rw (lines-join (map entry_line es) (All-map IsLine entry_line clean-IsLine es c))
      (filter_map-map entry_line _ read_entry es (All-zip es h c))

entry_line-IsUtf8 : (e : SessionEntry) → IsEntry e → IsUtf8 (entry_line e)
entry_line-IsUtf8 e h = rw (entry_line-join e) (
    join-IsUtf8 tab (entry_parts e) (omega arith)
      (All-entry_parts IsUtf8 e h.id_utf8 h.name_utf8 h.pty_utf8 to_string-IsUtf8 flag-IsUtf8))

pub info_text-IsUtf8 : (es : List SessionEntry) → All IsEntry es → IsUtf8 (info_text es)
unfolding info_text
info_text-IsUtf8 es h =
    join-IsUtf8 newline (map entry_line es) (omega arith)
      (All-map IsUtf8 entry_line entry_line-IsUtf8 es h)
