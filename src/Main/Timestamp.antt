-- ===== src/Main/Timestamp.antt =====
-- `format_timestamp` of src/main.rs. `localtime` is `localtime_r`, with `none` for a null result.
use ttyleport.Prelude.{
  ℕ, zero, suc, ◌+◌, ◌-◌, ◌^◌, ◌≡◌, refl, Option, none, some, [], ◌∷◌, ◌++◌, ltb, if◌then◌else◌,
  Bytes, codes, length, ℤ, pos, negsuc,
}
use ttyleport.Text.Decimal.{to_string}

-- `libc::tm` as `localtime_r` fills it in.
pub record Tm : Type 0 where
  pub tm_year : ℤ
  pub tm_mon : ℤ
  pub tm_mday : ℤ
  pub tm_hour : ℤ
  pub tm_min : ℤ
  pub tm_sec : ℤ

-- `as libc::time_t`, which has 64 bits and a sign.
unfoldable pub as_time_t : ℕ → ℤ
as_time_t secs = if ltb secs (2 ^ 63) then pos secs else negsuc (2 ^ 64 - 1 - secs)

-- The sum with a constant; a sum above the range of an i32 panics in a debug build.
unfoldable pub plus : ℤ → ℕ → ℤ
plus (pos n) k = pos (n + k)
plus (negsuc n) k = if ltb n k then pos (k - (n + 1)) else negsuc (n - k)

unfoldable pub repeat : ℕ → ℕ → Bytes
repeat c zero = []
repeat c (suc n) = c ∷ repeat c n

-- `{:02}` and `{:04}`: zeros fill up behind the sign, which counts.
unfoldable pub zero_pad : ℕ → ℤ → Bytes
unfolding repeat to_string
zero_pad width (pos n) = repeat b'0' (width - length (to_string n)) ++ to_string n
zero_pad width (negsuc n) =
    b'-' ∷ (repeat b'0' (width - 1 - length (to_string (n + 1))) ++ to_string (n + 1))

abbrev pub time_text : Option Tm → Bytes
time_text none = codes "-"
time_text (some tm) =
    zero_pad 4 (plus tm.tm_year 1900)
    ++ b'-'
      ∷ (zero_pad 2 (plus tm.tm_mon 1)
          ++ b'-'
            ∷ (zero_pad 2 tm.tm_mday
                ++ b' '
                  ∷ (zero_pad 2 tm.tm_hour
                      ++ b':' ∷ (zero_pad 2 tm.tm_min ++ b':' ∷ zero_pad 2 tm.tm_sec))))

unfoldable pub format_timestamp : (ℤ → Option Tm) → ℕ → Bytes
unfolding zero_pad plus as_time_t
format_timestamp localtime epoch_secs = time_text (localtime (as_time_t epoch_secs))

abbrev noon : Tm
noon = record {
  tm_year = pos 124;
  tm_mon = pos 0;
  tm_mday = pos 5;
  tm_hour = pos 12;
  tm_min = pos 0;
  tm_sec = pos 9;
}

shows_noon : format_timestamp (λ t. some noon) 0 ≡ codes "2024-01-05 12:00:09"
unfolding format_timestamp
shows_noon = refl

shows_early :
    format_timestamp (λ t. some (record noon { tm_year = negsuc 1901 })) 0
    ≡ codes "-002-01-05 12:00:09"
unfolding format_timestamp
shows_early = refl
