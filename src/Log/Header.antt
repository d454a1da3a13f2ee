-- ===== src/Log/Header.antt =====
-- flog/flog.c: the header of a thread's messages: the time and the cookie.
use final_libs.Prelude.{
  ℕ, ◌+◌, ◌≤◌, ◌≡◌, Option, some, List, [], ◌∷◌, ◌++◌, ltb, if◌then◌else◌, ◌>>=◌, length, take, ◌/◌,
  read_at, write_at, slice,
}
use final_libs.Log.Disk.{World}
use final_libs.Log.{log_snprintf}

-- the part of a thread's data for the header of its messages: the bytes of `header`, `cookie_len`,
-- `last_time` and the bytes of `last_time_str`
pub record Header : Type 0 where
  pub bytes : List ℕ
  pub cookie_len : ℕ
  pub last_time : ℕ
  pub last_time_str : List ℕ

-- LOG_COOKIE_MAX_LEN
abbrev pub cookie_max_len : ℕ
cookie_max_len = 256

-- LOG_TIME_TOTAL_LEN
abbrev pub time_total_len : ℕ
time_total_len = 24

-- `_log_clear_cookie`: "[] " and a zero byte
unfoldable pub clear_cookie : Header → Option Header
clear_cookie h = do
  bytes ← write_at h.bytes time_total_len (91 ∷ 93 ∷ 32 ∷ 0 ∷ [])
  some (record h { bytes = bytes; cookie_len = 3 })

-- `flog_set_cookie` of a text that `vsnprintf` would print
unfoldable pub set_cookie : World → Header → List ℕ → Option (Header × World)
set_cookie w h text = do
  h1 ← clear_cookie h
  opened ← write_at h1.bytes time_total_len (91 ∷ [])
  let (printed, len, w') = log_snprintf w (cookie_max_len + 1) text
  copied ← write_at opened (time_total_len + 1) printed
  ended ← write_at copied (time_total_len + 1 + length printed) (0 ∷ [])
  closed ← write_at ended (time_total_len + len + 1) (93 ∷ [])
  spaced ← write_at closed (time_total_len + len + 2) (32 ∷ [])
  some (record h1 { bytes = spaced; cookie_len = len + 3 }, w')

-- LOG_TIME_LEN, LOG_TIME_MS_LEN, LOG_NS_PER_MS
abbrev pub time_len : ℕ
time_len = 20

abbrev pub time_ms_len : ℕ
time_ms_len = 4

abbrev pub ns_per_ms : ℕ
ns_per_ms = 1_000_000

-- What `gmtime_r` and `snprintf` make of a time in seconds, and `snprintf` of milliseconds, are
-- parameters.
module _ (time_text ms_text : ℕ → List ℕ) where
  -- `_log_get_time` into the bytes of a string
  abbrev pub get_time : ℕ → List ℕ → Option (List ℕ)
  get_time now str = write_at str 0 (take time_len (time_text now) ++ 0 ∷ [])

  -- the part of `_log_get_header` that renews the time of the header
  unfoldable pub renew_time : Header → ℕ → Option Header
  renew_time h now =
      if ltb h.last_time now
      then (do
        str ← get_time now h.last_time_str
        some (record h { last_time = now; last_time_str = str }))
      else some h

  -- `_log_get_header`: the bytes of the header, as many as it says
  unfoldable pub get_header : Header → ℕ → ℕ → Option (List ℕ × Header)
  get_header h now nsec = do
    h1 ← renew_time h now
    let tm_ms = take time_ms_len (ms_text (nsec / ns_per_ms)) ++ 0 ∷ []
    time ← read_at h1.last_time_str 0 time_len
    dated ← write_at h1.bytes 0 time
    ms ← read_at tm_ms 0 time_ms_len
    bytes ← write_at dated time_len ms
    header ← read_at bytes 0 (time_total_len + h1.cookie_len)
    some (header, record h1 { bytes = bytes })

-- the cookie of a header, as it goes to a message
abbrev pub cookie : Header → List ℕ
cookie h = slice h.bytes time_total_len h.cookie_len

-- `header` has room for the time, the longest cookie, "[] " and a zero byte.
pub record IsHeader (h : Header) : Type 0 where
  pub bytes : length h.bytes ≡ time_total_len + cookie_max_len + 3 + 1
  pub cookie_len : h.cookie_len ≤ cookie_max_len + 3
  pub last_time_str : length h.last_time_str ≡ time_len + 1

-- What the time and the milliseconds are printed as has the length that the formats say.
pub record IsClock (time_text ms_text : ℕ → List ℕ) : Type 0 where
  pub time : (t : ℕ) → length (time_text t) ≡ time_len
  pub ms : (t : ℕ) → length (ms_text t) ≡ time_ms_len
