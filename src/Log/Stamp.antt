-- ===== src/Log/Stamp.antt =====
-- flog/flog.c: what `_log_get_header` returns.
use final_libs.Prelude.{
  ℕ, ◌+◌, ◌≤◌, ◌≡◌, refl, ap, ◌∙◌, Bool, List, [], ◌∷◌, ◌++◌, arith, ltb, if◌then◌else◌, length,
  take, ◌/◌, write_at-splice, splice, slice, length-splice, slice-splice_extend, slice-splice_self,
  append_assoc, Ensures, ap₂, drop, slice-add, slice-take, slice-splice_after, read_at-slice,
  length-slice, take-append_self, Ensures-bind, take-length, ◌<◌, length-take, length-append, sym,
  Bool-cases, inl, inr,
}
use final_libs.Log.Header.{
  Header, IsHeader, IsClock, cookie, time_len, time_ms_len, ns_per_ms, time_total_len, renew_time,
  get_header,
}

module _ (time_text ms_text : ℕ → List ℕ) (printed : IsClock time_text ms_text) where
  -- the time that the header of a message has
  abbrev pub time_of : Header → ℕ → List ℕ
  time_of h now = if ltb h.last_time now then time_text now else take time_len h.last_time_str

  pub length-time_of : (h : Header) (now : ℕ) → IsHeader h → length (time_of h now) ≡ time_len
  length-time_of h now is = elim (Bool-cases (ltb h.last_time now)) [
    | inl later ↦ rw later (printed.time now)
    | inr same ↦ rw same (omega (arith, length-take time_len h.last_time_str, is.last_time_str))
  ]

  record Renewed (h : Header) (now : ℕ) (h' : Header) : Type 0 where
    pub bytes : h'.bytes ≡ h.bytes
    pub cookie_len : h'.cookie_len ≡ h.cookie_len
    pub size : length h'.last_time_str ≡ time_len + 1
    pub time : slice h'.last_time_str 0 time_len ≡ time_of h now

  renew_time_lem :
      (h : Header) (now : ℕ)
      → IsHeader h
      → Ensures (Renewed h now) (renew_time time_text ms_text h now)
  unfolding renew_time slice splice
  renew_time_lem h now is = elim (Bool-cases (ltb h.last_time now)) [
    | inl later ↦
        let text = time_text now in
        let whole : take time_len text ≡ text =
          ap (λ n. take n text) (sym (printed.time now)) ∙ take-length text in
        let len = length-append text (0 ∷ []) in
        let size = printed.time now in
        let fits : 0 + length (text ++ 0 ∷ []) ≤ length h.last_time_str =
          omega (arith, len, size, is.last_time_str) in
        rw (later, whole, write_at-splice h.last_time_str 0 (text ++ 0 ∷ []) fits)
          (record {
            bytes = refl;
            cookie_len = refl;
            size = length-splice h.last_time_str 0 (text ++ 0 ∷ []) fits ∙ is.last_time_str;
            time =
                ap (take time_len)
                  (append_assoc text (0 ∷ []) (drop (length (text ++ 0 ∷ [])) h.last_time_str))
                ∙ take-append_self time_len text
                    (0 ∷ drop (length (text ++ 0 ∷ [])) h.last_time_str) size
                ∙ sym (either later);
          })
    | inr same ↦ rw same (record {
      bytes = refl;
      cookie_len = refl;
      size = is.last_time_str;
      time = sym (either same);
    })
  ]
    where
      either :
          {b : Bool}
          → ltb h.last_time now ≡ b
          → time_of h now ≡ (if b then time_text now else take time_len h.last_time_str)
      either e = ap (λ (b : Bool). if b then time_text now else take time_len h.last_time_str) e

  -- the header of a message
  abbrev pub header_of : Header → ℕ → ℕ → List ℕ
  header_of h now nsec = time_of h now ++ (ms_text (nsec / ns_per_ms) ++ cookie h)

  pub header_bounds :
      (h : Header) (now nsec : ℕ)
      → IsHeader h
      → (0 < length (header_of h now nsec)) × (length (header_of h now nsec) ≤ 283)
  header_bounds h now nsec is =
      let date = time_of h now in
      let ms = ms_text (nsec / ns_per_ms) in
      let date_len = length-time_of h now is in
      let ms_len = printed.ms (nsec / ns_per_ms) in
      let both = length-append date (ms ++ cookie h) in
      let rest = length-append ms (cookie h) in
      let cookie_len : length (cookie h) ≡ h.cookie_len =
        length-slice h.bytes time_total_len h.cookie_len (omega (arith, is.bytes, is.cookie_len)) in
      (
        omega (arith, both, date_len),
        omega (arith, both, rest, date_len, ms_len, cookie_len, is.cookie_len),
      )

  -- what `_log_get_header` returns, and what it leaves of the header
  pub record Stamped (h : Header) (now nsec : ℕ) (r : List ℕ × Header) : Type 0 where
    pub header : r.0 ≡ header_of h now nsec
    pub is : IsHeader r.1
    pub cookie : cookie r.1 ≡ cookie h

  pub get_header_lem :
      (h : Header) (now nsec : ℕ)
      → IsHeader h
      → Ensures (Stamped h now nsec) (get_header time_text ms_text h now nsec)
  unfolding get_header
  get_header_lem h now nsec is =
      Ensures-bind _ (renew_time time_text ms_text h now) _ (renew_time_lem h now is) (λ h1 new.
        let ms = ms_text (nsec / ns_per_ms) in
        let time = slice h1.last_time_str 0 time_len in
        let ms_len = printed.ms (nsec / ns_per_ms) in
        let array : take time_ms_len ms ++ 0 ∷ [] ≡ ms ++ 0 ∷ [] =
          ap (λ t. t ++ 0 ∷ []) (ap (λ n. take n ms) (sym ms_len) ∙ take-length ms) in
        let array_len = length-append ms (0 ∷ []) in
        let ms_read : slice (ms ++ 0 ∷ []) 0 time_ms_len ≡ ms =
          slice-take (ms ++ 0 ∷ []) time_ms_len ∙ take-append_self time_ms_len ms (0 ∷ []) ms_len in
        let time_size = length-slice h1.last_time_str 0 time_len (omega (arith, new.size)) in
        let size = ap length new.bytes ∙ is.bytes in
        let dated = splice h1.bytes 0 time in
        let dated_size = length-splice h1.bytes 0 time (omega (arith, time_size, size)) in
        let bytes = splice dated time_len ms in
        let bytes_size =
          length-splice dated time_len ms (omega (arith, dated_size, size, ms_len)) in
        let stamp : slice bytes 0 time_total_len ≡ time_of h now ++ ms =
          ap (λ n. slice bytes 0 (time_len + n)) (sym ms_len)
          ∙ slice-splice_extend dated 0 time_len time_len ms refl (omega (arith, dated_size, size))
          ∙ ap (λ t. t ++ ms)
              (ap (slice dated 0) (sym time_size)
                ∙ slice-splice_self h1.bytes 0 time (omega arith)
                ∙ new.time) in
        let cookie_len = ap (λ n. n + 0) new.cookie_len in
        let same_cookie : slice bytes time_total_len h1.cookie_len ≡ cookie h =
          slice-splice_after dated time_len ms time_total_len h1.cookie_len (omega (arith, ms_len))
            (omega (arith, dated_size, size))
          ∙ slice-splice_after h1.bytes 0 time time_total_len h1.cookie_len
              (omega (arith, time_size)) (omega arith)
          ∙ ap₂ (λ m n. slice m time_total_len n) new.bytes new.cookie_len in
        rw
          (
            read_at-slice h1.last_time_str 0 time_len (omega (arith, new.size)),
            write_at-splice h1.bytes 0 time (omega (arith, time_size, size)),
            array,
            read_at-slice (ms ++ 0 ∷ []) 0 time_ms_len (omega (arith, array_len, ms_len)),
            ms_read,
            write_at-splice dated time_len ms (omega (arith, dated_size, size, ms_len)),
            read_at-slice bytes 0 (time_total_len + h1.cookie_len)
                (omega (arith, bytes_size, dated_size, size, is.cookie_len, cookie_len)),
          )
          (record {
            header =
                slice-add bytes 0 time_total_len h1.cookie_len
                ∙ ap₂ (λ xs ys. xs ++ ys) stamp same_cookie
                ∙ append_assoc (time_of h now) ms (cookie h);
            is = record {
              bytes = bytes_size ∙ dated_size ∙ size;
              cookie_len = omega (arith, cookie_len, is.cookie_len);
              last_time_str = new.size;
            };
            cookie = same_cookie;
          }))
