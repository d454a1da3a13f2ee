-- ===== src/Log/Cookie.antt =====
-- flog/flog.c: `flog_set_cookie` of a text that fits.
use final_libs.Prelude.{
  ℕ, ◌+◌, ◌≤◌, ◌≡◌, refl, ap, ◌∙◌, true, List, [], ◌∷◌, ◌++◌, arith, ltb, length, write_at-splice,
  splice, slice, length-splice, slice-splice_extend, slice-splice_before, slice-splice_self,
  append_assoc, Ensures,
}
use final_libs.Log.Disk.{World}
use final_libs.Log.{log_snprintf}
use final_libs.Log.Header.{Header, set_cookie, clear_cookie, cookie, IsHeader, cookie_max_len}

-- A text of at most 256 bytes goes into the cookie whole, and nothing is reported.
pub set_cookie_lem :
    (w : World) (h : Header) (text : List ℕ)
    → IsHeader h
    → length text ≤ cookie_max_len
    → Ensures
        (λ r. IsHeader r.0 × (cookie r.0 ≡ 91 ∷ (text ++ 93 ∷ 32 ∷ [])) × (r.1 ≡ w))
        (set_cookie w h text)
unfolding set_cookie clear_cookie log_snprintf
set_cookie_lem w h text is fits =
    let room = is.bytes in
    let n = length text in
    let short : ltb n (cookie_max_len + 1) ≡ true = ground (arith, fits) in
    let b0 = splice h.bytes 24 (91 ∷ 93 ∷ 32 ∷ 0 ∷ []) in
    let b1 = splice b0 24 (91 ∷ []) in
    let b2 = splice b1 25 text in
    let b3 = splice b2 (25 + n) (0 ∷ []) in
    let b4 = splice b3 (24 + n + 1) (93 ∷ []) in
    let l0 = length-splice h.bytes 24 (91 ∷ 93 ∷ 32 ∷ 0 ∷ []) (omega (arith, room)) in
    let l1 = length-splice b0 24 (91 ∷ []) (omega (arith, room, l0)) in
    let l2 = length-splice b1 25 text (omega (arith, room, l0, l1, fits)) in
    let l3 = length-splice b2 (25 + n) (0 ∷ []) (omega (arith, room, l0, l1, l2, fits)) in
    let l4 = length-splice b3 (24 + n + 1) (93 ∷ []) (omega (arith, room, l0, l1, l2, l3, fits)) in
    let l5 =
      length-splice b4 (24 + n + 2) (32 ∷ []) (omega (arith, room, l0, l1, l2, l3, l4, fits)) in
    let text_end : slice b4 24 (n + 2) ≡ (91 ∷ text) ++ 93 ∷ [] =
      ap (slice b4 24) (omega arith)
      ∙ slice-splice_extend b3 24 (n + 1) (24 + n + 1) (93 ∷ []) (omega arith)
          (omega (arith, room, l0, l1, l2, l3, fits))
      ∙ ap (λ t. t ++ 93 ∷ [])
          (slice-splice_before b2 (25 + n) (0 ∷ []) 24 (n + 1) (omega arith)
              (omega (arith, room, l0, l1, l2, fits))
            ∙ ap (slice b2 24) (omega arith)
            ∙ slice-splice_extend b1 24 1 25 text refl (omega (arith, room, l0, l1, fits))
            ∙ ap (λ t. t ++ text) (slice-splice_self b0 24 (91 ∷ []) (omega (arith, room, l0)))) in
    let printed =
      ap (slice (splice b4 (24 + n + 2) (32 ∷ [])) 24) (omega arith)
      ∙ slice-splice_extend b4 24 (n + 2) (24 + n + 2) (32 ∷ []) (omega arith)
          (omega (arith, room, l0, l1, l2, l3, l4, fits))
      ∙ ap (λ t. t ++ 32 ∷ []) text_end
      ∙ append_assoc (91 ∷ text) (93 ∷ []) (32 ∷ []) in
    rw
      (
        write_at-splice h.bytes 24 (91 ∷ 93 ∷ 32 ∷ 0 ∷ []) (omega (arith, room)),
        write_at-splice b0 24 (91 ∷ []) (omega (arith, room, l0)),
        short,
        write_at-splice b1 25 text (omega (arith, room, l0, l1, fits)),
        write_at-splice b2 (25 + n) (0 ∷ []) (omega (arith, room, l0, l1, l2, fits)),
        write_at-splice b3 (24 + n + 1) (93 ∷ []) (omega (arith, room, l0, l1, l2, l3, fits)),
        write_at-splice b4 (24 + n + 2) (32 ∷ []) (omega (arith, room, l0, l1, l2, l3, l4, fits)),
      )
      (
        record {
          bytes = l5 ∙ l4 ∙ l3 ∙ l2 ∙ l1 ∙ l0 ∙ room;
          cookie_len = omega (arith, fits);
          last_time_str = is.last_time_str;
        },
        printed,
        refl,
      )
