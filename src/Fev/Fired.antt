-- ===== src/Fev/Fired.antt =====
-- fev/fev.c: descriptors whose last events are deleted while the ready ones are handled.
use final_libs.Prelude.{
  ℕ, suc, ◌<◌, ◌≡◌, ◌⊎◌, inl, inr, refl, ap, sym, ◌∙◌, true, false, not, Option, none, some, arith,
  if◌then◌else◌, Bool-cases, Gives, Gives-some, Gives-if, Gives-bind, second_of_if, of_result,
  subst, ltb, ℤ, pos, test_eq,
}
use native.Mathlib.Decide.{ℕ_discrete}
use final_libs.Dlist.Cells.{write, write_self, write-other, write_part}
use final_libs.Fev.Kernel.{Mask, ctl_add, ctl_del, ctl_mod, Epoll}
use final_libs.Fev.{
  Event, Fev, Callback, is_nil, read_write, same_mask, merge, without, is_outside, addevent,
  delevent, reg_event, add_event, del_event, add_firelist, is_fired, handle,
}

-- one call of the registry, whatever it returns
pub data Step {os : Epoll} : Fev os → Fev os → Type 0 where
  by_reg :
      (s : Fev os) (fd : ℕ) (m : Mask) (pread pwrite : Option ℕ) (arg : ℕ)
      → Step s (reg_event s fd m pread pwrite arg).1
  by_add : (s : Fev os) (fd : ℕ) (m : Mask) → Step s (add_event s fd m).1
  by_del :
      {t : Fev os} (s : Fev os) (fd : ℕ) (m : Mask) (code : ℤ)
      → del_event s fd m ≡ some (code, t)
      → Step s t

pub data Steps {os : Epoll} (s : Fev os) : Fev os → Type 0 where
  here : Steps s s
  next : {t u : Fev os} → Steps s t → Step t u → Steps s u

module _ {os : Epoll} where
  pub record IsFired (s : Fev os) (fd : ℕ) : Type 0 where
    pub listed : (s.fevents fd).fire_idx < s.fire_num
    pub there : s.firelist (s.fevents fd).fire_idx ≡ fd

  -- the fired descriptors are as before
  record SameFired (s t : Fev os) : Type 0 where
    pub number : t.fire_num ≡ s.fire_num
    pub list : t.firelist ≡ s.firelist
    pub index : (q : ℕ) → (t.fevents q).fire_idx ≡ (s.fevents q).fire_idx

  same_fired : (s : Fev os) → SameFired s s
  same_fired s = record { number = refl; list = refl; index = λ q. refl }

  SameFired-IsFired : (s t : Fev os) (fd : ℕ) → SameFired s t → IsFired s fd → IsFired t fd
  SameFired-IsFired s t fd same is =
      let number = same.number in
      let index = same.index fd in
      record {
        listed = omega (arith, is.listed, number, index);
        there = ap (λ l. l (t.fevents fd).fire_idx) same.list ∙ ap s.firelist index ∙ is.there;
      }

  addevent-SameFired : (s : Fev os) (fd : ℕ) (m : Mask) → SameFired s (addevent s fd m).1
  unfolding addevent
  addevent-SameFired s fd m =
      let e = s.fevents fd in
      let mask = merge m e.mask in
      let r = os.ctl s.kernel (if is_nil e.mask then ctl_add else ctl_mod) fd (read_write mask) in
      elim (Bool-cases r.0) [
        | inl ok ↦ rw ok (record {
          number = refl;
          list = refl;
          index =
              write_part (λ (e' : Event). e'.fire_idx) s.fevents fd (record e { mask = mask }) refl;
        })
        | inr bad ↦ rw bad (record { number = refl; list = refl; index = λ q. refl })
      ]

  delevent-SameFired : (s : Fev os) (fd : ℕ) (m : Mask) → SameFired s (delevent s fd m).1
  unfolding delevent
  delevent-SameFired s fd m = record {
    number = refl;
    list = refl;
    index =
        write_part (λ (e : Event). e.fire_idx) s.fevents fd
          (record (s.fevents fd) { mask = without (s.fevents fd).mask m }) refl;
  }

  reg_event-SameFired :
      (s : Fev os) (fd : ℕ) (m : Mask) (pread pwrite : Option ℕ) (arg : ℕ)
      → SameFired s (reg_event s fd m pread pwrite arg).1
  unfolding reg_event
  reg_event-SameFired s fd m pread pwrite arg =
      let P = SameFired s in
      let r = addevent s fd (read_write m) in
      let added = addevent-SameFired s fd (read_write m) in
      let same = same_fired s in
      second_of_if P (is_outside s fd) _ _ same (λ _.
        second_of_if P (is_nil (read_write m)) _ _ same (λ _.
          second_of_if P (not (is_nil (s.fevents fd).mask)) _ _ same (λ _.
            second_of_if P (not r.0) _ _ added (λ _. record {
              number = added.number;
              list = added.list;
              index = λ q.
                  write_part (λ (e : Event). e.fire_idx) r.1.fevents fd
                    (record (r.1.fevents fd) { pread = pread; pwrite = pwrite; arg = arg }) refl q
                  ∙ added.index q;
            }))))

  add_event-SameFired : (s : Fev os) (fd : ℕ) (m : Mask) → SameFired s (add_event s fd m).1
  unfolding add_event
  add_event-SameFired s fd m =
      let P = SameFired s in
      let r = addevent s fd (read_write m) in
      let added = addevent-SameFired s fd (read_write m) in
      let same = same_fired s in
      second_of_if P (is_outside s fd) _ _ same (λ _.
        second_of_if P (is_nil (read_write m)) _ _ same (λ _.
          second_of_if P (is_nil (s.fevents fd).mask) _ _ same (λ _.
            second_of_if P (same_mask (s.fevents fd).mask (read_write m)) _ _ same
              (λ _. second_of_if P (not r.0) _ _ added (λ _. added)))))

  -- A descriptor that comes to the list is fired, and every other one stays so.
  add_firelist-IsFired :
      (s t : Fev os) (fd q : ℕ) → add_firelist s fd ≡ some t → (q ≡ fd) ⊎ IsFired s q → IsFired t q
  unfolding add_firelist
  add_firelist-IsFired s t fd q done was =
      let e : Event = record (s.fevents fd) { fire_idx = s.fire_num } in
      let new : Fev os = record s {
        firelist = write s.firelist s.fire_num fd;
        fevents = write s.fevents fd e;
        fire_num = suc s.fire_num;
      } in
      let new_event = write_self s.fevents fd e in
      let new_fd = write_self s.firelist s.fire_num fd in
      let at_new : IsFired new fd = record {
        listed = omega (arith, ap (λ (x : Event). x.fire_idx) new_event);
        there =
            ap (write s.firelist s.fire_num fd) (ap (λ (x : Event). x.fire_idx) new_event) ∙ new_fd;
      } in
      let fired : IsFired new q = elim (ℕ_discrete q fd) [
        | yes same ↦ subst (IsFired new) (sym same) at_new
        | no other ↦ elim was [
          | inl same ↦ absurd (other same)
          | inr is ↦
              (let kept : (new.fevents q).fire_idx ≡ (s.fevents q).fire_idx =
                  ap (λ (x : Event). x.fire_idx) (write-other s.fevents fd e q other) in
                let below = is.listed in
                record {
                  listed = omega (arith, below, kept);
                  there =
                      ap new.firelist kept
                      ∙ write-other s.firelist s.fire_num fd (s.fevents q).fire_idx
                          (λ e'. absurd (omega (arith, below, e')))
                      ∙ is.there;
                })
        ]
      ] in
      elim (Bool-cases (ltb s.fire_num s.max_ev_size)) [
        | inl room ↦
            of_result (λ u. IsFired u q) new t fired
              (sym (ap (λ b. if b then some new else none) room) ∙ done)
        | inr full ↦ absurd (ground (arith, full, done))
      ]

  -- A deletion leaves every fired descriptor fired.
  del_event-IsFired :
      (s : Fev os) (fd q : ℕ) (m : Mask)
      → IsFired s q
      → Gives (λ r. IsFired r.1 q) (del_event s fd m)
  unfolding del_event
  del_event-IsFired s fd q m is =
      let P = λ (r : ℤ × Fev os). IsFired r.1 q in
      let r = delevent s fd (read_write m) in
      let is' = SameFired-IsFired s r.1 q (delevent-SameFired s fd (read_write m)) is in
      Gives-if P (is_outside s fd) _ _ (λ _. Gives-some P _ is)
        (λ _.
          Gives-if P (is_nil (s.fevents fd).mask) _ _ (λ _. Gives-some P _ is)
            (λ _.
              Gives-if P (is_nil (read_write m)) _ _ (λ _. Gives-some P _ is)
                (λ _.
                  Gives-if P (not r.0) _ _ (λ _. Gives-some P _ is')
                    (λ _.
                      Gives-if P (is_nil (r.1.fevents fd).mask) _ _
                        (λ _. Gives-bind P (add_firelist r.1 fd) _ (λ t done.
                          Gives-some P (pos 0, t) (add_firelist-IsFired r.1 t fd q done (inr is'))))
                        (λ _. Gives-some P _ is')))))

  -- A deletion that succeeds and takes the last events of a descriptor fires it.
  del_event_fires :
      (s : Fev os) (fd : ℕ) (m : Mask)
      → is_nil (s.fevents fd).mask ≡ false
      → Gives
          (λ r. r.0 ≡ pos 0 → is_nil (r.1.fevents fd).mask ≡ true → IsFired r.1 fd)
          (del_event s fd m)
  unfolding del_event
  del_event_fires s fd m some_mask =
      let P =
        λ (r : ℤ × Fev os). (r.0 ≡ pos 0 → is_nil (r.1.fevents fd).mask ≡ true → IsFired r.1 fd) in
      let r = delevent s fd (read_write m) in
      Gives-if P (is_outside s fd) _ _ (λ _. Gives-some P _ (λ e _. absurd (ground (arith, e))))
        (λ _.
          Gives-if P (is_nil (s.fevents fd).mask) _ _ (λ e. absurd (ground (arith, e, some_mask)))
            (λ _.
              Gives-if P (is_nil (read_write m)) _ _
                (λ _. Gives-some P _ (λ _ e. absurd (ground (arith, e, some_mask))))
                (λ _.
                  Gives-if P (not r.0) _ _ (λ _. Gives-some P _ (λ e _. absurd (ground (arith, e))))
                    (λ _.
                      Gives-if P (is_nil (r.1.fevents fd).mask) _ _
                        (λ _. Gives-bind P (add_firelist r.1 fd) _ (λ t done.
                          Gives-some P (pos 0, t)
                            (λ _ _. add_firelist-IsFired r.1 t fd fd done (inl refl))))
                        (λ more. Gives-some P _ (λ _ e. absurd (ground (arith, e, more))))))))

  Step-IsFired : (s t : Fev os) (q : ℕ) → Step s t → IsFired s q → IsFired t q
  Step-IsFired s t q (by_reg _ fd m pread pwrite arg) is =
      SameFired-IsFired s t q (reg_event-SameFired s fd m pread pwrite arg) is
  Step-IsFired s t q (by_add _ fd m) is = SameFired-IsFired s t q (add_event-SameFired s fd m) is
  Step-IsFired s t q (by_del _ fd m code e) is = del_event-IsFired s fd q m is (code, t) e

  Steps-IsFired : (s t : Fev os) (q : ℕ) → Steps s t → IsFired s q → IsFired t q
  Steps-IsFired s t q here is = is
  Steps-IsFired s t q (next {t = u} before step) is =
      Step-IsFired u t q step (Steps-IsFired s u q before is)

  IsFired-handle :
      (call : Callback os) (s : Fev os) (fd : ℕ) (m : Mask)
      → IsFired s fd
      → handle call s fd m ≡ some (0, s)
  unfolding handle is_fired
  IsFired-handle call s fd m is =
      let below = is.listed in
      let listed : ltb (s.fevents fd).fire_idx s.fire_num ≡ true = ground arith in
      rw (listed, test_eq (s.firelist (s.fevents fd).fire_idx) fd is.there) refl

  -- After a `fev_del_event` that returns 0 and takes the last events of a registered
  -- descriptor, any further calls of `fev_reg_event`, `fev_add_event` and `fev_del_event`,
  -- whatever they return, leave the descriptor ignored: for an event of it that was ready in
  -- the same poll, the loop of `fev_state_poll` calls no callback and counts nothing.
  pub fired_ignored :
      (call : Callback os) (s t u : Fev os) (fd : ℕ) (m ready : Mask)
      → is_nil (s.fevents fd).mask ≡ false
      → del_event s fd m ≡ some (pos 0, t)
      → is_nil (t.fevents fd).mask ≡ true
      → Steps t u
      → handle call u fd ready ≡ some (0, u)
  fired_ignored call s t u fd m ready some_mask deleted no_mask steps =
      IsFired-handle call u fd ready (
        Steps-IsFired t u fd steps
          (del_event_fires s fd m some_mask (pos 0, t) deleted refl no_mask))

  -- When as many descriptors have been fired as the registry has entries, a `fev_del_event`
  -- that takes the last events of a registered descriptor, and for which epoll_ctl succeeds,
  -- is undefined: it writes behind the list.
  pub del_event_full :
      (s : Fev os) (fd : ℕ) (m : Mask)
      → fd < s.max_ev_size
      → is_nil (s.fevents fd).mask ≡ false
      → is_nil (without (s.fevents fd).mask (read_write m)) ≡ true
      → (os.ctl s.kernel ctl_del fd (read_write (without (s.fevents fd).mask (read_write m)))).0
        ≡ true
      → s.fire_num ≡ s.max_ev_size
      → del_event s fd m ≡ none
  unfolding del_event delevent add_firelist
  del_event_full s fd m inside some_mask last ok full =
      let in_range : is_outside s fd ≡ false = ground arith in
      let given : is_nil (read_write m) ≡ false = ground (arith, some_mask, last) in
      let no_room : ltb s.fire_num s.max_ev_size ≡ false = ground arith in
      let e : Event = record (s.fevents fd) { mask = without (s.fevents fd).mask (read_write m) } in
      let gone : is_nil (write s.fevents fd e fd).mask ≡ true =
        ap (λ (x : Event). is_nil x.mask) (write_self s.fevents fd e) ∙ last in
      rw (in_range, some_mask, given, last, ok, gone, no_room) refl
