-- ===== src/Fev/Synced.antt =====
-- fev/fev.c: the masks of the registry and the events that epoll is asked for.
use final_libs.Prelude.{
  ℕ, suc, ◌<◌, ◌≡◌, ◌⊎◌, inl, inr, refl, ap, sym, ◌∙◌, true, false, not, Option, none, some, arith,
  if◌then◌else◌, Bool-cases, second_of_if, Ensures, Ensures-if, Ensures-bind, ltb, ℤ, negsuc,
}
use native.Mathlib.Decide.{ℕ_discrete}
use final_libs.Dlist.Cells.{write, write_self, write-other, write_part}
use final_libs.Fev.Kernel.{Mask, Op, ctl_add, ctl_mod, ctl_del, wanted, Epoll}
use final_libs.Fev.{
  Event, Fev, is_nil, same_mask, read_write, merge, without, put_event, is_outside, addevent,
  delevent, reg_event, add_event, del_event, add_firelist,
}

-- what epoll is asked for, for a mask
abbrev pub registered : Mask → Option Mask
registered m = if is_nil m then none else some (read_write m)

wanted_add :
    (m old : Mask)
    → is_nil (read_write m) ≡ false
    → wanted (if is_nil old then ctl_add else ctl_mod) (read_write (merge (read_write m) old))
      ≡ registered (merge (read_write m) old)
wanted_add m old some_mask =
    let more : is_nil (merge (read_write m) old) ≡ false = ground (arith, some_mask) in
    elim (Bool-cases (is_nil old)) [ inl e ↦ rw (e, more) refl | inr e ↦ rw (e, more) refl ]

wanted_del :
    (m : Mask) → wanted (if is_nil m then ctl_del else ctl_mod) (read_write m) ≡ registered m
wanted_del m = elim (Bool-cases (is_nil m)) [ inl e ↦ rw e refl | inr e ↦ rw e refl ]

module _ {os : Epoll} where
  -- Epoll waits for exactly the events of the masks.
  abbrev pub IsSynced : Fev os → Type 0
  IsSynced s = (q : ℕ) → os.interest s.kernel q ≡ registered (s.fevents q).mask

  -- the state after a call of epoll_ctl that succeeds, with the mask of its descriptor
  ctl-IsSynced :
      (s : Fev os) (fd : ℕ) (op : Op) (m sent : Mask)
      → IsSynced s
      → (os.ctl s.kernel op fd sent).0 ≡ true
      → wanted op sent ≡ registered m
      → IsSynced (
          put_event
            (record s { kernel = (os.ctl s.kernel op fd sent).1 })
            fd
            (record (s.fevents fd) { mask = m }))
  ctl-IsSynced s fd op m sent synced ok same q = elim (ℕ_discrete q fd) [
    | yes here ↦
        (let at = os.ctl_succeeds s.kernel op fd sent q ok in
          let new : Event = record (s.fevents fd) { mask = m } in
          at
          ∙ ap (write (os.interest s.kernel) fd (wanted op sent)) here
          ∙ write_self (os.interest s.kernel) fd (wanted op sent)
          ∙ same
          ∙ ap (λ e. registered e.mask)
              (sym (ap (write s.fevents fd new) here ∙ write_self s.fevents fd new)))
    | no other ↦
        (let new : Event = record (s.fevents fd) { mask = m } in
          os.ctl_succeeds s.kernel op fd sent q ok
          ∙ write-other (os.interest s.kernel) fd (wanted op sent) q other
          ∙ synced q
          ∙ ap (λ e. registered e.mask) (sym (write-other s.fevents fd new q other)))
  ]

  addevent-IsSynced :
      (s : Fev os) (fd : ℕ) (m : Mask)
      → IsSynced s
      → is_nil (read_write m) ≡ false
      → IsSynced (addevent s fd (read_write m)).1
  unfolding addevent
  addevent-IsSynced s fd m synced some_mask =
      let old = (s.fevents fd).mask in
      let op = if is_nil old then ctl_add else ctl_mod in
      let new = merge (read_write m) old in
      elim (Bool-cases (os.ctl s.kernel op fd (read_write new)).0) [
        | inl ok ↦
            rw ok (ctl-IsSynced s fd op new (read_write new) synced ok (wanted_add m old some_mask))
        | inr bad ↦ rw bad (λ q. os.ctl_fails s.kernel op fd (read_write new) q bad ∙ synced q)
      ]

  delevent-IsSynced :
      (s : Fev os) (fd : ℕ) (m : Mask)
      → IsSynced s
      → (delevent s fd m).0 ≡ true
      → IsSynced (delevent s fd m).1
  unfolding delevent
  delevent-IsSynced s fd m synced ok =
      let new = without (s.fevents fd).mask m in
      ctl-IsSynced s fd (if is_nil new then ctl_del else ctl_mod) new (read_write new) synced ok
        (wanted_del new)

  -- what is left alone by a change of callbacks and of the fired descriptors
  same_masks :
      (s t : Fev os)
      → IsSynced s
      → t.kernel ≡ s.kernel
      → ((q : ℕ) → (t.fevents q).mask ≡ (s.fevents q).mask)
      → IsSynced t
  same_masks s t synced kernel masks q =
      ap (λ k. os.interest k q) kernel ∙ synced q ∙ ap registered (sym (masks q))

  pub reg_event-IsSynced :
      (s : Fev os) (fd : ℕ) (m : Mask) (pread pwrite : Option ℕ) (arg : ℕ)
      → IsSynced s
      → IsSynced (reg_event s fd m pread pwrite arg).1
  unfolding reg_event
  reg_event-IsSynced s fd m pread pwrite arg synced =
      let r = addevent s fd (read_write m) in
      second_of_if IsSynced (is_outside s fd) _ _ synced (λ _.
        second_of_if IsSynced (is_nil (read_write m)) _ _ synced (λ some_mask.
          let added = addevent-IsSynced s fd m synced some_mask in
          second_of_if IsSynced (not (is_nil (s.fevents fd).mask)) _ _ synced (λ _.
            second_of_if IsSynced (not r.0) _ _ added (λ _.
              same_masks r.1
                (put_event r.1 fd
                  (record (r.1.fevents fd) { pread = pread; pwrite = pwrite; arg = arg }))
                added refl
                (write_part (λ (e : Event). e.mask) r.1.fevents fd
                  (record (r.1.fevents fd) { pread = pread; pwrite = pwrite; arg = arg }) refl)))))

  pub add_event-IsSynced :
      (s : Fev os) (fd : ℕ) (m : Mask) → IsSynced s → IsSynced (add_event s fd m).1
  unfolding add_event
  add_event-IsSynced s fd m synced =
      let r = addevent s fd (read_write m) in
      second_of_if IsSynced (is_outside s fd) _ _ synced (λ _.
        second_of_if IsSynced (is_nil (read_write m)) _ _ synced (λ some_mask.
          let added = addevent-IsSynced s fd m synced some_mask in
          second_of_if IsSynced (is_nil (s.fevents fd).mask) _ _ synced (λ _.
            second_of_if IsSynced (same_mask (s.fevents fd).mask (read_write m)) _ _ synced
              (λ _. second_of_if IsSynced (not r.0) _ _ added (λ _. added)))))

  add_firelist-IsSynced :
      (s : Fev os) (fd : ℕ)
      → IsSynced s
      → s.fire_num < s.max_ev_size
      → Ensures IsSynced (add_firelist s fd)
  unfolding add_firelist
  add_firelist-IsSynced s fd synced room =
      let free : ltb s.fire_num s.max_ev_size ≡ true = ground arith in
      let fired : Event = record (s.fevents fd) { fire_idx = s.fire_num } in
      rw free (
        same_masks s
          (record s {
            firelist = write s.firelist s.fire_num fd;
            fevents = write s.fevents fd fired;
            fire_num = suc s.fire_num;
          })
          synced refl (write_part (λ (e : Event). e.mask) s.fevents fd fired refl))

  -- after a deletion: the masks and epoll agree, or epoll_ctl has failed
  abbrev pub Deleted : ℤ × Fev os → Type 0
  Deleted r = IsSynced r.1 ⊎ (r.0 ≡ negsuc 1)

  pub del_event-Deleted :
      (s : Fev os) (fd : ℕ) (m : Mask)
      → IsSynced s
      → s.fire_num < s.max_ev_size
      → Ensures Deleted (del_event s fd m)
  unfolding del_event delevent
  del_event-Deleted s fd m synced room =
      let r = delevent s fd (read_write m) in
      Ensures-if Deleted (is_outside s fd) _ _ (λ _. inl synced)
        (λ _.
          Ensures-if Deleted (is_nil (s.fevents fd).mask) _ _ (λ _. inl synced)
            (λ _.
              Ensures-if Deleted (is_nil (read_write m)) _ _ (λ _. inl synced)
                (λ _.
                  Ensures-if Deleted (not r.0) _ _ (λ _. inr refl)
                    (λ good.
                      let ok : r.0 ≡ true = ground (arith, good) in
                      let deleted = delevent-IsSynced s fd (read_write m) synced ok in
                      Ensures-if Deleted (is_nil (r.1.fevents fd).mask) _ _
                        (λ _.
                          Ensures-bind Deleted (add_firelist r.1 fd) _
                            (add_firelist-IsSynced r.1 fd deleted room) (λ s' done. inl done))
                        (λ _. inl deleted)))))

  -- Where epoll waits for exactly the events of the masks and the list of fired descriptors is
  -- not full, `fev_reg_event` and `fev_add_event` leave it so, whatever they return;
  -- `fev_del_event` is defined, and leaves it so or returns -2.
  pub calls-IsSynced :
      (s : Fev os) (fd : ℕ) (m : Mask) (pread pwrite : Option ℕ) (arg : ℕ)
      → IsSynced s
      → s.fire_num < s.max_ev_size
      → IsSynced (reg_event s fd m pread pwrite arg).1
        × (IsSynced (add_event s fd m).1 × Ensures Deleted (del_event s fd m))
  calls-IsSynced s fd m pread pwrite arg synced room = (
    reg_event-IsSynced s fd m pread pwrite arg synced,
    (add_event-IsSynced s fd m synced, del_event-Deleted s fd m synced room),
  )
