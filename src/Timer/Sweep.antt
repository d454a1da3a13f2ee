-- ===== src/Timer/Sweep.antt =====
-- fev/fev_tmsvc_sl_mod.c: `_process` against what happens to each timer of a list.
use final_libs.Prelude.{
  ℕ, zero, suc, ◌+◌, ◌<◌, ◌≡◌, ◌≢◌, refl, sym, ap, subst, ◌∙◌, Bool, true, false, none, some, List,
  [], ◌∷◌, ◌++◌, append-nil, append_assoc, arith, if◌then◌else◌, length, test_eq, test_ne, Option,
  ◌>>=◌, Agrees, Agrees-bind, Agrees-after, Agrees-map, Ensures-both,
}
use final_libs.Dlist.Chain.{first_or}
use final_libs.Dlist.Inv.{IsStore, put}
use final_libs.Dlist.Move.{rest_of, Popped, pop_lem}
use final_libs.Dlist.Kept.{SameInfo, pop-SameInfo, no_owner, gone}
use final_libs.Dlist.{pop}
use final_libs.Timer.{Timers, Timer, Time, Callback, visit, process}
use final_libs.Timer.Visit.{Effect, ActsAs, Outcome, outcome, Visited, visit_lem}

-- what becomes of the timers of some nodes, one after the other
pub record Swept : Type 0 where
  pub expired : ℕ
  pub kept : List ℕ
  pub dead : List ℕ
  pub timers : ℕ → Timer
  pub freed : ℕ → Bool

abbrev pub add_outcome : Outcome → ℕ → Swept → Swept
add_outcome o a rest = record {
  expired = if o.fired then suc rest.expired else rest.expired;
  kept = if o.stays then a ∷ rest.kept else rest.kept;
  dead = if o.stays then rest.dead else a ∷ rest.dead;
  timers = rest.timers;
  freed = rest.freed;
}

abbrev pub sweep : Effect → Time → (ℕ → ℕ) → List ℕ → (ℕ → Timer) → (ℕ → Bool) → Option Swept
sweep effect now timer_at [] tm freed =
    some (record { expired = 0; kept = []; dead = []; timers = tm; freed = freed })
sweep effect now timer_at (a ∷ xs) tm freed = do
  o ← outcome effect now (timer_at a) tm freed
  rest ← sweep effect now timer_at xs o.timers o.freed
  some (add_outcome o a rest)

put_at : (f : ℕ → List ℕ) (l : ℕ) (xs : List ℕ) → put f l xs l ≡ xs
put_at f l xs = rw (test_eq l l refl) refl

put_other : (f : ℕ → List ℕ) (l k : ℕ) (xs : List ℕ) → k ≢ l → put f l xs k ≡ f k
put_other f l k xs ne = rw (test_ne l k (λ e. ne (sym e))) refl

-- The service after `_process`, where the nodes `xs` were in its list and `ys` in the backup list.
pub record Processed (e : ℕ → ℕ) (s : Timers) (f : ℕ → List ℕ) (before : ℕ) (ys : List ℕ)
    (w : Swept) (r : ℕ × Timers) : Type 0 where
  pub expired : r.0 ≡ before + w.expired
  pub lists : ℕ → List ℕ
  pub store : IsStore e r.1.store lists
  pub now_empty : lists s.timer_list ≡ []
  pub waiting : lists s.backup_list ≡ ys ++ w.kept
  pub others : (k : ℕ) → k ≢ s.timer_list → k ≢ s.backup_list → lists k ≡ f k
  pub timers : r.1.timers ≡ w.timers
  pub freed : r.1.freed ≡ w.freed
  pub destroyed : r.1.destroyed ≡ s.destroyed ++ w.dead
  pub swapped : r.1.timer_list ≡ s.backup_list
  pub swapped_back : r.1.backup_list ≡ s.timer_list

-- the lists after a visit
abbrev grown : Bool → (ℕ → List ℕ) → ℕ → ℕ → ℕ → List ℕ
grown stays f b a = if stays then put f b (f b ++ a ∷ []) else f

grown_other : (stays : Bool) (f : ℕ → List ℕ) (b a k : ℕ) → k ≢ b → grown stays f b a k ≡ f k
grown_other true f b a k ne = put_other f b k _ ne
grown_other false f b a k ne = refl

grown_at :
    (stays : Bool) (f : ℕ → List ℕ) (b a : ℕ) (ys : List ℕ)
    → f b ≡ ys
    → grown stays f b a b ≡ (if stays then ys ++ a ∷ [] else ys)
grown_at true f b a ys at_b = put_at f b _ ∙ ap (λ zs. zs ++ a ∷ []) at_b
grown_at false f b a ys at_b = at_b

-- one visit, and what comes behind it
after_visit :
    {e : ℕ → ℕ} (s s2 : Timers) (f f2 : ℕ → List ℕ) (before a : ℕ) (ys : List ℕ) (o : Outcome)
    (w : Swept) (r : ℕ × Timers)
    → s2.timer_list ≡ s.timer_list
    → s2.backup_list ≡ s.backup_list
    → s2.destroyed ≡ (if o.stays then s.destroyed else s.destroyed ++ a ∷ [])
    → ((k : ℕ) → k ≢ s.timer_list → k ≢ s.backup_list → f2 k ≡ f k)
    → Processed e s2 f2
        (if o.fired then suc before else before)
        (if o.stays then ys ++ a ∷ [] else ys)
        w
        r
    → Processed e s f before ys (add_outcome o a w) r
after_visit {e} s s2 f f2 before a ys o w r same_l same_b destroyed others rest = record {
  expired = rest.expired ∙ count o.fired;
  lists = rest.lists;
  store = rest.store;
  now_empty = ap rest.lists (sym same_l) ∙ rest.now_empty;
  waiting = ap rest.lists (sym same_b) ∙ rest.waiting ∙ line o.stays;
  others = λ k not_l not_b.
      rest.others k (λ e'. not_l (e' ∙ same_l)) (λ e'. not_b (e' ∙ same_b)) ∙ others k not_l not_b;
  timers = rest.timers;
  freed = rest.freed;
  destroyed = rest.destroyed ∙ ap (λ zs. zs ++ w.dead) destroyed ∙ gone_line o.stays;
  swapped = rest.swapped ∙ same_b;
  swapped_back = rest.swapped_back ∙ same_l;
}
  where
    count :
        (b : Bool)
        → (if b then suc before else before) + w.expired
          ≡ before + (if b then suc w.expired else w.expired)
    count true = omega arith
    count false = refl

    line :
        (b : Bool)
        → (if b then ys ++ a ∷ [] else ys) ++ w.kept ≡ ys ++ (if b then a ∷ w.kept else w.kept)
    line true = append_assoc ys (a ∷ []) w.kept
    line false = refl

    gone_line :
        (b : Bool)
        → (if b then s.destroyed else s.destroyed ++ a ∷ []) ++ w.dead
          ≡ s.destroyed ++ (if b then w.dead else a ∷ w.dead)
    gone_line true = refl
    gone_line false = append_assoc s.destroyed (a ∷ []) w.dead

module _ {e : ℕ → ℕ} (call : Callback) (effect : Effect) (now : Time)
    (acts : ActsAs call effect) where
  process_from :
      (fuel : ℕ) (xs ys : List ℕ) (before : ℕ) (s : Timers) (f : ℕ → List ℕ)
      → IsStore e s.store f
      → f s.timer_list ≡ xs
      → f s.backup_list ≡ ys
      → s.timer_list ≢ s.backup_list
      → length xs < fuel
      → Agrees
          (Processed e s f before ys)
          (sweep effect now (λ a. (s.store.nodes a).user_data) xs s.timers s.freed)
          (process fuel call now before s)
  unfolding process
  process_from zero xs ys before s f is at_l at_b apart enough = absurd (omega (arith, enough))
  process_from (suc fuel) [] ys before s f is at_l at_b apart enough =
      let w : Swept = record {
        expired = 0;
        kept = [];
        dead = [];
        timers = s.timers;
        freed = s.freed;
      } in
      Agrees-after {P = Popped e f s.timer_list} (Processed e s f before ys) (some w)
        (pop s.store s.timer_list) _ (pop_lem s.timer_list is)
        (λ (r, store) (node, lists).
          let none_left : r ≡ none = node ∙ ap (λ zs. first_or zs none) at_l in
          rw none_left (record {
            expired = omega arith;
            lists = put f s.timer_list (rest_of (f s.timer_list));
            store = lists;
            now_empty = put_at f s.timer_list _ ∙ ap rest_of at_l;
            waiting =
                put_other f s.timer_list s.backup_list _ (λ e'. apart (sym e'))
                ∙ at_b
                ∙ sym (append-nil ys);
            others = λ k not_l _. put_other f s.timer_list k _ not_l;
            timers = refl;
            freed = refl;
            destroyed = sym (append-nil s.destroyed);
            swapped = refl;
            swapped_back = refl;
          }))
  process_from (suc fuel) (a ∷ xs) ys before s f is at_l at_b apart enough =
      let l = s.timer_list in
      let b = s.backup_list in
      let timer_at = λ (q : ℕ). (s.store.nodes q).user_data in
      let P = Processed e s f before ys in
      Agrees-after {P = λ r. Popped e f l r × SameInfo s.store r.1} P
        (sweep effect now timer_at (a ∷ xs) s.timers s.freed) (pop s.store l) _
        (Ensures-both _ _ (pop s.store l) (pop_lem l is) (pop-SameInfo l (f l) (is l)))
        (λ (r, store) ((node, lists), info).
          let first : r ≡ some a = node ∙ ap (λ zs. first_or zs none) at_l in
          let s1 = record s { store = store } in
          let f1 = put f l (rest_of (f l)) in
          let free : (store.nodes a).owner ≡ none =
            no_owner a lists (gone l a (f l) is refl (sym first ∙ node)) in
          rw first (
            Agrees-bind {R = Visited e s1 f1 a} P (outcome effect now (timer_at a) s.timers s.freed)
              (visit call now a s1) _ _
              (subst
                (λ p.
                  Agrees (Visited e s1 f1 a) (outcome effect now p s.timers s.freed)
                    (visit call now a s1))
                (info a).0 (visit_lem call effect now acts a s1 lists free))
              (λ o (fired, s2) v.
                let f2 = grown o.stays f1 b a in
                let ys2 = if o.stays then ys ++ a ∷ [] else ys in
                let f1_l : f1 l ≡ xs = put_at f l _ ∙ ap rest_of at_l in
                let f1_b : f1 b ≡ ys = put_other f l b _ (λ e'. apart (sym e')) ∙ at_b in
                let before2 = if o.fired then suc before else before in
                let same_sweep : sweep effect now (λ q. (s2.store.nodes q).user_data) xs s2.timers
                      s2.freed
                    ≡ sweep effect now timer_at xs o.timers o.freed =
                  (λ i.
                    sweep effect now (λ q. ((v.info q).0 ∙ (info q).0) i) xs (v.timers i)
                      (v.freed i)) in
                let rest =
                  process_from fuel xs ys2 before2 s2 f2 v.lists
                    (ap f2 v.timer_list ∙ grown_other o.stays f1 b a l apart ∙ f1_l)
                    (ap f2 v.backup_list ∙ grown_at o.stays f1 b a ys f1_b)
                    (λ e'. apart (sym v.timer_list ∙ e' ∙ v.backup_list)) (omega (arith, enough)) in
                Agrees-map {R = Processed e s2 f2 before2 ys2} P
                  (sweep effect now timer_at xs o.timers o.freed)
                  (process fuel call now (if fired then suc before else before) s2)
                  (add_outcome o a)
                  (subst
                    (λ (q, w).
                      Agrees (Processed e s2 f2 before2 ys2) w
                        (process fuel call now (if q then suc before else before) s2))
                    (λ i. ((sym v.fired) i, same_sweep i)) rest)
                  (λ w r2 done.
                    after_visit s s2 f f2 before a ys o w r2 v.timer_list v.backup_list v.destroyed
                      (λ k not_l not_b.
                        grown_other o.stays f1 b a k not_b ∙ put_other f l k _ not_l)
                      done))))

  -- `_process` on a service whose list holds the nodes `xs`, with an empty backup list and
  -- callbacks that change timers only, with one round for each node and one more, is defined
  -- exactly if `sweep` is, which goes through the nodes of a plain list, frees the timers of
  -- the nodes that are destroyed, and is undefined where a visit or a callback uses a freed
  -- timer or a period does not fit a `long`. Then the count of expired timers, the timers,
  -- those that are freed, the nodes that wait and those that are destroyed are those of
  -- `sweep`; the two lists of the service have changed their places and no other list has
  -- changed.
  pub process_lem :
      (xs : List ℕ) (s : Timers) (f : ℕ → List ℕ)
      → IsStore e s.store f
      → f s.timer_list ≡ xs
      → f s.backup_list ≡ []
      → s.timer_list ≢ s.backup_list
      → Agrees
          (Processed e s f 0 [])
          (sweep effect now (λ a. (s.store.nodes a).user_data) xs s.timers s.freed)
          (process (suc (length xs)) call now 0 s)
  process_lem xs s f is at_l at_b apart =
      process_from (suc (length xs)) xs [] 0 s f is at_l at_b apart (omega arith)
