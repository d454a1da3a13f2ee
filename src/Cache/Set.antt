-- ===== src/Cache/Set.antt =====
-- fcache/fcache.c: `fcache_set_obj` of a key that is not in the cache.
use final_libs.Prelude.{
  ℕ, ◌+◌, ◌<◌, ◌≤◌, ◌^◌, ◌≡◌, ◌≢◌, refl, sym, ap, ◌∙◌, Bool, true, false, none, some, List, [], ◌∷◌,
  ◌++◌, arith, ltb, leb, ◌==◌, if◌then◌else◌, ◌>>=◌, inl, inr, Bool-cases, length, drop,
  length-append, length-drop, test_eq, test_ne, Ensures, Ensures-bind, Ensures-mono,
}
use final_libs.Dlist.Cells.{DNode, Ptr}
use final_libs.Dlist.Chain.{has, sum_sizes}
use final_libs.Dlist.Inv.{sum_sizes-congr, sum_sizes-append}
use final_libs.CacheList.{Key}
use final_libs.CacheList.Keys.{Clean}
use final_libs.Cache.Lookup.{Index, most_nodes, is_unfit_key, bind}
use final_libs.Cache.Inv.{inside, IsCache, Rearranged}
use final_libs.Cache.Used.{counted, inside_alive}
use final_libs.Cache.Get.{IsCache-same}
use final_libs.Cache.Removal.{forget, forget_at}
use final_libs.Cache.Drop.{enough_lem, freed_all, Dropped}
use final_libs.Cache.Add.{Added, add_node_lem, some_key_size}
use final_libs.Cache.Room.{
  exact, bytes, counted-bytes, shortage, victims, Cleared, at_hand, suffices, balances, Outcome,
  clear_lem,
}
use final_libs.Cache.Books.{
  Sized, sum_sizes-enough, has-enough, has-drop, length-sum_sizes, counted-inside, counted-length,
  check_balance_lem,
}
use final_libs.Cache.{Cache, check_balance, check_and_drop_nodes, store_obj, set_obj, add_node}

-- a new object with its key, as the caller hands it over
pub record Offer {ix : Index} (c : Cache ix) (g : Key → Ptr) (fresh : ℕ) (key : Key)
    (key_size value size : ℕ) : Type 0 where
  pub unused : c.heap.live fresh ≡ false
  pub new : g key ≡ none
  pub fit : is_unfit_key key ≡ false
  pub pointer : fresh < 2 ^ 64
  pub counted : ix.used c.index + 1 < most_nodes
  pub clean : Clean key
  pub fits : length key ≤ key_size
  pub object : value ≢ 0
  pub some_bytes : 0 < size
  pub small : size ≤ c.max_size

module _ {ix : Index} where
  -- What is left when `gone` is dropped from the lists, and the new node behind the inactive ones.
  pub record Stored (c : Cache ix) (g : Key → Ptr) (lists : List ℕ × List ℕ) (gone : List ℕ)
      (fresh : ℕ) (key : Key) (value size : ℕ) (r : ℕ × Cache ix) : Type 0 where
    pub status : r.0 ≡ 0
    pub cache :
        IsCache exact r.1
          (bind (forget g gone) key (some fresh))
          lists.0
          (drop (length gone) lists.1 ++ fresh ∷ [])
    pub full :
        bytes r.1.heap.store.nodes lists.0 (drop (length gone) lists.1 ++ fresh ∷ []) ≤ r.1.max_size
    pub object : (r.1.heap.store.nodes fresh).user_data ≡ value
    pub bytes_of : (r.1.heap.store.nodes fresh).data_size ≡ size
    pub others :
        (b : ℕ) → b ≢ fresh → (r.1.heap.store.nodes b).user_data ≡ (c.heap.store.nodes b).user_data
    pub freed : r.1.freed ≡ freed_all c.frees (λ b. (c.heap.store.nodes b).user_data) c.freed gone

  -- Status 0: the object is in the cache. Status 1: it is not, and nothing was dropped.
  abbrev pub Answer :
      Bool → Cache ix → (Key → Ptr) → List ℕ × List ℕ → ℕ → ℕ → Key → ℕ → ℕ → ℕ × Cache ix → Type 0
  Answer true c g lists need fresh key value size r =
      Stored c g lists (victims c lists.1 need) fresh key value size r
  Answer false c g lists need fresh key value size (status, c') =
      (status ≡ 1) × Rearranged exact c g lists.0 lists.1 c'

  module _ {g : Key → Ptr} {xs ys : List ℕ} (c : Cache ix) (fresh : ℕ) (key : Key)
      (key_size value size : ℕ) (is : IsCache exact c g xs ys)
      (full : bytes c.heap.store.nodes xs ys ≤ c.max_size) (word : c.max_size < 2 ^ 64)
      (sized : Sized c.heap.store.nodes xs) (sized' : Sized c.heap.store.nodes ys)
      (room : length xs + length ys + 1 < 2 ^ 64)
      (offer : Offer c g fresh key key_size value size) where
    module _ (b : Bool) where
      abbrev lists : List ℕ × List ℕ
      lists = counted b xs ys

      abbrev need : ℕ
      need = shortage c xs ys size

      abbrev gone : List ℕ
      gone = victims c lists.1 need

      abbrev left : List ℕ
      left = drop (length gone) lists.1

      abbrev h : ℕ → DNode
      h = c.heap.store.nodes

      member : (q : ℕ) → inside q lists.0 lists.1 ≡ true → 0 < (h q).data_size
      member q there = elim (Bool-cases (has q xs)) [
        | inl e ↦ sized q e
        | inr e ↦ sized' q (ground (arith, e, there, counted-inside q b xs ys))
      ]

      lengths : length lists.0 + length left + 1 ≤ bytes h lists.0 left + size
      lengths = omega (
        arith,
        length-sum_sizes h lists.0 (λ q there. member q (ground (arith, there))),
        length-sum_sizes h left
            (λ q there. member q (ground (arith, has-drop q (length gone) lists.1 there))),
        offer.some_bytes,
      )

      module _ (c1 : Cache ix) (enough : need ≤ sum_sizes h lists.1)
          (dropped : Dropped exact c g lists.0 lists.1 gone c1) where
        dead : c1.heap.live fresh ≡ false
        dead =
            dropped.others fresh (elim (Bool-cases (has fresh gone)) [
              | inl there ↦
                  let below = has-enough (λ q. (h q).data_size) 0 need fresh lists.1 there in
                  let inside_old : inside fresh xs ys ≡ true =
                    ground (arith, below, counted-inside fresh b xs ys) in
                  absurd (ground (arith, inside_alive fresh is.heap inside_old, offer.unused))
              | inr out ↦ out
            ])
            ∙ offer.unused

        other : (q : ℕ) → inside q lists.0 left ≡ true → q ≢ fresh
        other q there same =
            absurd
              (ground (arith, inside_alive q dropped.cache.heap there, ap c1.heap.live same, dead))

        spare : bytes h lists.0 left + size ≤ c.max_size
        spare = omega (
          arith,
          counted-bytes h b xs ys,
          sum_sizes-enough h 0 need lists.1,
          enough_lem h 0 need lists.1 (omega (arith, enough)),
          full,
          offer.small,
        )

        few : length lists.0 + length left + 1 < 2 ^ 64
        few = omega (arith, counted-length b xs ys, length-drop (length gone) lists.1, room)

        bytes_after :
            (r : ℕ × Cache ix)
            → Added exact c1 (forget g gone) lists.0 left fresh key value size r
            → bytes r.1.heap.store.nodes lists.0 (left ++ fresh ∷ []) ≡ bytes h lists.0 left + size
        unfolding sum_sizes
        bytes_after r added =
            let h2 = r.1.heap.store.nodes in
            let kept : (q : ℕ) → inside q lists.0 left ≡ true → (h2 q).data_size ≡ (h q).data_size =
              λ q there. added.sizes q (other q there) ∙ (dropped.info q).1 in
            omega (
              arith,
              sum_sizes-append h2 left (fresh ∷ []),
              added.size,
              sum_sizes-congr h h2 lists.0 (λ q there. kept q (ground (arith, there))),
              sum_sizes-congr h h2 left (λ q there. kept q (ground (arith, there))),
            )

        finish :
            (r r' : ℕ × Cache ix)
            → Added exact c1 (forget g gone) lists.0 left fresh key value size r
            → (r'.0 ≡ 0) × (r'.1 ≡ record r.1 { enable_balance = r'.1.enable_balance })
            → Stored c g lists gone fresh key value size r'
        finish r r' added done =
            let heap' : r'.1.heap ≡ r.1.heap = ap (λ d. d.heap) done.1 in
            let index' : r'.1.index ≡ r.1.index = ap (λ d. d.index) done.1 in
            let max' : r'.1.max_size ≡ c.max_size =
              ap (λ d. d.max_size) done.1 ∙ ap (λ d. d.max_size) added.same ∙ dropped.max_size in
            let all = left ++ fresh ∷ [] in
            record {
              status = done.0;
              cache = IsCache-same r'.1 added.cache (sym heap') (sym index');
              full = omega (
                arith,
                ap (λ n. bytes n.store.nodes lists.0 all) heap',
                bytes_after r added,
                max',
                spare,
              );
              object = ap (λ n. (n.store.nodes fresh).user_data) heap' ∙ added.object;
              bytes_of = ap (λ n. (n.store.nodes fresh).data_size) heap' ∙ added.size;
              others = λ q ne.
                  ap (λ n. (n.store.nodes q).user_data) heap'
                  ∙ added.objects q ne
                  ∙ (dropped.info q).0;
              freed = ap (λ d. d.freed) done.1 ∙ ap (λ d. d.freed) added.same ∙ dropped.freed;
            }

        -- The lists that were made ready have a place for the node.
        place :
            Ensures
              (Stored c g lists gone fresh key value size)
              (add_node c1 fresh key key_size value size >>= λ (ret, c2). check_balance ret c2)
        place =
            let P = Stored c g lists gone fresh key value size in
            Ensures-bind {P = Added exact c1 (forget g gone) lists.0 left fresh key value size} P
              (add_node c1 fresh key key_size value size) (λ (ret, c2). check_balance ret c2)
              (add_node_lem c1 fresh key key_size value size dropped.cache dead
                (ap (forget_at gone) offer.new) offer.fit offer.clean offer.fits
                (test_ne value 0 offer.object) few offer.pointer
                (omega (arith, dropped.used, offer.counted)))
              (λ r added.
                let after = bytes_after r added in
                rw added.status (
                  Ensures-mono P (check_balance 0 r.1)
                    (check_balance_lem r.1 added.cache (omega (arith, after, spare, word))
                      (omega (arith, after, lengths, length-append left (fresh ∷ [])))
                      (omega (arith, length-append left (fresh ∷ []))))
                    (λ r' done. finish r r' added done)))

      -- the rest of the call, when the nodes are dropped or not
      rest :
          (fine : Bool) (r : ℕ × Cache ix)
          → leb need (sum_sizes h lists.1) ≡ fine
          → Cleared fine c g lists need r
          → Ensures (Answer fine c g lists need fresh key value size) (
              if r.0 == 0
              then (add_node r.1 fresh key key_size value size >>= λ (ret, c2).
                  check_balance ret c2)
              else some (1, r.1))
      rest true r enough (zero_status, dropped) =
          rw (test_eq r.0 0 zero_status) (place r.1 (ground (arith, enough)) dropped)
      rest false r few (one_status, re) =
          rw (test_ne r.0 0 (λ z. absurd (omega (arith, z, one_status)))) (refl, re)

    -- `fcache_set_obj` of an object that is not NULL, under a key that is not in the cache,
    -- with a block that is not in use, at an address below 2 ^ 64. The key is not empty,
    -- shorter than 2 ^ 31, without a zero byte, and fits its buffer; the table of the cache
    -- keeps the laws of Cache.Lookup.Index, as that of fhash_str.c does, and has room to
    -- count one node more. The cache is well formed and counts its bytes right, they are at
    -- most `max_size`, a number below 2 ^ 64, the object's bytes are from 1 to `max_size`,
    -- and every node has some bytes. Then the call is defined: it follows no NULL, uses no
    -- freed node and divides by no 0. If the bytes that are short can be had from the
    -- inactive nodes, after a balance if there are not enough of them before it, the call
    -- returns 0, the oldest inactive nodes that make up for them are dropped and their
    -- objects freed, the object is in the cache under its key, at the tail of the inactive
    -- list, and the bytes of the cache are again at most `max_size`. If not, the call
    -- returns 1, and the cache has the nodes it had, balanced.
    pub set_obj_lem :
        Ensures
          (Answer
            (suffices c xs ys (shortage c xs ys size))
            c
            g
            (at_hand c xs ys (shortage c xs ys size))
            (shortage c xs ys size)
            fresh
            key
            value
            size)
          (set_obj c fresh key key_size value size)
    unfolding set_obj store_obj
    set_obj_lem =
        let lacking = shortage c xs ys size in
        let P =
          Answer (suffices c xs ys lacking) c g (at_hand c xs ys lacking) lacking fresh key value
            size in
        let some_key : (key_size == 0) ≡ false = some_key_size key key_size offer.fit offer.fits in
        let object : (value == 0) ≡ false = test_ne value 0 offer.object in
        let some_bytes : (size == 0) ≡ false =
          test_ne size 0 (λ z. absurd (omega (arith, z, offer.some_bytes))) in
        let small : ltb c.max_size size ≡ false = ground (arith, offer.small) in
        let found : ix.get c.index key ≡ some none =
          ix.get_stands c.index g key is.index offer.fit ∙ ap some offer.new in
        rw (some_key, object, some_bytes, small, found)
          (Ensures-bind {P = Outcome c g xs ys lacking} P (check_and_drop_nodes c none size) _
            (clear_lem c size is full word)
            (λ r cleared. rest (balances c ys lacking) (suffices c xs ys lacking) r refl cleared))
