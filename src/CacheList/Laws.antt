-- ===== src/CacheList/Laws.antt =====
-- fcache/fcache_list.c: the operations against the lists of a heap.
use final_libs.Prelude.{
  ℕ, ◌≡◌, ◌≢◌, refl, sym, ap, ◌∙◌, true, none, some, List, [], ◌∷◌, ◌++◌, arith, ◌==◌, inl, inr,
  Bool-cases, test_ne, Ensures, Ensures-bind, Ensures-mono, Ensures-if, Ensures-both,
}
use native.Mathlib.Decide.{ℕ_discrete}
use final_libs.Dlist.Cells.{DNode, Ptr, put_node, write_self, write-other, write_part}
use final_libs.Dlist.Chain.{first_or, has, has-later}
use final_libs.Dlist.Inv.{IsStore, put, has-append}
use final_libs.Dlist.Delete.{remove, Deleted, delete_node_lem}
use final_libs.Dlist.Push.{push_lem}
use final_libs.Dlist.Move.{rest_of, Popped, pop_lem, moved, stays}
use final_libs.Dlist.Kept.{
  put_free-IsStore, gone, has-put, SameInfo, push-SameInfo, pop-SameInfo, delete_node-SameInfo,
  no_owner, owner_in,
}
use final_libs.Dlist
use final_libs.Dlist.{pop, delete_node}
use final_libs.CacheList.{
  Heap, with_store, push, pop_node, delete, node_size, node_owner, move_node,
}

-- The lists of the heap hold the nodes that `f` gives them, and these are not freed.
pub record IsHeap (e : ℕ → ℕ) (h : Heap) (f : ℕ → List ℕ) : Type 0 where
  pub lists : IsStore e h.store f
  pub alive : (l a : ℕ) → has a (f l) ≡ true → h.live a ≡ true

-- Only links, owners and counters differ.
pub record Kept (h h' : Heap) : Type 0 where
  pub info : SameInfo h.store h'.store
  pub keys : h'.keys ≡ h.keys
  pub live : h'.live ≡ h.live

pub Kept-refl : (h : Heap) → Kept h h
Kept-refl h = record { info = λ b. (refl, refl); keys = refl; live = refl }

pub Kept-trans : {h h' h'' : Heap} → Kept h h' → Kept h' h'' → Kept h h''
Kept-trans one two = record {
  info = λ b. ((two.info b).0 ∙ (one.info b).0, (two.info b).1 ∙ (one.info b).1);
  keys = two.keys ∙ one.keys;
  live = two.live ∙ one.live;
}

-- `fcache_list_push`: success, the lists, and the node's new size
pub record Pushed (e : ℕ → ℕ) (h : Heap) (f : ℕ → List ℕ) (l a data_size : ℕ) (r : ℕ × Heap)
    : Type 0 where
  pub status : r.0 ≡ 0
  pub heap : IsHeap e r.1 (put f l (f l ++ a ∷ []))
  pub objects : (b : ℕ) → (r.1.store.nodes b).user_data ≡ (h.store.nodes b).user_data
  pub sizes : (b : ℕ) → b ≢ a → (r.1.store.nodes b).data_size ≡ (h.store.nodes b).data_size
  pub size : (r.1.store.nodes a).data_size ≡ data_size
  pub keys : r.1.keys ≡ h.keys
  pub live : r.1.live ≡ h.live

alive-append :
    {e : ℕ → ℕ} {h : Heap} {f : ℕ → List ℕ} (l a : ℕ)
    → IsHeap e h f
    → h.live a ≡ true
    → (k b : ℕ) → has b (put f l (f l ++ a ∷ []) k) ≡ true
    → h.live b ≡ true
unfolding has
alive-append {e} {h} {f} l a is living k b inside = elim (ℕ_discrete b a) [
  | yes same ↦ ap h.live same ∙ living
  | no other ↦ elim (Bool-cases (l == k)) [
    | inl e' ↦ is.alive l b (
        ground
          (arith, has-put f l (f l ++ a ∷ []) k b, has-append b (f l) (a ∷ []), test_ne b a other))
    | inr e' ↦ is.alive k b (ground (arith, has-put f l (f l ++ a ∷ []) k b))
  ]
]

-- `fcache_list_push` of a live node that is in no list puts it behind the others.
pub push_heap :
    {e : ℕ → ℕ} {h : Heap} {f : ℕ → List ℕ} (l a data_size : ℕ)
    → IsHeap e h f
    → h.live a ≡ true
    → (h.store.nodes a).owner ≡ none
    → Ensures (Pushed e h f l a data_size) (push h l a data_size)
unfolding push
push_heap {e} {h} {f} l a data_size is living free =
    let n : DNode = record (h.store.nodes a) { data_size = data_size } in
    let s = put_node h.store a n in
    let stored : s.nodes a ≡ n = write_self h.store.nodes a n in
    let is' = put_free-IsStore a n is.lists free free in
    let free' : (s.nodes a).owner ≡ none = ap (λ m. m.owner) stored ∙ free in
    rw living (
      Ensures-bind {P = λ s'. IsStore e s' (put f l (f l ++ a ∷ [])) × SameInfo s s'}
        (Pushed e h f l a data_size) (Dlist.push s l a) (λ s'. some (0, with_store h s'))
        (Ensures-both _ _ (Dlist.push s l a) (push_lem l a is' free')
          (push-SameInfo l a (is' l) free'))
        (λ s' (lists, info). record {
          status = refl;
          heap = record { lists = lists; alive = alive-append l a is living };
          objects = λ b. (info b).0 ∙ write_part (λ m. m.user_data) h.store.nodes a n refl b;
          sizes = λ b ne. (info b).1 ∙ ap (λ m. m.data_size) (write-other h.store.nodes a n b ne);
          size = (info a).1 ∙ ap (λ m. m.data_size) stored;
          keys = refl;
          live = refl;
        }))

pub Pushed-Kept :
    {e : ℕ → ℕ} {h : Heap} {f : ℕ → List ℕ} {l a data_size : ℕ} {r : ℕ × Heap}
    → Pushed e h f l a data_size r
    → (h.store.nodes a).data_size ≡ data_size
    → Kept h r.1
Pushed-Kept {e} {h} {f} {l} {a} {data_size} {r} pushed same = record {
  info = λ b. (
    pushed.objects b,
    elim (ℕ_discrete b a) [
      | yes here ↦
          ap (λ c. (r.1.store.nodes c).data_size) here
          ∙ pushed.size
          ∙ sym same
          ∙ ap (λ c. (h.store.nodes c).data_size) (sym here)
      | no other ↦ pushed.sizes b other
    ],
  );
  keys = pushed.keys;
  live = pushed.live;
}

-- lists that have lost nodes
alive-fewer :
    {e : ℕ → ℕ} {h : Heap} {f : ℕ → List ℕ} (l : ℕ) (xs : List ℕ)
    → IsHeap e h f
    → ((b : ℕ) → has b xs ≡ true → has b (f l) ≡ true)
    → (k b : ℕ) → has b (put f l xs k) ≡ true
    → h.live b ≡ true
alive-fewer {e} {h} {f} l xs is fewer k b inside = elim (Bool-cases (l == k)) [
  | inl e' ↦ is.alive l b (fewer b (ground (arith, has-put f l xs k b)))
  | inr e' ↦ is.alive k b (ground (arith, has-put f l xs k b))
]

has-rest_of : (b : ℕ) (xs : List ℕ) → has b (rest_of xs) ≡ true → has b xs ≡ true
has-rest_of b [] e = e
has-rest_of b (x ∷ xs) e = has-later b x xs e

pub has-remove : (b a : ℕ) (xs : List ℕ) → has b (remove a xs) ≡ true → has b xs ≡ true
unfolding has
has-remove b a [] e = e
has-remove b a (x ∷ xs) e = ground (arith, has-remove b a xs)

-- `fcache_list_pop`: the first node, then in no list
pub record PoppedNode (e : ℕ → ℕ) (h : Heap) (f : ℕ → List ℕ) (l : ℕ) (r : Ptr × Heap)
    : Type 0 where
  pub node : r.0 ≡ first_or (f l) none
  pub heap : IsHeap e r.1 (put f l (rest_of (f l)))
  pub kept : Kept h r.1
  pub free : (a : ℕ) → r.0 ≡ some a → (r.1.store.nodes a).owner ≡ none

-- `fcache_list_pop` of the list of a heap
pub pop_heap :
    {e : ℕ → ℕ} {h : Heap} {f : ℕ → List ℕ} (l : ℕ)
    → IsHeap e h f
    → Ensures (PoppedNode e h f l) (pop_node h l)
unfolding pop_node
pop_heap {e} {h} {f} l is =
    Ensures-bind {P = λ r. Popped e f l r × SameInfo h.store r.1} (PoppedNode e h f l)
      (pop h.store l) (λ (r, s). some (r, with_store h s))
      (Ensures-both _ _ (pop h.store l) (pop_lem l is.lists) (pop-SameInfo l (f l) (is.lists l)))
      (λ (r, s) ((node, lists), info). record {
        node = node;
        heap = record {
          lists = lists;
          alive = alive-fewer l (rest_of (f l)) is (λ b. has-rest_of b (f l));
        };
        kept = record { info = info; keys = refl; live = refl };
        free = λ a r_a. no_owner a lists (gone l a (f l) is.lists refl (sym r_a ∙ node));
      })

-- `fcache_list_delete_node`: the node is gone from its list, and in no other
pub record DeletedNode (e : ℕ → ℕ) (h : Heap) (f : ℕ → List ℕ) (l a : ℕ) (h' : Heap) : Type 0 where
  pub heap : IsHeap e h' (put f l (remove a (f l)))
  pub kept : Kept h h'
  pub free : (h'.store.nodes a).owner ≡ none

pub delete_heap :
    {e : ℕ → ℕ} {h : Heap} {f : ℕ → List ℕ} (l a : ℕ)
    → IsHeap e h f
    → has a (f l) ≡ true
    → Ensures (DeletedNode e h f l a) (delete h a)
unfolding delete
delete_heap {e} {h} {f} l a is inside =
    let o = owner_in l a is.lists inside in
    rw (is.alive l a inside) (
      Ensures-bind {P = λ r. Deleted e f l a r × SameInfo h.store r.1} (DeletedNode e h f l a)
        (delete_node h.store a) (λ (_, s). some (with_store h s))
        (Ensures-both _ _ (delete_node h.store a) (delete_node_lem l a is.lists o)
          (delete_node-SameInfo l a is.lists o))
        (λ (r, s) ((_, lists, free), info). record {
          heap = record {
            lists = lists;
            alive = alive-fewer l (remove a (f l)) is (λ b. has-remove b a (f l));
          };
          kept = record { info = info; keys = refl; live = refl };
          free = free;
        }))

-- a node that no list holds may be deleted again, which does nothing
pub delete_free :
    (h : Heap) (a : ℕ) → h.live a ≡ true → (h.store.nodes a).owner ≡ none → delete h a ≡ some h
unfolding delete delete_node
delete_free h a living free = rw living (rw (free, delete_node) refl)

-- `fcache_list_move_node`
pub record MovedNode (e : ℕ → ℕ) (h : Heap) (f : ℕ → List ℕ) (a from l : ℕ) (r : ℕ × Heap)
    : Type 0 where
  pub status : r.0 ≡ 0
  pub heap : IsHeap e r.1 (moved (stays h.store from l) f a from l)
  pub kept : Kept h r.1

pub move_heap :
    {e : ℕ → ℕ} {h : Heap} {f : ℕ → List ℕ} (a from l : ℕ)
    → IsHeap e h f
    → has a (f from) ≡ true
    → Ensures (MovedNode e h f a from l) (move_node h a l)
unfolding move_node node_owner node_size
move_heap {e} {h} {f} a from l is inside =
    let P = MovedNode e h f a from l in
    rw (is.alive from a inside, owner_in from a is.lists inside)
      (Ensures-if P (stays h.store from l) _ _
        (λ same. record { status = refl; heap = rw same is; kept = Kept-refl h })
        (λ other.
          Ensures-bind {P = DeletedNode e h f from a} P (delete h a) _
            (delete_heap from a is inside)
            (λ h' gone_away.
              let living : h'.live a ≡ true =
                ap (λ v. v a) gone_away.kept.live ∙ is.alive from a inside in
              rw living (
                Ensures-mono P (push h' l a (h'.store.nodes a).data_size)
                  (push_heap l a (h'.store.nodes a).data_size gone_away.heap living gone_away.free)
                  (λ r pushed. record {
                    status = pushed.status;
                    heap = rw other pushed.heap;
                    kept = Kept-trans gone_away.kept (Pushed-Kept pushed refl);
                  })))))
