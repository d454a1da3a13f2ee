-- ===== src/Cache/Make.antt =====
-- fcache/fcache.c: a new node, with its key and its object.
use final_libs.Prelude.{
  ℕ, ◌+◌, ◌≤◌, ◌≡◌, ◌≢◌, refl, sym, ap, ◌∙◌, true, false, none, some, List, arith, ◌==◌, length,
  replicate, write_at, Ensures, Ensures-bind,
}
use native.Mathlib.Decide.{ℕ_discrete}
use final_libs.Dlist.Cells.{DNode, put_node, write_self, write-other}
use final_libs.Dlist.Chain.{has}
use final_libs.Dlist.Inv.{IsList-frame}
use final_libs.CacheList.{Key, Heap, blank, c_string, make_node, set_nodekey, set_nodedata, strncpy}
use final_libs.Dlist.Kept.{put_free-IsStore}
use final_libs.CacheList.Keys.{Clean, buffer_size, strncpy_fits}
use final_libs.CacheList.Laws.{IsHeap}

-- a node that is made and has its key and its object, in no list
pub record Made (e : ℕ → ℕ) (h : Heap) (f : ℕ → List ℕ) (a : ℕ) (key : Key) (obj : ℕ) (h' : Heap)
    : Type 0 where
  pub heap : IsHeap e h' f
  pub key_there : c_string (h'.keys a) ≡ some key
  pub object : (h'.store.nodes a).user_data ≡ obj
  pub free : (h'.store.nodes a).owner ≡ none
  pub living : h'.live a ≡ true
  pub nodes : (b : ℕ) → b ≢ a → h'.store.nodes b ≡ h.store.nodes b
  pub keys : (b : ℕ) → b ≢ a → h'.keys b ≡ h.keys b
  pub live : (b : ℕ) → b ≢ a → h'.live b ≡ h.live b

module _ {e : ℕ → ℕ} {h : Heap} {f : ℕ → List ℕ} (a : ℕ) (is : IsHeap e h f)
    (dead : h.live a ≡ false) where
  -- a new block is none of the nodes
  not_new : (l b : ℕ) → has b (f l) ≡ true → b ≢ a
  not_new l b there same = absurd (ground (arith, is.alive l b there, ap h.live same, dead))

  make_node-IsHeap : (key_size : ℕ) → IsHeap e (make_node h a key_size) f
  unfolding make_node
  make_node-IsHeap key_size = record {
    lists = λ k.
        IsList-frame (make_node h a key_size).store (is.lists k) refl
          (λ b there. write-other h.store.nodes a _ b (not_new k b there))
          (λ b o. elim (ℕ_discrete b a) [
            | yes same ↦ absurd (
                ground (
                  arith,
                  o,
                  ap (λ c. ((make_node h a key_size).store.nodes c).owner) same,
                  ap (λ m. m.owner) (write_self h.store.nodes a blank),
                ))
            | no other ↦ ap (λ m. m.owner) (sym (write-other h.store.nodes a _ b other)) ∙ o
          ]);
    alive = λ l b there. write-other h.live a true b (not_new l b there) ∙ is.alive l b there;
  }

  -- The new node with its key: the key fits and is there as a string.
  pub keyed_lem :
      (key : Key) (key_size : ℕ)
      → Clean key
      → length key ≤ key_size
      → (key_size == 0) ≡ false
      → Ensures (λ h1. Made e h f a key 0 h1) (set_nodekey (make_node h a key_size) a key key_size)
  unfolding set_nodekey make_node
  keyed_lem key key_size clean fits given =
      let s = put_node h.store a blank in
      let buffer = write_self h.keys a (replicate (buffer_size key_size) 0) in
      rw (given, write_self h.live a true, buffer)
        (Ensures-bind {P = λ bytes. c_string bytes ≡ some key} (Made e h f a key 0)
          (write_at (replicate (buffer_size key_size) 0) 0 (strncpy key (key_size + 1))) _
          (strncpy_fits key key_size clean fits)
          (λ bytes there. record {
            heap = record {
              lists = (make_node-IsHeap key_size).lists;
              alive = (make_node-IsHeap key_size).alive;
            };
            key_there = ap c_string (write_self _ a bytes) ∙ there;
            object = ap (λ m. m.user_data) (write_self h.store.nodes a blank);
            free = ap (λ m. m.owner) (write_self h.store.nodes a blank);
            living = write_self h.live a true;
            nodes = λ b ne. write-other h.store.nodes a blank b ne;
            keys = λ b ne. write-other _ a bytes b ne ∙ write-other h.keys a _ b ne;
            live = λ b ne. write-other h.live a true b ne;
          }))

-- The object of a node in no list is stored.
pub objects_lem :
    {e : ℕ → ℕ} {h h1 : Heap} {f : ℕ → List ℕ} {key : Key} (a obj : ℕ)
    → Made e h f a key 0 h1
    → (obj == 0) ≡ false
    → Ensures (Made e h f a key obj) (set_nodedata h1 a obj)
unfolding set_nodedata
objects_lem {e} {h} {h1} {f} {key} a obj made given =
    let n : DNode = record (h1.store.nodes a) { user_data = obj } in
    let stored = write_self h1.store.nodes a n in
    rw (given, made.living)
      (record {
        heap = record {
          lists = put_free-IsStore a n made.heap.lists made.free made.free;
          alive = made.heap.alive;
        };
        key_there = made.key_there;
        object = ap (λ m. m.user_data) stored;
        free = ap (λ m. m.owner) stored ∙ made.free;
        living = made.living;
        nodes = λ b ne. write-other h1.store.nodes a n b ne ∙ made.nodes b ne;
        keys = made.keys;
        live = made.live;
      })
