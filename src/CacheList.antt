-- ===== src/CacheList.antt =====
-- fcache/fcache_list.c: the lists of a cache. The lists and their links are the text of
-- flist/fdlist.c again, so the store, `fcache_list_pop` and `fcache_list_delete_node` are those of
-- Dlist. A node also has a buffer for its key, and may be freed: a use of it is then undefined.
pub mod Keys
pub mod Laws
pub mod Resize
use final_libs.Prelude.{
  ℕ, zero, suc, ◌+◌, ◌-◌, Bool, true, false, ◌&&◌, ◌||◌, Option, none, some, List, [], ◌∷◌, ltb,
  ◌==◌, if◌then◌else◌, ◌>>=◌, ◌>>◌, guard, add_size, sub_size, replicate, write_at,
}
use final_libs.Dlist.Cells.{DNode, DList, Store, Ptr, put_node, put_list, is_null, same_ptr, write}
use final_libs.Dlist
use final_libs.Dlist.{create, is_empty, pop, delete_node}

-- the characters of a C string before its end
abbrev pub Key : Type 0
Key = List ℕ

-- `fcache_orig_node_t`: the links and `data` are in the store, `key` is the bytes from
-- `node.key` to the end of the block.
pub record Heap : Type 0 where
  pub store : Store
  pub keys : ℕ → List ℕ
  pub live : ℕ → Bool

abbrev pub with_store : Heap → Store → Heap
with_store h s = record h { store = s }

abbrev pub blank : DNode
blank = record { prev = none; next = none; owner = none; data_size = 0; user_data = 0 }

-- `fcache_list_make_node`, in the block `a`: sizeof(void*) is 8.
unfoldable pub make_node : Heap → ℕ → ℕ → Heap
make_node h a key_size =
    let fkey_sz = if ltb 8 key_size then key_size - 8 else 0 in
    record {
      store = put_node h.store a blank;
      keys = write h.keys a (replicate (8 + fkey_sz + 1) 0);
      live = write h.live a true;
    }

-- `fcache_list_destroy_node`
unfoldable pub destroy_node : Heap → ℕ → Option Heap
destroy_node h a = do guard (h.live a); some (record h { live = write h.live a false })

-- `fcache_list_push`, with its status
unfoldable pub push : Heap → ℕ → ℕ → ℕ → Option (ℕ × Heap)
push h l a data_size = do
  guard (h.live a)
  s ← Dlist.push (put_node h.store a (record (h.store.nodes a) { data_size = data_size })) l a
  some (0, with_store h s)

-- `fcache_list_pop`
unfoldable pub pop_node : Heap → ℕ → Option (Ptr × Heap)
pop_node h l = do (r, s) ← pop h.store l; some (r, with_store h s)

-- `fcache_list_delete_node`
unfoldable pub delete : Heap → ℕ → Option Heap
delete h a = do guard (h.live a); (_, s) ← delete_node h.store a; some (with_store h s)

-- `FN_DATASIZE` of a node at hand
unfoldable pub node_size : Heap → ℕ → Option ℕ
node_size h a = do guard (h.live a); some (h.store.nodes a).data_size

unfoldable pub node_owner : Heap → ℕ → Option Ptr
node_owner h a = do guard (h.live a); some (h.store.nodes a).owner

-- `fcache_list_move_node` to a list
unfoldable pub move_node : Heap → ℕ → ℕ → Option (ℕ × Heap)
move_node h a l = do
  from ← node_owner h a
  if same_ptr from (some l) && ((h.store.lists l).size == 1)
      then some (0, h)
      else (do h' ← delete h a; data_size ← node_size h' a; push h' l a data_size)

-- `fcache_list_update_node`: the size that the node has stays.
unfoldable pub update_node : Heap → ℕ → ℕ → Option Heap
update_node h a size = do
  owner ← node_owner h a
  l ← owner
  old ← node_size h a
  let d = h.store.lists l
  some (
      with_store h (
        put_list h.store l
          (record d { total_data_size = add_size (sub_size d.total_data_size old) size })))

abbrev pub list_size : Heap → ℕ → ℕ
list_size h l = (h.store.lists l).size

abbrev pub list_data_size : Heap → ℕ → ℕ
list_data_size h l = (h.store.lists l).total_data_size

-- the `n` bytes that `strncpy` writes
abbrev pub strncpy : Key → ℕ → List ℕ
strncpy key zero = []
strncpy [] (suc n) = 0 ∷ strncpy [] n
strncpy (c ∷ key) (suc n) = c ∷ strncpy key n

-- the string that begins with the bytes, if it ends within them
unfoldable pub c_string : List ℕ → Option Key
c_string [] = none
c_string (c ∷ cs) =
    let rest = c_string cs in if c == 0 then some [] else (do key ← rest; some (c ∷ key))

-- `fcache_list_set_nodekey`, with a key that is not NULL
unfoldable pub set_nodekey : Heap → ℕ → Key → ℕ → Option Heap
set_nodekey h a key key_size = if key_size == 0 then some h else (do
  guard (h.live a)
  buffer ← write_at (h.keys a) 0 (strncpy key (key_size + 1))
  some (record h { keys = write h.keys a buffer }))

-- `fcache_list_set_nodedata`; 0 is NULL.
unfoldable pub set_nodedata : Heap → ℕ → ℕ → Option Heap
set_nodedata h a obj = if obj == 0 then some h else (do
  guard (h.live a)
  some (with_store h (put_node h.store a (record (h.store.nodes a) { user_data = obj }))))

-- `fcache_list_get_nodekey`, read as a string
unfoldable pub get_nodekey : Heap → ℕ → Option Key
get_nodekey h a = do guard (h.live a); c_string (h.keys a)

unfoldable pub get_nodedata : Heap → ℕ → Option ℕ
get_nodedata h a = do guard (h.live a); some (h.store.nodes a).user_data
