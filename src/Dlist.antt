-- ===== src/Dlist.antt =====
-- flist/fdlist.c: doubly linked lists whose nodes know their list, in a store of nodes and lists.
-- A pointer is the number of a node or a list, or `none` for NULL. `none` as a result is a NULL that
-- is followed.
pub mod Cells
pub mod Chain
pub mod Inv
pub mod Push
pub mod Detach
pub mod Delete
pub mod Move
pub mod Kept
mod Tests
use final_libs.Prelude.{
  ℕ, ◌+◌, ◌%◌, ◌^◌, ◌<◌, Bool, true, false, not, ◌&&◌, ◌||◌, Option, none, some, ◌==◌,
  if◌then◌else◌, ◌>>=◌, add_size, sub_size,
}
use final_libs.Dlist.Cells.{DNode, DList, Store, Ptr, put_node, put_list, is_null, same_ptr}

-- `fdlist_create` at a list that is not in use
unfoldable pub create : Store → ℕ → Store
create s l = put_list s l (record { head = none; tail = none; size = 0; total_data_size = 0 })

-- `fdlist_empty`
unfoldable pub is_empty : DList → Bool
is_empty d = is_null d.tail && (same_ptr d.head d.tail && (d.size == 0))

-- FO_NEXT(p) = next, and FO_PREV(p) = prev
unfoldable pub set_next : Store → Ptr → Ptr → Option Store
set_next s p next = do a ← p; some (put_node s a (record (s.nodes a) { next = next }))

unfoldable pub set_prev : Store → Ptr → Ptr → Option Store
set_prev s p prev = do a ← p; some (put_node s a (record (s.nodes a) { prev = prev }))

-- the counters of a list when a node of `data_size` comes in, and when it goes
unfoldable pub count_in : Store → ℕ → ℕ → Store
count_in s l data_size =
    let d = s.lists l in
    put_list s l (record d {
      size = add_size d.size 1;
      total_data_size = add_size d.total_data_size data_size;
    })

unfoldable pub count_out : Store → ℕ → ℕ → Store
count_out s l data_size =
    let d = s.lists l in
    put_list s l (record d {
      size = sub_size d.size 1;
      total_data_size = sub_size d.total_data_size (data_size % 2 ^ 64);
    })

-- the branch of `fdlist_push`
unfoldable pub link_last : Store → ℕ → ℕ → Option Store
link_last s l a =
    let d = s.lists l in
    if is_empty d
    then some (put_list s l (record d { head = some a; tail = some a }))
    else (do s' ← set_next s d.tail (some a); some (put_list s' l (record d { tail = some a })))

-- `fdlist_push`, of a list and a node
unfoldable pub push : Store → ℕ → ℕ → Option Store
push s l a = do
  let s1 =
      put_node s a (record (s.nodes a) { next = none; prev = (s.lists l).tail; owner = some l })
  s2 ← link_last s1 l a
  some (count_in s2 l (s2.nodes a).data_size)

-- a node that belongs to no list
unfoldable pub unowned : Store → ℕ → Store
unowned s a = put_node s a (record (s.nodes a) { prev = none; next = none; owner = none })

-- `fdlist_pop`: the node that is returned, or NULL
unfoldable pub pop : Store → ℕ → Option (Ptr × Store)
pop s l =
    let d = s.lists l in
    if is_empty d then some (none, s) else (do
      a ← d.head
      let next = (s.nodes a).next
      let s1 =
          put_list s l (
            if is_null next
            then record d { head = none; tail = none }
            else record d { head = next })
      let s2 = unowned s1 a
      some (some a, count_out s2 l (s2.nodes a).data_size))

-- the branches of `fdlist_delete_node`: `l` is the owner of `a`
unfoldable pub unlink : Store → ℕ → ℕ → Option Store
unlink s l a =
    let d = s.lists l in
    let n = s.nodes a in
    if same_ptr (some a) d.head && same_ptr (some a) d.tail
    then some (put_list s l (record d { head = none; tail = none }))
    else if same_ptr (some a) d.head
    then (do h ← d.head; some (put_list s l (record d { head = (s.nodes h).next })))
    else if same_ptr (some a) d.tail
    then (do s' ← set_next (put_list s l (record d { tail = n.prev })) n.prev none; some s')
    else (do s' ← set_next s n.prev n.next; set_prev s' (s'.nodes a).next (s'.nodes a).prev)

-- `fdlist_delete_node`: the node that is returned, or NULL
unfoldable pub delete_node : Store → ℕ → Option (Ptr × Store)
delete_node s a = elim (s.nodes a).owner [
  | none ↦ some (none, s)
  | some l ↦ unlink s l a >>= λ s1.
      let s2 = unowned s1 a in some (some a, count_out s2 l (s2.nodes a).data_size)
]

-- `fdlist_move_node`; `from->size` follows the owner.
unfoldable pub move_node : Store → ℕ → Ptr → Option (ℕ × Store)
move_node s a to =
    let from = (s.nodes a).owner in
    elim to [
      | none ↦ if is_null from then none else delete_node s a >>= λ (_, s'). some (0, s')
      | some l ↦
          if same_ptr from (some l) && ((s.lists l).size == 1)
          then some (0, s)
          else (delete_node s a >>= λ (_, s'). push s' l a >>= λ s''. some (0, s''))
    ]

-- the counter of bytes of the node's owner, when a new size is stored at the node already
unfoldable pub resize_owner : Store → ℕ → Ptr → ℕ → Store
resize_owner s a none size = s
resize_owner s a (some l) size =
    let d = s.lists l in
    put_list s l (record d {
      total_data_size = add_size (sub_size d.total_data_size ((s.nodes a).data_size % 2 ^ 64)) size;
    })

-- `fdlist_update_node_size`
unfoldable pub update_node_size : Store → ℕ → ℕ → Store
update_node_size s a size =
    let s1 = put_node s a (record (s.nodes a) { data_size = size }) in
    resize_owner s1 a (s1.nodes a).owner size

-- `fdlist_set_nodedata`, with `data` not NULL
unfoldable pub set_nodedata : Store → ℕ → ℕ → ℕ → Store
set_nodedata s a user_data data_size =
    update_node_size (put_node s a (record (s.nodes a) { user_data = user_data })) a data_size
