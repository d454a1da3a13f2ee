-- ===== src/Cache.antt =====
-- fcache/fcache.c: a cache of objects under string keys, in two lists.
pub mod Lookup
pub mod Strings
pub mod Pair
pub mod Touch
pub mod Inv
pub mod Used
pub mod Get
pub mod Removal
pub mod Drop
pub mod Make
pub mod Add
pub mod Room
pub mod Books
pub mod Set
pub mod Unset
pub mod Samples
pub mod Table
mod Tests
use final_libs.Prelude.{
  ℕ, zero, suc, ◌+◌, ◌-◌, ◌/◌, ◌%◌, ◌^◌, Bool, true, false, not, ◌&&◌, ◌||◌, Option, none, some,
  List, [], ◌∷◌, ◌++◌, ltb, leb, ◌==◌, if◌then◌else◌, ◌>>=◌, ◌>>◌, guard, add_size, sub_size,
}
use final_libs.Dlist.Cells.{Store, Ptr, is_null, same_ptr}
use final_libs.Dlist
use final_libs.CacheList.{
  Key, Heap, with_store, make_node, destroy_node, push, pop_node, delete, node_size, node_owner,
  move_node, update_node, list_size, list_data_size, set_nodekey, set_nodedata, get_nodekey,
  get_nodedata,
}
use final_libs.Cache.Lookup.{Index}

-- FCACHE_BALANCE_INTERVAL
abbrev pub balance_interval : ℕ
balance_interval = 2000

-- the lists `pactive_list` and `pinactive_list` of the heap
abbrev pub active : ℕ
active = 0

abbrev pub inactive : ℕ
inactive = 1

module _ (ix : Index) where
  -- `struct _fcache`. `freed` is what `obj_free` has been called with, the latest last; `obj_free`
  -- is NULL when `frees` is false.
  pub record Cache : Type 0 where
    pub index : ix.Table
    pub heap : Heap
    pub frees : Bool
    pub max_size : ℕ
    pub op_count : ℕ
    pub enable_balance : Bool
    pub freed : List ℕ

-- the loop of `_fcache_balance_nodes`
unfoldable pub move_first : ℕ → Heap → Option Heap
move_first zero h = some h
move_first (suc n) h = do
  (r, h') ← pop_node h active
  elim r [
    | none ↦ some h'
    | some a ↦ (do
      data_size ← node_size h' a
      (_, h'') ← push h' inactive a data_size
      move_first n h'')
  ]

-- `a / b`, undefined for 0
abbrev divided : ℕ → ℕ → Option ℕ
divided a b = if b == 0 then none else some (a / b)

module _ {ix : Index} where
  abbrev pub with_heap : Cache ix → Heap → Cache ix
  with_heap c h = record c { heap = h }

  -- `if (pcache->obj_free) pcache->obj_free(data)`
  unfoldable pub free_obj : Cache ix → ℕ → Cache ix
  free_obj c obj = if c.frees then record c { freed = c.freed ++ obj ∷ [] } else c

  -- `fcache_create` in a heap, with a hash table; NULL is `none` inside
  unfoldable pub create : Heap → ℕ → Bool → Option (Option (Cache ix))
  create h max_size frees = if max_size == 0 then some none else (do
    t ← ix.create
    some (
        some (record {
          index = t;
          heap = with_store h (Dlist.create (Dlist.create h.store active) inactive);
          frees = frees;
          max_size = max_size;
          op_count = 0;
          enable_balance = false;
          freed = [];
        })))

  -- `_fcache_destroy_list`: one round of fuel for each node, and one
  unfoldable pub destroy_list : ℕ → Cache ix → ℕ → Option (Cache ix)
  destroy_list zero c l = none
  destroy_list (suc fuel) c l = do
    (r, h) ← pop_node c.heap l
    elim r [
      | none ↦ some (with_heap c h)
      | some a ↦ (do
        obj ← get_nodedata h a
        h' ← destroy_node h a
        destroy_list fuel (free_obj (with_heap c h') obj) l)
    ]

  -- `fcache_destroy`, after `fhash_str_delete`
  unfoldable pub destroy : Cache ix → Option (Cache ix)
  destroy c = do
    c' ← destroy_list (suc (list_size c.heap active)) c active
    destroy_list (suc (list_size c'.heap inactive)) c' inactive

  -- `_fcache_add_node`, with the block that is allocated
  unfoldable pub add_node : Cache ix → ℕ → Key → ℕ → ℕ → ℕ → Option (ℕ × Cache ix)
  add_node c a key key_size value value_size = do
    h1 ← set_nodekey (make_node c.heap a key_size) a key key_size
    h2 ← set_nodedata h1 a value
    index ← ix.set c.index key a
    (status, h3) ← push h2 inactive a value_size
    if status == 0 then some (0, record c { index = index; heap = h3 }) else (do
      index' ← ix.del index key
      h4 ← destroy_node h3 a
      some (0, record c { index = index'; heap = h4 }))

  -- `_fcache_update_node`
  unfoldable pub update_obj : Cache ix → ℕ → ℕ → ℕ → Option (ℕ × Cache ix)
  update_obj c a value value_size = do
    obj ← get_nodedata c.heap a
    let c' = if obj == value then c else free_obj c obj
    h ← set_nodedata c'.heap a value
    h' ← update_node h a value_size
    some (0, with_heap c' h')

  -- `_fcache_del_node`
  unfoldable pub del_node : Cache ix → ℕ → Option (Cache ix)
  del_node c a = do
    key ← get_nodekey c.heap a
    obj ← get_nodedata c.heap a
    let c' = free_obj c obj
    index ← ix.del c'.index key
    h ← delete c'.heap a
    h' ← destroy_node h a
    some (record c' { index = index; heap = h' })

  -- `_fcache_balance_nodes`
  unfoldable pub balance_nodes : Cache ix → Option (Cache ix)
  balance_nodes c =
      let active_nodes_count = list_size c.heap active in
      let avg_length = add_size (list_size c.heap inactive) active_nodes_count / 2 in
      if leb active_nodes_count avg_length
      then some c
      else (do h ← move_first (active_nodes_count - avg_length) c.heap; some (with_heap c h))

  -- `_fcache_free_size`
  abbrev pub free_size : Cache ix → ℕ
  free_size c =
      sub_size (sub_size c.max_size (list_data_size c.heap active)) (list_data_size c.heap inactive)

  -- how much more the cache has to hold, for a new node or a node at hand
  unfoldable pub grow_size : Cache ix → Ptr → ℕ → Option ℕ
  grow_size c none target_size = some target_size
  grow_size c (some a) target_size = do
    node_data_size ← node_size c.heap a
    some (if leb node_data_size target_size then target_size - node_data_size else 0)

  -- the loop of `_fcache_check_and_drop_nodes`: one round of fuel for each node, and one
  unfoldable pub drop_nodes : ℕ → Cache ix → ℕ → ℕ → Option (Cache ix)
  drop_nodes zero c dropped_size drop_size = none
  drop_nodes (suc fuel) c dropped_size drop_size =
      if ltb dropped_size drop_size
      then (do
        (r, h) ← pop_node c.heap inactive
        elim r [
          | none ↦ some (with_heap c h)
          | some a ↦ (do
            data_size ← node_size h a
            c' ← del_node (with_heap c h) a
            drop_nodes fuel c' (add_size dropped_size data_size) drop_size)
        ])
      else some c

  -- an updated node goes to the tail of the inactive list
  unfoldable pub move_back : Cache ix → Ptr → Option (Cache ix)
  move_back c none = some c
  move_back c (some a) = do (_, h) ← move_node c.heap a inactive; some (with_heap c h)

  -- the end of `_fcache_check_and_drop_nodes`, with enough to drop
  unfoldable pub drop_enough : Cache ix → Ptr → ℕ → Option (ℕ × Cache ix)
  drop_enough c node drop_size = do
    c1 ← move_back c node
    c2 ← drop_nodes (suc (list_size c1.heap inactive)) c1 0 drop_size
    some (0, c2)

  -- `_fcache_check_and_drop_nodes`
  unfoldable pub check_and_drop_nodes : Cache ix → Ptr → ℕ → Option (ℕ × Cache ix)
  check_and_drop_nodes c node target_size = do
    grow ← grow_size c node target_size
    if grow == 0 || leb grow (free_size c)
        then some (0, c)
        else (let drop_size = grow - free_size c in
            if leb drop_size (list_data_size c.heap inactive)
            then drop_enough c node drop_size
            else (do
              c' ← balance_nodes c
              if leb drop_size (list_data_size c'.heap inactive)
                  then drop_enough c' node drop_size
                  else some (1, c')))

  -- the end of `fcache_set_obj`
  unfoldable pub check_balance : ℕ → Cache ix → Option (ℕ × Cache ix)
  check_balance ret c =
      if not c.enable_balance && (ret == 0)
      then (do
        let current_size = add_size (list_data_size c.heap inactive) (list_data_size c.heap active)
        avg_node_size ←
            divided current_size (add_size (list_size c.heap inactive) (list_size c.heap active))
        times ← divided (sub_size c.max_size current_size) avg_node_size
        some (ret, if leb times balance_interval then record c { enable_balance = true } else c))
      else some (ret, c)

  -- the three behaviours of `fcache_set_obj`; `fresh` is the block for a new node.
  unfoldable pub store_obj : Cache ix → ℕ → Ptr → Key → ℕ → ℕ → ℕ → Option (ℕ × Cache ix)
  store_obj c fresh none key key_size value value_size =
      add_node c fresh key key_size value value_size
  store_obj c fresh (some a) key key_size value value_size =
      if value == 0 then (do c' ← del_node c a; some (0, c')) else update_obj c a value value_size

  -- `fcache_set_obj`, with `pcache` and `key` not NULL; a `value` of 0 is NULL.
  unfoldable pub set_obj : Cache ix → ℕ → Key → ℕ → ℕ → ℕ → Option (ℕ × Cache ix)
  set_obj c fresh key key_size value value_size =
      if key_size == 0 || ((not (value == 0) && (value_size == 0)) || ltb c.max_size value_size)
      then some (1, c)
      else (do
        node ← ix.get c.index key
        (full, c1) ← check_and_drop_nodes c node value_size
        if full == 0
            then (do
              (ret, c2) ← store_obj c1 fresh node key key_size value value_size
              check_balance ret c2)
            else some (1, c1))

  -- the counting in `fcache_get_obj`, up to the balance
  unfoldable pub count_op : Cache ix → Option (Cache ix)
  count_op c =
      if c.enable_balance
      then (let op_count = add_size c.op_count 1 in
          if op_count == balance_interval
          then balance_nodes (record c { op_count = 0 })
          else some (record c { op_count = op_count }))
      else some c

  -- `fcache_get_obj`: the object, or NULL; both branches on the owner move the node alike.
  unfoldable pub get_obj : Cache ix → Key → Option (ℕ × Cache ix)
  get_obj c key = do
    c1 ← count_op c
    node ← ix.get c1.index key
    elim node [
      | none ↦ some (0, c1)
      | some a ↦ (do
        _ ← node_owner c1.heap a
        (_, h) ← move_node c1.heap a active
        obj ← get_nodedata h a
        some (obj, with_heap c1 h))
    ]
