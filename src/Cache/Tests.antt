-- ===== src/Cache/Tests.antt =====
-- Runs of fcache/fcache.c on caches over the table of fhash/fhash_str.c, and on one over a function.
use final_libs.Prelude.{◌≡◌, refl, none, [], ◌∷◌, arith, Ensures}
use final_libs.Dlist.Cells.{write}
use final_libs.Dlist
use final_libs.Dlist.Chain.{has, sum_sizes}
use final_libs.Cache.Lookup.{same_key}
use final_libs.CacheList.{c_string, update_node}
use final_libs.CacheList
use final_libs.CacheList.Laws.{IsHeap}
use final_libs.CacheList.Resize.{recounted, update_node_lem}
use final_libs.CacheList.{strncpy}
use final_libs.Cache.Pair.{two}
use final_libs.Cache.Inv.{Rearranged, balance_nodes_lem, fewer_active, more_inactive}
use final_libs.Cache.Used.{counted, used_at}
use final_libs.Cache.Get.{Got, is_due, get_obj_lem}
use final_libs.Cache.Room.{exact, bytes, shortage, suffices, at_hand}
use final_libs.Cache.Set.{Answer, Offer, set_obj_lem}
use final_libs.Cache.Unset.{Unset, unset_lem, unset_last}
use final_libs.Cache.Books.{Sized}
use final_libs.Cache.Samples.{key_b, key_c, pair, pair_index, pair_heap, pair-IsHeap}
use final_libs.Cache.Table.{
  text_pair, text_pair-IsCache, text_pair-used, text_lone, text_lone-IsCache,
}
use final_libs.Cache.{
  balance_nodes, get_obj, set_obj, drop_nodes, check_and_drop_nodes, grow_size, move_back,
  drop_enough, del_node, free_obj, update_obj, store_obj,
}

get_obj_lem_example :
    let lists = counted (is_due text_pair) (3 ∷ []) (5 ∷ []) in
    Ensures
      (Got exact text_pair pair_index key_b (used_at (pair_index key_b) lists.0 lists.1))
      (get_obj text_pair key_b)
get_obj_lem_example = get_obj_lem text_pair key_b text_pair-IsCache refl

balance_nodes_lem_example :
    Ensures
      (Rearranged exact text_pair pair_index
        (fewer_active (3 ∷ []) (5 ∷ []))
        (more_inactive (3 ∷ []) (5 ∷ [])))
      (balance_nodes text_pair)
balance_nodes_lem_example = balance_nodes_lem text_pair text_pair-IsCache

pair-Sized : Sized pair_heap.store.nodes (3 ∷ [])
unfolding has
pair-Sized b there = ground arith

pair-Sized' : Sized pair_heap.store.nodes (5 ∷ [])
unfolding has
pair-Sized' b there = ground arith

pair-full : bytes pair_heap.store.nodes (3 ∷ []) (5 ∷ []) ≡ 10
unfolding sum_sizes
pair-full = refl

key_c-Offer : Offer text_pair pair_index 8 key_c 1 13 6
unfolding same_key
key_c-Offer = record {
  unused = refl;
  new = refl;
  fit = refl;
  pointer = omega arith;
  counted = omega (arith, text_pair-used);
  clean = (λ e. absurd (omega (arith, e)), tt);
  fits = omega arith;
  object = λ e. absurd (omega (arith, e));
  some_bytes = omega arith;
  small = omega arith;
}

set_obj_lem_example :
    let need = shortage text_pair (3 ∷ []) (5 ∷ []) 6 in
    Ensures
      (Answer
        (suffices text_pair (3 ∷ []) (5 ∷ []) need)
        text_pair
        pair_index
        (at_hand text_pair (3 ∷ []) (5 ∷ []) need)
        need
        8
        key_c
        13
        6)
      (set_obj text_pair 8 key_c 1 13 6)
set_obj_lem_example =
    set_obj_lem text_pair 8 key_c 1 13 6 text_pair-IsCache (omega (arith, pair-full)) (omega arith)
      pair-Sized pair-Sized' (omega arith) key_c-Offer

unset_lem_example :
    Ensures (Unset text_pair pair_index 5 (3 ∷ []) (5 ∷ [])) (set_obj text_pair 8 key_b 1 0 0)
unfolding same_key
unset_lem_example =
    unset_lem text_pair 5 8 key_b 1 text_pair-IsCache refl refl (omega arith) (omega arith)
      (omega (arith, pair-full)) pair-Sized pair-Sized'

unset_last_example : set_obj text_lone 8 key_b 1 0 0 ≡ none
unfolding same_key
unset_last_example =
    unset_last text_lone 5 8 key_b 1 text_lone-IsCache refl refl (omega arith) refl refl

update_node_lem_example :
    Ensures
      (λ h'.
        IsHeap (recounted exact 1 6 8) h' (two (3 ∷ []) (5 ∷ []))
        × (h'.store.nodes ≡ pair_heap.store.nodes))
      (update_node pair_heap 5 8)
unfolding has
update_node_lem_example = update_node_lem 1 5 8 pair-IsHeap refl (omega arith)

-- An update that has to drop nodes drops the node itself when no other inactive node is there, and
-- then uses it.
update_after_free : set_obj pair 8 key_b 1 13 8 ≡ none
unfolding set_obj check_and_drop_nodes grow_size drop_enough move_back drop_nodes del_node free_obj
    store_obj update_obj same_key c_string CacheList.delete CacheList.move_node CacheList.pop_node
    CacheList.push CacheList.node_size CacheList.node_owner CacheList.get_nodekey
    CacheList.get_nodedata CacheList.destroy_node Dlist.pop Dlist.delete_node Dlist.is_empty
    Dlist.unowned Dlist.count_out write
update_after_free = refl
