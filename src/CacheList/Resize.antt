-- ===== src/CacheList/Resize.antt =====
-- fcache/fcache_list.c: `fcache_list_update_node`, which counts a new size but does not store it.
use final_libs.Prelude.{
  ℕ, ◌+◌, ◌-◌, ◌<◌, ◌^◌, ◌≡◌, refl, sym, ap, ◌∙◌, true, List, arith, ◌==◌, if◌then◌else◌, test_eq,
  test_ne, subst, add_size, sub_size, Ensures,
}
use native.Mathlib.Decide.{ℕ_discrete}
use final_libs.Dlist.Cells.{DList, put_list, write_self, write-other}
use final_libs.Dlist.Chain.{has}
use final_libs.Dlist.Inv.{IsList, IsList-frame}
use final_libs.Dlist.Kept.{owner_in}
use final_libs.CacheList.{Heap, with_store, node_owner, node_size, update_node}
use final_libs.CacheList.Laws.{IsHeap}

-- what the counters say beyond the nodes, when the list `l` counts `size` for a node of `old` bytes
abbrev pub recounted : (ℕ → ℕ) → ℕ → ℕ → ℕ → ℕ → ℕ
recounted e l old size k = if l == k then e k + size + (2 ^ 64 - old) else e k

module _ {e : ℕ → ℕ} {h : Heap} {f : ℕ → List ℕ} (l a size : ℕ) (is : IsHeap e h f)
    (inside : has a (f l) ≡ true) (word : (h.store.nodes a).data_size < 2 ^ 64) where
  abbrev old : ℕ
  old = (h.store.nodes a).data_size

  abbrev counter : DList
  counter = record (h.store.lists l) {
    total_data_size = add_size (sub_size (h.store.lists l).total_data_size old) size;
  }

  abbrev after : Heap
  after = with_store h (put_list h.store l counter)

  here : IsList (e l + size + (2 ^ 64 - old)) after.store l (f l)
  here =
      let at_l = write_self h.store.lists l counter in
      let before = is.lists l in
      record {
        head = ap (λ d. d.head) at_l ∙ before.head;
        tail = ap (λ d. d.tail) at_l ∙ before.tail;
        linked = before.linked;
        unique = before.unique;
        owned = before.owned;
        size = ap (λ d. d.size) at_l ∙ before.size;
        total = omega (arith, ap (λ d. d.total_data_size) at_l, before.total, word);
      }

  -- `fcache_list_update_node` of a node in a list is defined. The lists keep their nodes and
  -- every node keeps the size it has; the counter of bytes of its list goes up by the new size
  -- and down by the size that the node keeps, so that it is off by the difference from then
  -- on.
  pub update_node_lem :
      Ensures
        (λ h'. IsHeap (recounted e l old size) h' f × (h'.store.nodes ≡ h.store.nodes))
        (update_node h a size)
  unfolding update_node node_owner node_size
  update_node_lem =
      rw (is.alive l a inside, owner_in l a is.lists inside)
        (
          record {
            lists = λ k. elim (ℕ_discrete l k) [
              | yes same ↦
                  rw (test_eq l k same) (
                    subst (λ j. IsList (e j + size + (2 ^ 64 - old)) after.store j (f j)) same here)
              | no differ ↦ rw (test_ne l k differ) (
                  IsList-frame after.store (is.lists k)
                    (write-other h.store.lists l counter k (λ s. differ (sym s))) (λ b _. refl)
                    (λ b o. o))
            ];
            alive = is.alive;
          },
          refl,
        )
