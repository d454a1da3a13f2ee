-- ===== src/Cache/Used.antt =====
-- fcache/fcache.c: the two lists after a use of a node, as `fcache_get_obj` leaves them.
use final_libs.Prelude.{
  ℕ, ◌+◌, ◌≡◌, refl, ap, Bool, true, false, ◌||◌, none, some, List, [], ◌∷◌, ◌++◌, arith, inl, inr,
  Bool-cases, length, length-append,
}
use final_libs.Dlist.Cells.{Ptr}
use final_libs.Dlist.Chain.{has}
use final_libs.Dlist.Delete.{remove}
use final_libs.CacheList.{Heap}
use final_libs.CacheList.Laws.{IsHeap, Kept}
use final_libs.Cache.Pair.{two}
use final_libs.Cache.Touch.{to_back, has-to_back, has-over, length-remove}
use final_libs.Cache.Inv.{inside, fewer_active, more_inactive}
use final_libs.Cache.{active, inactive}

abbrev pub used_by : Bool → ℕ → List ℕ → List ℕ → List ℕ × List ℕ
used_by true a xs ys = (to_back a xs, ys)
used_by false a xs ys = (xs ++ a ∷ [], remove a ys)

-- The node `a` goes behind the active ones, from whichever list it is in.
abbrev pub used : ℕ → List ℕ → List ℕ → List ℕ × List ℕ
used a xs ys = used_by (has a xs) a xs ys

abbrev pub used_at : Ptr → List ℕ → List ℕ → List ℕ × List ℕ
used_at none xs ys = (xs, ys)
used_at (some a) xs ys = used a xs ys

-- the active and the inactive nodes after a balance that is due
abbrev pub counted : Bool → List ℕ → List ℕ → List ℕ × List ℕ
counted true xs ys = (fewer_active xs ys, more_inactive xs ys)
counted false xs ys = (xs, ys)

abbrev pub object_at : Heap → Ptr → ℕ
object_at h none = 0
object_at h (some a) = (h.store.nodes a).user_data

-- A use changes neither which nodes there are nor how many.
pub same_count :
    (b : Bool) (a : ℕ) (xs ys : List ℕ)
    → has a xs ≡ b
    → inside a xs ys ≡ true
    → let lists = used_by b a xs ys in
      ((q : ℕ) → inside q lists.0 lists.1 ≡ inside q xs ys)
      × (length lists.0 + length lists.1 ≡ length xs + length ys)
same_count true a xs ys e' here = (
  λ q. ap (λ t. t || has q ys) (has-to_back q a xs e'),
  omega (arith, length-remove a xs e', length-append (remove a xs) (a ∷ [])),
)
same_count false a xs ys e' here =
    let below : has a ys ≡ true = ground (arith, here, e') in
    (
      λ q. has-over q a xs ys below,
      omega (arith, length-remove a ys below, length-append xs (a ∷ [])),
    )

-- a node of one of the lists is not freed
pub inside_alive :
    {e : ℕ → ℕ} {h : Heap} {xs ys : List ℕ} (a : ℕ)
    → IsHeap e h (two xs ys)
    → inside a xs ys ≡ true
    → h.live a ≡ true
inside_alive {e} {h} {xs} {ys} a is here = elim (Bool-cases (has a xs)) [
  | inl e' ↦ is.alive active a e'
  | inr e' ↦ is.alive inactive a (ground (arith, here, e'))
]

pub object-Kept : {h h' : Heap} (p : Ptr) → Kept h h' → object_at h' p ≡ object_at h p
object-Kept none kept = refl
object-Kept (some a) kept = (kept.info a).0
