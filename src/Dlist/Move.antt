-- ===== src/Dlist/Move.antt =====
-- flist/fdlist.c: `fdlist_pop` and `fdlist_move_node` against the lists of a store, and what
-- `fdlist_set_nodedata` does to the counter of bytes.
use final_libs.Prelude.{
  ℕ, ◌^◌, ◌<◌, ◌≡◌, refl, ap, ◌∙◌, Bool, true, false, ◌&&◌, none, some, List, [], ◌∷◌, ◌++◌, arith,
  ◌==◌, if◌then◌else◌, Ensures, Ensures-bind, ◌>>=◌,
}
use final_libs.Dlist.Cells.{DNode, Store, Ptr, put_node, write, write_self}
use final_libs.Dlist.Chain.{first_or}
use final_libs.Dlist.Inv.{IsList, IsStore, put, is_empty_lem, IsStore-put}
use final_libs.Dlist.Delete.{remove, s3, deleted, untouched, Deleted, delete_node_lem}
use final_libs.Dlist.Push.{push_lem}
use final_libs.Dlist.{pop, delete_node, push, move_node, update_node_size, resize_owner}

abbrev pub rest_of : List ℕ → List ℕ
rest_of [] = []
rest_of (_ ∷ xs) = xs

-- the first node is returned and gone from the list, or NULL if there is none
abbrev pub Popped : (ℕ → ℕ) → (ℕ → List ℕ) → ℕ → Ptr × Store → Type 0
Popped e f l (r, s') = (r ≡ first_or (f l) none) × IsStore e s' (put f l (rest_of (f l)))

pub pop_head :
    {d : ℕ} (s : Store) (l a : ℕ) (zs : List ℕ) (is : IsList d s l (a ∷ zs))
    → pop s l ≡ some (some a, s3 [] a zs is)
unfolding pop
pop_head s l a [] is = rw (is_empty_lem (a ∷ []) is, is.head, is.linked.1) refl
pop_head s l a (z ∷ zs) is = rw (is_empty_lem (a ∷ z ∷ zs) is, is.head, is.linked.1) refl

pub pop_empty : {d : ℕ} (s : Store) (l : ℕ) → IsList d s l [] → pop s l ≡ some (none, s)
unfolding pop
pop_empty s l is = rw (is_empty_lem [] is)

pop_cases :
    {e : ℕ → ℕ} {s : Store} {f : ℕ → List ℕ} (l : ℕ) (xs : List ℕ)
    → IsStore e s f
    → IsList (e l) s l xs
    → Ensures (λ (r, s'). (r ≡ first_or xs none) × IsStore e s' (put f l (rest_of xs))) (pop s l)
pop_cases {e} {s} {f} l [] is is_l =
    rw (pop_empty s l is_l) (refl, IsStore-put e s f l [] is_l (λ k ne. is k))
pop_cases {e} {s} {f} l (a ∷ zs) is is_l = rw (pop_head s l a zs is_l) (
  refl,
  IsStore-put e (s3 [] a zs is_l) f l zs (deleted [] a zs is_l)
      (λ k ne. untouched [] a zs is_l k (f k) ne (is k)),
)

-- In a store whose lists hold the given nodes, `fdlist_pop` is defined. It returns the first
-- node of the list, or NULL if there is none; the list then holds the nodes behind it, with
-- head, tail, links and size right and the bytes of the node counted out, and every other list
-- holds what it held.
pub pop_lem :
    {e : ℕ → ℕ} {s : Store} {f : ℕ → List ℕ} (l : ℕ)
    → IsStore e s f
    → Ensures (Popped e f l) (pop s l)
pop_lem {e} {s} {f} l is = pop_cases l (f l) is (is l)

-- the node goes behind the last node of `l`
abbrev pub carried : (ℕ → List ℕ) → ℕ → ℕ → ℕ → ℕ → List ℕ
carried f a from l = let g = put f from (remove a (f from)) in put g l (g l ++ a ∷ [])

-- A node that is alone in its list stays there.
abbrev pub moved : Bool → (ℕ → List ℕ) → ℕ → ℕ → ℕ → ℕ → List ℕ
moved true f a from l = f
moved false f a from l = carried f a from l

abbrev pub stays : Store → ℕ → ℕ → Bool
stays s from l = from == l && ((s.lists l).size == 1)

-- success, with these lists
abbrev pub Done : (ℕ → ℕ) → (ℕ → List ℕ) → ℕ × Store → Type 0
Done e g (status, s') = (status ≡ 0) × IsStore e s' g

move_away :
    {e : ℕ → ℕ} {s : Store} {f : ℕ → List ℕ} (a from l : ℕ)
    → IsStore e s f
    → (s.nodes a).owner ≡ some from
    → Ensures
        (Done e (carried f a from l))
        (delete_node s a >>= λ (_, s'). push s' l a >>= λ s''. some (0, s''))
move_away {e} {s} {f} a from l is o =
    let g = put f from (remove a (f from)) in
    Ensures-bind {P = Deleted e f from a} (Done e (carried f a from l)) (delete_node s a)
      (λ (_, s'). push s' l a >>= λ s''. some (0, s'')) (delete_node_lem from a is o)
      (λ (_, s') (_, is', free).
        Ensures-bind {P = λ s''. IsStore e s'' (put g l (g l ++ a ∷ []))}
          (Done e (carried f a from l)) (push s' l a) (λ s''. some (0, s'')) (push_lem l a is' free)
          (λ s'' is''. (refl, is'')))

-- In a store whose lists hold the given nodes, `fdlist_move_node` of a node of one list to a
-- list is defined and returns 0. The node goes behind the last node of the new list, or stays
-- where it is if it is counted as the only one of that list; every other list holds what it
-- held.
pub move_node_lem :
    {e : ℕ → ℕ} {s : Store} {f : ℕ → List ℕ} (a from l : ℕ)
    → IsStore e s f
    → (s.nodes a).owner ≡ some from
    → Ensures (Done e (moved (stays s from l) f a from l)) (move_node s a (some l))
unfolding move_node
move_node_lem {e} {s} {f} a from l is o = rw o (cases (stays s from l))
  where
    cases :
        (b : Bool)
        → Ensures (Done e (moved b f a from l)) (
            if b
            then some (0, s)
            else (delete_node s a >>= λ (_, s'). push s' l a >>= λ s''. some (0, s'')))
    cases true = (refl, is)
    cases false = move_away a from l is o

resize_owner-total :
    (s : Store) (a l size : ℕ)
    → (s.nodes a).data_size ≡ size
    → (s.lists l).total_data_size < 2 ^ 64
    → ((resize_owner s a (some l) size).lists l).total_data_size ≡ (s.lists l).total_data_size
unfolding resize_owner
resize_owner-total s a l size e small =
    ap (λ d. d.total_data_size) (write_self s.lists l _) ∙ omega (arith, e, small)

-- `fdlist_update_node_size` of a node that belongs to a list leaves the data size that the list
-- counts as it is, whatever the new size, if the count was a `size_t`.
pub update_node_size-total :
    (s : Store) (a l size : ℕ)
    → (s.nodes a).owner ≡ some l
    → (s.lists l).total_data_size < 2 ^ 64
    → ((update_node_size s a size).lists l).total_data_size ≡ (s.lists l).total_data_size
unfolding update_node_size
update_node_size-total s a l size o small =
    let n : DNode = record (s.nodes a) { data_size = size } in
    let stored = write_self s.nodes a n in
    let owner : (write s.nodes a n a).owner ≡ some l = ap (λ m. m.owner) stored ∙ o in
    rw owner (resize_owner-total (put_node s a n) a l size (ap (λ m. m.data_size) stored) small)
