-- ===== src/Dlist/Kept.antt =====
-- flist/fdlist.c: what the operations leave alone in every node, its data and its size.
use final_libs.Prelude.{
  ℕ, ◌≡◌, refl, sym, ap, subst, ◌∙◌, true, false, none, some, List, [], ◌∷◌, ◌++◌, arith, ◌==◌,
  if◌then◌else◌, inl, inr, Bool-cases, Option-cases, Ensures,
}
use native.Mathlib.Decide.{ℕ_discrete}
use final_libs.Dlist.Cells.{DNode, Store, put_node, write_self, write-other, write_part}
use final_libs.Dlist.Chain.{first_or, has, distinct, has_self, owner_of, last_from}
use final_libs.Dlist.Inv.{IsList, IsStore, put, IsList-frame}
use final_libs.Dlist.Detach.{unlinked, unlink-unlinked, node_after}
use final_libs.Dlist.Delete.{split_at}
use final_libs.Dlist.Push.{link_last-attached, entered, attached}
use final_libs.Dlist.Move.{rest_of, pop_head, pop_empty}
use final_libs.Dlist.{push, pop, delete_node, unowned, count_in, count_out}

abbrev pub SameNode : DNode → DNode → Type 0
SameNode n n' = (n'.user_data ≡ n.user_data) × (n'.data_size ≡ n.data_size)

-- every node has the data and the size that it had
abbrev pub SameInfo : Store → Store → Type 0
SameInfo s s' = (b : ℕ) → SameNode (s.nodes b) (s'.nodes b)

SameInfo-trans : (s s' s'' : Store) → SameInfo s s' → SameInfo s' s'' → SameInfo s s''
SameInfo-trans s s' s'' one two b = ((two b).0 ∙ (one b).0, (two b).1 ∙ (one b).1)

SameInfo-put_node :
    (s : Store) (a : ℕ) (n : DNode) → SameNode (s.nodes a) n → SameInfo s (put_node s a n)
SameInfo-put_node s a n same b = (
  write_part (λ m. m.user_data) s.nodes a n same.0 b,
  write_part (λ m. m.data_size) s.nodes a n same.1 b,
)

attached-SameInfo : (s : Store) (l a : ℕ) (xs : List ℕ) → SameInfo s (attached s l a xs)
attached-SameInfo s l a [] = SameInfo-put_node s a _ (refl, refl)
attached-SameInfo s l a (x ∷ xs) =
    let s1 = entered s l a in
    let s2 = put_node s1 (last_from x xs) (record (s1.nodes (last_from x xs)) { next = some a }) in
    SameInfo-trans s s1 s2 (SameInfo-put_node s a _ (refl, refl))
      (SameInfo-put_node s1 (last_from x xs) _ (refl, refl))

pub push-SameInfo :
    {d : ℕ} {s : Store} {xs : List ℕ} (l a : ℕ)
    → IsList d s l xs
    → (s.nodes a).owner ≡ none
    → Ensures (SameInfo s) (push s l a)
unfolding push count_in
push-SameInfo {d} {s} {xs} l a is free =
    rw (link_last-attached a free xs is) (attached-SameInfo s l a xs)

-- the node taken out of a list between `ys` and `zs`
taken-SameInfo :
    (s : Store) (l : ℕ) (ys zs : List ℕ) (a : ℕ) → SameInfo s (unowned (unlinked s l ys zs) a)
unfolding unowned
taken-SameInfo s l ys zs a =
    let s1 = unlinked s l ys zs in
    let cut : SameInfo s s1 = λ b.
      let after = node_after s l ys zs b in
      (ap (λ m. m.user_data) after, ap (λ m. m.data_size) after) in
    SameInfo-trans s s1 (unowned s1 a) cut (SameInfo-put_node s1 a _ (refl, refl))

pub delete_node-SameInfo :
    {e : ℕ → ℕ} {s : Store} {f : ℕ → List ℕ} (l a : ℕ)
    → IsStore e s f
    → (s.nodes a).owner ≡ some l
    → Ensures (λ (_, s'). SameInfo s s') (delete_node s a)
unfolding delete_node count_out
delete_node-SameInfo {e} {s} {f} l a is o =
    let (ys, zs, cut) = split_at a (f l) ((is l).owned a o) in
    let is_l : IsList (e l) s l (ys ++ a ∷ zs) = subst (IsList (e l) s l) cut (is l) in
    rw (o, delete_node) (rw (unlink-unlinked ys a zs is_l) (taken-SameInfo s l ys zs a))

pub pop-SameInfo :
    {d : ℕ} {s : Store} (l : ℕ) (xs : List ℕ)
    → IsList d s l xs
    → Ensures (λ (_, s'). SameInfo s s') (pop s l)
unfolding count_out
pop-SameInfo {d} {s} l [] is = rw (pop_empty s l is) (λ b. (refl, refl))
pop-SameInfo {d} {s} l (a ∷ zs) is = rw (pop_head s l a zs is) (taken-SameInfo s l [] zs a)

-- A node is in one list at most, once at most, and a node in no list has no owner.
pub one_list :
    {e : ℕ → ℕ} {s : Store} {f : ℕ → List ℕ} (l k a : ℕ)
    → IsStore e s f
    → has a (f l) ≡ true
    → has a (f k) ≡ true
    → l ≡ k
one_list {e} {s} {f} l k a is here there =
    let o = owner_of s.nodes l (f l) none a (is l).linked here in
    let o' = owner_of s.nodes k (f k) none a (is k).linked there in ground (arith, o, o')

pub no_owner :
    {e : ℕ → ℕ} {s : Store} {f : ℕ → List ℕ} (a : ℕ)
    → IsStore e s f
    → ((k : ℕ) → has a (f k) ≡ false)
    → (s.nodes a).owner ≡ none
no_owner {e} {s} {f} a is out = elim (Option-cases (s.nodes a).owner) [
  | inl free ↦ free
  | inr (k, o) ↦ absurd (ground (arith, (is k).owned a o, out k))
]

pub owner_in :
    {e : ℕ → ℕ} {s : Store} {f : ℕ → List ℕ} (l a : ℕ)
    → IsStore e s f
    → has a (f l) ≡ true
    → (s.nodes a).owner ≡ some l
owner_in {e} {s} {f} l a is here = owner_of s.nodes l (f l) none a (is l).linked here

-- membership in a list that was put
pub has-put :
    (f : ℕ → List ℕ) (l : ℕ) (xs : List ℕ) (k b : ℕ)
    → has b (put f l xs k) ≡ (if l == k then has b xs else has b (f k))
has-put f l xs k b = elim (Bool-cases (l == k)) [ inl e ↦ rw e | inr e ↦ rw e ]

-- the first node of a list is in none of the lists without it
pub gone :
    {e : ℕ → ℕ} {s : Store} {f : ℕ → List ℕ} (l a : ℕ) (xs : List ℕ)
    → IsStore e s f
    → f l ≡ xs
    → some a ≡ first_or xs none
    → (k : ℕ) → has a (put f l (rest_of xs) k) ≡ false
unfolding distinct
gone {e} {s} {f} l a [] is here first k = absurd (ground arith)
gone {e} {s} {f} l a (x ∷ xs) is here first k =
    let same : a ≡ x = cc first in
    let alone : has x xs ≡ false =
      ground (arith, subst (λ ys. distinct ys ≡ true) here (is l).unique) in
    let inside : has x (f l) ≡ true = ap (has x) here ∙ has_self x xs in
    ap (λ c. has c (put f l xs k)) same ∙ elim (Bool-cases (l == k)) [
      | inl e' ↦ ground (arith, has-put f l xs k x, alone)
      | inr e' ↦ elim (Bool-cases (has x (f k))) [
        | inl there ↦ absurd (ground (arith, one_list l k x is inside there))
        | inr out ↦ ground (arith, has-put f l xs k x)
      ]
    ]

-- A node that is in no list may change.
pub put_free-IsStore :
    {e : ℕ → ℕ} {s : Store} {f : ℕ → List ℕ} (a : ℕ) (n : DNode)
    → IsStore e s f
    → (s.nodes a).owner ≡ none
    → n.owner ≡ none
    → IsStore e (put_node s a n) f
put_free-IsStore {e} {s} {f} a n is free free' k =
    let s' = put_node s a n in
    IsList-frame s' (is k) refl
      (λ b here. write-other s.nodes a n b (λ same.
        absurd (ground (arith, owner_in k b is here, ap (λ c. (s.nodes c).owner) same, free))))
      (λ b o. elim (ℕ_discrete b a) [
        | yes same ↦
            let stored : s'.nodes b ≡ n = ap s'.nodes same ∙ write_self s.nodes a n in
            absurd (ground (arith, o, ap (λ m. m.owner) stored, free'))
        | no other ↦ ap (λ m. m.owner) (sym (write-other s.nodes a n b other)) ∙ o
      ])
