-- ===== src/Dlist/Cells.antt =====
-- flist/fdlist.c: nodes, lists, and the store that holds them.
use final_libs.Prelude.{
  ℕ, ◌≡◌, ◌≢◌, sym, ap, ◌∙◌, arith, Bool, true, false, Option, none, some, ◌==◌, if◌then◌else◌,
}
use native.Mathlib.Decide.{ℕ_discrete}

abbrev pub Ptr : Type 0
Ptr = Option ℕ

-- `fdlist_orig_node_t`; the user's `data` is a pointer that the list does not follow.
pub record DNode : Type 0 where
  pub prev : Ptr
  pub next : Ptr
  pub owner : Ptr
  pub data_size : ℕ
  pub user_data : ℕ

-- `struct _fdlist_mgr`
pub record DList : Type 0 where
  pub head : Ptr
  pub tail : Ptr
  pub size : ℕ
  pub total_data_size : ℕ

pub record Store : Type 0 where
  pub nodes : ℕ → DNode
  pub lists : ℕ → DList

-- a memory with the cell `a` written
unfoldable pub write {ℓ} : {A : Type ℓ} → (ℕ → A) → ℕ → A → ℕ → A
write f a v b = if a == b then v else f b

pub write_self {ℓ} : {A : Type ℓ} (f : ℕ → A) (a : ℕ) (v : A) → write f a v a ≡ v
unfolding write
write_self f a v = ground arith

pub write-other {ℓ} : {A : Type ℓ} (f : ℕ → A) (a : ℕ) (v : A) (b : ℕ) → b ≢ a → write f a v b ≡ f b
unfolding write
write-other f a v b ne = ground arith

pub write-write {ℓ} :
    {A : Type ℓ} (f : ℕ → A) (a : ℕ) (v w : A) → write (write f a v) a w ≡ write f a w
unfolding write
write-write f a v w =
    let at : (b : ℕ) → write (write f a v) a w b ≡ write f a w b = λ b. ground arith in
    λ i b. at b i

-- a write that keeps a part of the cell keeps it in every cell
pub write_part {ℓ κ} :
    {A : Type ℓ} {B : Type κ} (g : A → B) (f : ℕ → A) (a : ℕ) (v : A)
    → g v ≡ g (f a)
    → (b : ℕ) → g (write f a v b) ≡ g (f b)
write_part g f a v same b = elim (ℕ_discrete b a) [
  | yes here ↦ ap g (ap (write f a v) here ∙ write_self f a v) ∙ same ∙ ap (λ c. g (f c)) (sym here)
  | no other ↦ ap g (write-other f a v b other)
]

abbrev pub put_node : Store → ℕ → DNode → Store
put_node s a n = record s { nodes = write s.nodes a n }

abbrev pub put_list : Store → ℕ → DList → Store
put_list s l d = record s { lists = write s.lists l d }

abbrev pub is_null : Ptr → Bool
is_null none = true
is_null (some _) = false

-- `p == q`
abbrev pub same_ptr : Ptr → Ptr → Bool
same_ptr none none = true
same_ptr none (some _) = false
same_ptr (some _) none = false
same_ptr (some a) (some b) = a == b
