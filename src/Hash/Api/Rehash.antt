-- ===== src/Hash/Api/Rehash.antt =====
-- fhash/fhash_core.c, OPEN API: a rehash that the caller asks for.
use final_libs.Prelude.{
  ℕ, ◌<◌, ◌≡◌, refl, true, false, arith, if◌then◌else◌, ◌==◌, ◌⊎◌, inl, inr, Ensures, Ensures-bind,
  Ensures-if,
}
use final_libs.Hash.Opt.{Opt, Lawful}
use final_libs.Hash.Table.{index_size, size_max}
use final_libs.Hash.Core.{Fhash, can_rehash, rehash_size, rehash_to}
use final_libs.Hash.Core.Inv.{IsFhash}
use final_libs.Hash.Core.Rehash.{Kept, can_rehash_idle, rehash_size_pos, rehash_to_lem}
use final_libs.Hash.Api.{rehash}

-- the number of buckets that a call with `new_size` asks for
abbrev pub asked_size : Fhash → ℕ → ℕ
asked_size h new_size = if new_size == 0 then rehash_size h.current else new_size

-- Status 1 is a call that changes nothing; status 0 keeps the map, over as many buckets as asked.
abbrev pub Rehashed : Opt → Fhash → ℕ → ℕ × Fhash → Type 0
Rehashed opt h new_size (status, h') =
    ((status ≡ 1) × (h' ≡ h) × ((can_rehash h ≡ false) ⊎ (new_size ≡ index_size h.current)))
    ⊎ ((status ≡ 0) × Kept opt h h' × (index_size h'.current ≡ asked_size h new_size))

-- `fhash_rehash` on a well-formed table whose node count is below SIZE_MAX is defined. Either it
-- returns 1 and changes nothing, and then no rehash is allowed now or the table has the size
-- asked for; or it returns 0, the table stays well formed, every key keeps its value, and there
-- are as many buckets as asked for, where 0 asks for the next size.
pub rehash_lem :
    {opt : Opt} (law : Lawful opt) (h : Fhash) (new_size : ℕ)
    → IsFhash opt h
    → h.current.slots_used < size_max
    → Ensures (Rehashed opt h new_size) (rehash opt h new_size)
unfolding rehash
rehash_lem {opt} law h new_size is room =
    Ensures-if (Rehashed opt h new_size) (can_rehash h) _ _
      (λ can.
        Ensures-if (Rehashed opt h new_size) (new_size == index_size h.current) _ _
          (λ same_size. inl (refl, refl, inr (ground arith)))
          (λ _.
            Ensures-bind (Rehashed opt h new_size) (rehash_to opt h (asked_size h new_size)) _
              (rehash_to_lem law h (asked_size h new_size) is
                (can_rehash_idle law h true (ground arith)) room
                (ground (arith, rehash_size_pos law h.current is.table.some_buckets)))
              (λ h' (kept, size_is). inr (refl, kept, size_is))))
      (λ cannot. inl (refl, refl, inl cannot))
