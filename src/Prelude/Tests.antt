-- ===== src/Prelude/Tests.antt =====
-- Boolean tests on the native numbers, the conditional, and the chain of fallible steps.
use Prim.Native.Nat.{ℕ, ◌+◌, ◌-◌, ◌%◌, ◌^◌, compare, Ordering}
use mathlib.Core.Path.{◌≡◌, refl, ap, subst}
use mathlib.Core.Logic.{◌≢◌, ◌↔◌, ◌⊎◌, inl, inr}
use mathlib.Core.Bool.{Bool, true, false}
use mathlib.Core.Option.{Option, none, some}
use native.Mathlib.Omega.{arith}

abbrev pub ltb : ℕ → ℕ → Bool
ltb a b = elim (compare a b) [ Ordering.lt ↦ true | _ ↦ false ]

abbrev pub leb : ℕ → ℕ → Bool
leb a b = elim (compare a b) [ Ordering.gt ↦ false | _ ↦ true ]

infix 50 ◌==◌
abbrev pub ◌==◌ : ℕ → ℕ → Bool
a == b = elim (compare a b) [ Ordering.eq ↦ true | _ ↦ false ]

infix 1 if◌then◌else◌
abbrev pub if◌then◌else◌ {ℓ} : {A : Type ℓ} → Bool → A → A → A
if true then x else y = x
if false then x else y = y

pub ==_iff : (a b : ℕ) → ((a == b) ≡ true) ↔ (a ≡ b)
==_iff a b = ground arith

pub test_eq : (a b : ℕ) → a ≡ b → (a == b) ≡ true
test_eq a b e = ground arith

pub test_ne : (a b : ℕ) → a ≢ b → (a == b) ≡ false
test_ne a b ne = ground arith

pub ne_of_test : (a b : ℕ) → (a == b) ≡ false → a ≢ b
ne_of_test a b e same = absurd (ground arith)

pub Bool-cases : (b : Bool) → (b ≡ true) ⊎ (b ≡ false)
Bool-cases true = inl refl
Bool-cases false = inr refl

pub Option-cases {ℓ} : {A : Type ℓ} (o : Option A) → (o ≡ none) ⊎ ((a : A) × (o ≡ some a))
Option-cases none = inl refl
Option-cases (some a) = inr (a, refl)

-- `none` is undefined behaviour of the C program: an access outside an object, a failed assertion.
infixl 5 ◌>>=◌
abbrev pub ◌>>=◌ {ℓ κ} : {A : Type ℓ} {B : Type κ} → Option A → (A → Option B) → Option B
none >>= f = none
some a >>= f = f a

-- `assert`
abbrev pub guard : Bool → Option (Unit {0})
guard true = some tt
guard false = none

infixl 5 ◌>>◌
abbrev pub ◌>>◌ {ℓ} : {B : Type ℓ} → Option (Unit {0}) → Option B → Option B
m >> k = m >>= λ _. k

-- `size_t`, of 64 bits
abbrev pub add_size : ℕ → ℕ → ℕ
add_size a b = (a + b) % 2 ^ 64

abbrev pub sub_size : ℕ → ℕ → ℕ
sub_size a b = (a + 2 ^ 64 - b) % 2 ^ 64

-- Total correctness: the call is defined, and its result satisfies `P`.
abbrev pub Ensures {ℓ} : {A : Type ℓ} → (A → Type 0) → Option A → Type 0
Ensures P none = ⊥
Ensures P (some a) = P a

pub Ensures-bind {ℓ κ} :
    {A : Type ℓ} {B : Type κ} {P : A → Type 0} (Q : B → Type 0) (o : Option A) (f : A → Option B)
    → Ensures P o
    → ((a : A) → P a → Ensures Q (f a))
    → Ensures Q (o >>= f)
Ensures-bind Q none f h next = h
Ensures-bind Q (some a) f h next = next a h

pub Ensures-mono {ℓ} :
    {A : Type ℓ} {P : A → Type 0} (Q : A → Type 0) (o : Option A)
    → Ensures P o
    → ((a : A) → P a → Q a)
    → Ensures Q o
Ensures-mono Q none h weaken = h
Ensures-mono Q (some a) h weaken = weaken a h

pub Ensures-both {ℓ} :
    {A : Type ℓ} (P Q : A → Type 0) (o : Option A)
    → Ensures P o
    → Ensures Q o
    → Ensures (λ a. P a × Q a) o
Ensures-both P Q none p q = p
Ensures-both P Q (some a) p q = (p, q)

pub Ensures-some {ℓ} :
    {A : Type ℓ} (P : A → Type 0) (o : Option A) → Ensures P o → (a : A) × (o ≡ some a) × P a
Ensures-some P none p = elim p [ ]
Ensures-some P (some a) p = (a, refl, p)

pub Ensures-eq : {A : Type 0} (o : Option A) (a : A) → Ensures (λ b. b ≡ a) o → o ≡ some a
Ensures-eq none a p = elim p [ ]
Ensures-eq (some b) a p = ap some p

pub Ensures-if {ℓ} :
    {A : Type ℓ} (P : A → Type 0) (b : Bool) (x y : Option A)
    → (b ≡ true → Ensures P x)
    → (b ≡ false → Ensures P y)
    → Ensures P (if b then x else y)
Ensures-if P true x y at_true at_false = at_true refl
Ensures-if P false x y at_true at_false = at_false refl

-- a predicate of the second component of a conditional
pub second_of_if {ℓ κ} :
    {A : Type ℓ} {B : Type κ} (P : A → Type 0) (b : Bool) (x y : B × A)
    → P x.1
    → (b ≡ false → P y.1)
    → P (if b then x else y).1
second_of_if P true x y px py = px
second_of_if P false x y px py = py refl

-- what holds of every result holds of this one
pub of_result {ℓ} : {A : Type ℓ} (P : A → Type 0) (x y : A) → P x → some x ≡ some y → P y
of_result {A = A} P x y p e = subst P (ap (λ (o : Option A). elim o [ none ↦ x | some a ↦ a ]) e) p

-- Partial correctness: a result, if there is one, satisfies `P`.
abbrev pub Gives {ℓ} : {A : Type ℓ} → (A → Type 0) → Option A → Type ℓ
Gives {A = A} P o = (a : A) → o ≡ some a → P a

pub Gives-some {ℓ} : {A : Type ℓ} (P : A → Type 0) (x : A) → P x → Gives P (some x)
Gives-some P x p a e = of_result P x a p e

pub Gives-if {ℓ} :
    {A : Type ℓ} (P : A → Type 0) (b : Bool) (x y : Option A)
    → (b ≡ true → Gives P x)
    → (b ≡ false → Gives P y)
    → Gives P (if b then x else y)
Gives-if P true x y at_true at_false = at_true refl
Gives-if P false x y at_true at_false = at_false refl

pub Gives-bind {ℓ κ} :
    {A : Type ℓ} {B : Type κ} (Q : B → Type 0) (o : Option A) (f : A → Option B)
    → ((a : A) → o ≡ some a → Gives Q (f a))
    → Gives Q (o >>= f)
Gives-bind Q none f next b e = absurd (ground arith)
Gives-bind Q (some a) f next b e = next a refl b e

-- a call that is defined, with what is known of every result of it
pub Ensures-Gives {ℓ} :
    {A : Type ℓ} {P Q : A → Type 0} (R : A → Type 0) (o : Option A)
    → Ensures P o
    → Gives Q o
    → ((a : A) → P a → Q a → R a)
    → Ensures R o
Ensures-Gives R none h gives both = h
Ensures-Gives R (some a) h gives both = both a h (gives a refl)

-- One call is defined exactly if the other is, and then the results are related.
abbrev pub Agrees {ℓ κ} :
    {A : Type ℓ} {B : Type κ} → (A → B → Type 0) → Option A → Option B → Type 0
Agrees R none none = Unit {0}
Agrees R (some a) (some b) = R a b
Agrees R none (some b) = ⊥
Agrees R (some a) none = ⊥

pub Agrees-bind {ℓ κ} :
    {A A' : Type ℓ} {B B' : Type κ} {R : A → B → Type 0} (S : A' → B' → Type 0) (o : Option A)
    (o' : Option B) (f : A → Option A') (g : B → Option B')
    → Agrees R o o'
    → ((a : A) (b : B) → R a b → Agrees S (f a) (g b))
    → Agrees S (o >>= f) (o' >>= g)
Agrees-bind S none none f g h next = tt
Agrees-bind S (some a) (some b) f g h next = next a b h
Agrees-bind S none (some b) f g h next = absurd h
Agrees-bind S (some a) none f g h next = absurd h

-- behind a call that is defined
pub Agrees-after {ℓ κ μ} :
    {A : Type ℓ} {B : Type κ} {C : Type μ} {P : B → Type 0} (S : A → C → Type 0) (o : Option A)
    (o' : Option B) (g : B → Option C)
    → Ensures P o'
    → ((b : B) → P b → Agrees S o (g b))
    → Agrees S o (o' >>= g)
Agrees-after S o none g h next = absurd h
Agrees-after S o (some b) g h next = next b h

pub Agrees-map {ℓ κ} :
    {A A' : Type ℓ} {B : Type κ} {R : A → B → Type 0} (S : A' → B → Type 0) (o : Option A)
    (o' : Option B) (f : A → A')
    → Agrees R o o'
    → ((a : A) (b : B) → R a b → S (f a) b)
    → Agrees S (o >>= λ a. some (f a)) o'
Agrees-map S none none f h weaken = tt
Agrees-map S (some a) (some b) f h weaken = weaken a b h
Agrees-map S none (some b) f h weaken = absurd h
Agrees-map S (some a) none f h weaken = absurd h

-- a call against a value
pub Agrees-some {ℓ κ} :
    {A : Type ℓ} {B : Type κ} (R : A → B → Type 0) (a : A) (o : Option B)
    → Ensures (R a) o
    → Agrees R (some a) o
Agrees-some R a none h = h
Agrees-some R a (some b) h = h

pub Agrees-Ensures {ℓ κ} :
    {A : Type ℓ} {B : Type κ} {R : A → B → Type 0} {P : A → Type 0} (Q : B → Type 0) (o : Option A)
    (o' : Option B)
    → Agrees R o o'
    → Ensures P o
    → ((a : A) (b : B) → R a b → P a → Q b)
    → Ensures Q o'
Agrees-Ensures Q none o' h defined both = absurd defined
Agrees-Ensures Q (some a) none h defined both = h
Agrees-Ensures Q (some a) (some b) h defined both = both a b h defined
