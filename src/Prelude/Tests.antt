-- ===== src/Prelude/Tests.antt =====
-- Boolean tests on the native numbers, the conditional, and case lemmas.
use Prim.Native.Nat.{ℕ, ◌≤◌, ◌<◌, compare, Ordering}
use mathlib.Core.Path.{◌≡◌, refl}
use mathlib.Core.Logic.{◌↔◌, ◌⊎◌, inl, inr}
use mathlib.Core.Bool.{Bool, true, false}
use mathlib.Core.Option.{Option, none, some}
use native.Mathlib.Omega.{arith}

abbrev pub ltb : ℕ → ℕ → Bool
ltb a b = elim (compare a b) [ Ordering.lt ↦ true | _ ↦ false ]

abbrev pub leb : ℕ → ℕ → Bool
leb a b = elim (compare a b) [ Ordering.gt ↦ false | _ ↦ true ]

infix 50 ◌==◌
abbrev pub ◌==◌ : ℕ → ℕ → Bool
a == b = elim (compare a b) [ Ordering.eq ↦ true | _ ↦ false ]

infix 1 if◌then◌else◌
abbrev pub if◌then◌else◌ {ℓ} : {A : Type ℓ} → Bool → A → A → A
if true then x else y = x
if false then x else y = y

pub ==_iff : (a b : ℕ) → ((a == b) ≡ true) ↔ (a ≡ b)
==_iff a b = ground arith

pub lt→ltb : (a b : ℕ) → a < b → ltb a b ≡ true
lt→ltb a b h = ground arith

pub le→ltb : (a b : ℕ) → b ≤ a → ltb a b ≡ false
le→ltb a b h = ground arith

pub lt→leb : (a b : ℕ) → b < a → leb a b ≡ false
lt→leb a b h = ground arith

pub le→leb : (a b : ℕ) → a ≤ b → leb a b ≡ true
le→leb a b h = ground arith

pub Bool-cases : (b : Bool) → (b ≡ true) ⊎ (b ≡ false)
Bool-cases true = inl refl
Bool-cases false = inr refl

-- A property of either branch.
pub if_either {ℓ} :
    {A : Type ℓ} (P : A → Type 0) (c : Bool) {x y : A}
    → (c ≡ true → P x)
    → (c ≡ false → P y)
    → P (if c then x else y)
if_either P true f g = f refl
if_either P false f g = g refl

pub Option-cases {ℓ} : {A : Type ℓ} (o : Option A) → (o ≡ none) ⊎ ((a : A) × (o ≡ some a))
Option-cases none = inl refl
Option-cases (some a) = inr (a, refl)

-- A chain of steps that may fail. `none` stands for what the section that uses it says.
infixl 5 ◌>>=◌
abbrev pub ◌>>=◌ {ℓ κ} : {A : Type ℓ} {B : Type κ} → Option A → (A → Option B) → Option B
none >>= f = none
some a >>= f = f a

-- The computation returns, and its value has the property.
abbrev pub Runs {ℓ} : {A : Type ℓ} → Option A → (A → Type 0) → Type 0
Runs none P = ⊥
Runs (some a) P = P a

module _ {ℓ} {A : Type ℓ} (P : A → Type 0) where
  pub Runs-map : (Q : A → Type 0) → ((a : A) → P a → Q a) → (o : Option A) → Runs o P → Runs o Q
  Runs-map Q f (some a) h = f a h
  Runs-map Q f none h = absurd h

  pub Runs-bind {κ} :
      {B : Type κ} (Q : B → Type 0) (m : Option A) (f : A → Option B)
      → Runs m P
      → ((a : A) → P a → Runs (f a) Q)
      → Runs (m >>= f) Q
  Runs-bind Q none f h k = absurd h
  Runs-bind Q (some a) f h k = k a h

-- Two computations return, and their values are related.
abbrev pub Both {ℓ κ} : {A : Type ℓ} {B : Type κ} → Option A → Option B → (A → B → Type 0) → Type 0
Both m m' R = Runs m (λ a. Runs m' (R a))

pub Both-bind :
    {A B C D : Type 0} (R : A → B → Type 0) (S : C → D → Type 0) (m : Option A) (m' : Option B)
    (f : A → Option C) (f' : B → Option D)
    → Both m m' R
    → ((a : A) (b : B) → R a b → Both (f a) (f' b) S)
    → Both (m >>= f) (m' >>= f') S
Both-bind R S (some a) (some b) f f' h k = k a b h
Both-bind R S (some a) none f f' h k = absurd h
Both-bind R S none m' f f' h k = absurd h

pub Both-map :
    {A B : Type 0} (R S : A → B → Type 0) (m : Option A) (m' : Option B)
    → ((a : A) (b : B) → R a b → S a b)
    → Both m m' R
    → Both m m' S
Both-map R S (some a) (some b) k h = k a b h
Both-map R S (some a) none k h = h
Both-map R S none m' k h = h

-- The value has the property, if the computation returns.
abbrev pub Always {ℓ} : {A : Type ℓ} → Option A → (A → Type 0) → Type 0
Always none P = Unit
Always (some a) P = P a

module _ {ℓ κ} {A : Type ℓ} {B : Type κ} (P : A → Type 0) where
  pub Always-bind :
      (Q : B → Type 0) (m : Option A) (f : A → Option B)
      → Always m P
      → ((a : A) → P a → Always (f a) Q)
      → Always (m >>= f) Q
  Always-bind Q none f h k = tt
  Always-bind Q (some a) f h k = k a h

  pub bind-same :
      (m : Option A) (f g : A → Option B)
      → Always m P
      → ((a : A) → P a → f a ≡ g a)
      → m >>= f ≡ m >>= g
  bind-same none f g h k = refl
  bind-same (some a) f g h k = k a h

pub Always-any {ℓ} : {A : Type ℓ} (m : Option A) → Always m (λ _. Unit)
Always-any none = tt
Always-any (some a) = tt
