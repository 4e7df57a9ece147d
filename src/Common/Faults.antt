-- ===== src/Common/Faults.antt =====
-- A computation that may fault returns a value with a property.
use Prim.Native.Nat.{ℕ, ◌<◌}
use mathlib.Core.Path.{◌≡◌, refl, subst}
use mathlib.Core.Bool.{Bool, true, false}
use mathlib.Core.Option.{Option, none, some}
use mathlib.Core.List.{List}
use foosball_tracker.Common.Lists.{length, get_elem?, set, set?, get_elem?_total, set?-eq-set}
use foosball_tracker.Common.Tests.{◌>>=◌, if◌then◌else◌}

pub data Returns {ℓ κ} {A : Type ℓ} (P : A → Type κ) : Option A → Type (ℓ ⊔ κ) where
  value : (a : A) → P a → Returns P (some a)

pub Returns-bind {ℓ κ μ ν} :
    {A : Type ℓ} {B : Type κ} {P : A → Type μ} {Q : B → Type ν} {m : Option A} {f : A → Option B}
    → Returns P m
    → ((a : A) → P a → Returns Q (f a))
    → Returns Q (m >>= f)
Returns-bind (value a p) k = k a p

pub Returns-if {ℓ κ} :
    {A : Type ℓ} {P : A → Type κ} (b : Bool) (m n : Option A)
    → (b ≡ true → Returns P m)
    → (b ≡ false → Returns P n)
    → Returns P (if b then m else n)
Returns-if true m n h k = h refl
Returns-if false m n h k = k refl

pub Returns-get_elem? {ℓ} :
    {A : Type ℓ} (xs : List A) (i : ℕ)
    → i < length xs
    → Returns (λ a. get_elem? xs i ≡ some a) (get_elem? xs i)
Returns-get_elem? xs i h = let (a, e) = get_elem?_total xs i h in rw e (value a refl)

pub Returns-set? {ℓ} :
    {A : Type ℓ} (xs : List A) (i : ℕ) (v : A)
    → i < length xs
    → Returns (λ ys. ys ≡ set xs i v) (set? xs i v)
Returns-set? xs i v h = rw (set?-eq-set xs i v h) (value _ refl)

pub Returns-map {ℓ κ μ} :
    {A : Type ℓ} (P : A → Type κ) (Q : A → Type μ) {m : Option A}
    → ((a : A) → P a → Q a)
    → Returns P m
    → Returns Q m
Returns-map P Q k (value a p) = value a (k a p)

-- The value and what it satisfies.
pub Returns-some {ℓ κ} :
    {A : Type ℓ} {P : A → Type κ} {m : Option A} → Returns P m → (a : A) × (m ≡ some a) × P a
Returns-some (value a p) = (a, refl, p)

-- What a computation returns has a property, if it returns at all.
pub data Partial {ℓ κ} {A : Type ℓ} (P : A → Type κ) : Option A → Type (ℓ ⊔ κ) where
  faults : Partial P none
  gives : (a : A) → P a → Partial P (some a)

pub Partial-bind {ℓ κ μ ν} :
    {A : Type ℓ} {B : Type κ} {P : A → Type μ} {Q : B → Type ν} {m : Option A} {f : A → Option B}
    → Partial P m
    → ((a : A) → P a → Partial Q (f a))
    → Partial Q (m >>= f)
Partial-bind faults k = faults
Partial-bind (gives a p) k = k a p

pub Partial-if {ℓ κ} :
    {A : Type ℓ} {P : A → Type κ} (b : Bool) (m n : Option A)
    → (b ≡ true → Partial P m)
    → (b ≡ false → Partial P n)
    → Partial P (if b then m else n)
Partial-if true m n h k = h refl
Partial-if false m n h k = k refl

pub Partial-some {ℓ κ} :
    {A : Type ℓ} {P : A → Type κ} {m : Option A} {a : A} → Partial P m → m ≡ some a → P a
Partial-some faults e = absurd (cc)
Partial-some {P = P} (gives b p) e = subst P (cc) p

-- Of a step of which nothing need be known.
pub Partial-skip {ℓ κ μ} :
    {A : Type ℓ} {B : Type κ} {Q : B → Type μ} (m : Option A) {f : A → Option B}
    → ((a : A) → Partial Q (f a))
    → Partial Q (m >>= f)
Partial-skip none k = faults
Partial-skip (some a) k = k a

pub Partial-map {ℓ κ μ} :
    {A : Type ℓ} (P : A → Type κ) (Q : A → Type μ) {m : Option A}
    → ((a : A) → P a → Q a)
    → Partial P m
    → Partial Q m
Partial-map P Q k faults = faults
Partial-map P Q k (gives a p) = gives a (k a p)

pub Partial-self {ℓ} : {A : Type ℓ} (m : Option A) → Partial (λ a. m ≡ some a) m
Partial-self none = faults
Partial-self (some a) = gives a refl
