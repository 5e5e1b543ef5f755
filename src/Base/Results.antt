-- ===== src/Base/Results.antt =====
-- Chains of fallible steps: `none` is a failed assertion or a null pointer, and ends the chain.
use mathlib.Core.Path.{◌≡◌, refl, ap, sym, ◌∙◌}
use mathlib.Core.Bool.{Bool, true, false}
use mathlib.Core.Option.{Option, none, some}
use mathlib.Core.Logic.{◌⊎◌, inl, inr}
use sniper.Base.Tests.{if◌then◌else◌}

infixl 5 ◌>>=◌
abbrev pub ◌>>=◌ {ℓ κ} : {A : Type ℓ} {B : Type κ} → Option A → (A → Option B) → Option B
none >>= f = none
some a >>= f = f a

infixl 5 ◌>>◌
abbrev pub ◌>>◌ {ℓ} : {B : Type ℓ} → Option (Unit {0}) → Option B → Option B
m >> k = m >>= λ _. k

-- `assert(c)`
abbrev pub assert : Bool → Option (Unit {0})
assert true = some tt
assert false = none

pub bind_inv {ℓ κ} :
    {A : Type ℓ} {B : Type κ} (o : Option A) {f : A → Option B} {b : B}
    → (o >>= f) ≡ some b
    → (a : A) × (o ≡ some a) × (f a ≡ some b)
bind_inv none e = absurd (cc e)
bind_inv (some a) e = (a, refl, e)

pub bind_some {ℓ κ} :
    {A : Type ℓ} {B : Type κ} {o : Option A} (f : A → Option B) {a : A}
    → o ≡ some a
    → (o >>= f) ≡ f a
bind_some f known = ap (λ o. o >>= f) known

pub bind_at {ℓ κ} :
    {A : Type ℓ} {B : Type κ} {o : Option A} (f : A → Option B) {a : A} {x : Option B}
    → o ≡ some a
    → (o >>= f) ≡ x
    → f a ≡ x
bind_at f known e = ap (λ o. o >>= f) (sym known) ∙ e

pub assert_inv {κ} :
    {B : Type κ} (c : Bool) {o : Option B} {b : B}
    → (assert c >> o) ≡ some b
    → (c ≡ true) × (o ≡ some b)
assert_inv true e = (refl, e)
assert_inv false e = absurd (cc e)

pub if_inv {ℓ} :
    {A : Type ℓ} (c : Bool) {x y z : A}
    → (if c then x else y) ≡ z
    → ((c ≡ true) × (x ≡ z)) ⊎ ((c ≡ false) × (y ≡ z))
if_inv true e = inl (refl, e)
if_inv false e = inr (refl, e)

pub bind_cong {ℓ κ} :
    {A : Type ℓ} {B : Type κ} (o : Option A) {f g : A → Option B}
    → ((a : A) → o ≡ some a → f a ≡ g a)
    → (o >>= f) ≡ (o >>= g)
bind_cong none same = refl
bind_cong (some a) same = same a refl

pub bind_cong_both {ℓ κ} :
    {A : Type ℓ} {B : Type κ} {o o' : Option A} {f g : A → Option B}
    → o ≡ o'
    → ((a : A) → f a ≡ g a)
    → (o >>= f) ≡ (o' >>= g)
bind_cong_both {o} {g} same rest = bind_cong o (λ a _. rest a) ∙ ap (λ x. x >>= g) same

pub if_cong {ℓ} :
    {A : Type ℓ} (c : Bool) {x x' y y' : A}
    → x ≡ x'
    → y ≡ y'
    → (if c then x else y) ≡ (if c then x' else y')
if_cong true p q = p
if_cong false p q = q
