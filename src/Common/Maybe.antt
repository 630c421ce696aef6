-- ===== src/Common/Maybe.antt =====
-- Chains of steps that may read out of bounds: `none` is the fault.
use mathlib.Core.Path.{◌≡◌, refl, ap, ◌∙◌}
use mathlib.Core.Option.{Option, none, some}
use mathlib.Core.Bool.{Bool, true, false}
use usrp_atsc.Common.Tests.{if◌then◌else◌}

infixl 5 ◌>>=◌
abbrev pub ◌>>=◌ {ℓ κ} : {A : Type ℓ} {B : Type κ} → Option A → (A → Option B) → Option B
none >>= f = none
some a >>= f = f a

-- A chain that has a result, and one that reads out of bounds whatever its first step gives.
abbrev pub IsDefined {ℓ} : {A : Type ℓ} → Option A → Type ℓ
IsDefined {A = A} o = (a : A) × (o ≡ some a)

module _ {ℓ κ} {A : Type ℓ} {B : Type κ} where
  pub bind-IsDefined :
      (o : Option A) (f : A → Option B)
      → IsDefined o
      → ((a : A) → IsDefined (f a))
      → IsDefined (o >>= f)
  bind-IsDefined none f (a, e) h = cc
  bind-IsDefined (some a) f (a', e) h = h a

  pub bind-none : (o : Option A) (f : A → Option B) → ((a : A) → f a ≡ none) → (o >>= f) ≡ none
  bind-none none f h = refl
  bind-none (some a) f h = h a

  -- What a chain with a result has read at its first step.
  pub bind-some :
      (o : Option A) (f : A → Option B) (b : B)
      → (o >>= f) ≡ some b
      → (a : A) × (o ≡ some a) × (f a ≡ some b)
  bind-some none f b h = cc
  bind-some (some a) f b h = (a, refl, h)

  pub bind-fault : (o : Option A) (f : A → Option B) → o ≡ none → (o >>= f) ≡ none
  bind-fault none f h = refl
  bind-fault (some a) f h = cc

pub if-IsDefined {ℓ} :
    {A : Type ℓ} (b : Bool) (o p : Option A)
    → (b ≡ true → IsDefined o)
    → (b ≡ false → IsDefined p)
    → IsDefined (if b then o else p)
if-IsDefined true o p h k = h refl
if-IsDefined false o p h k = k refl

pub absurd-defined {ℓ κ} : {A : Type ℓ} {C : Type κ} (o : Option A) → IsDefined o → o ≡ none → C
absurd-defined none (a, e) h = cc
absurd-defined (some b) (a, e) h = cc

pub some-cancel {ℓ} : {A : Type ℓ} {a b : A} → some a ≡ some b → a ≡ b
some-cancel h = cc

pub bind-next {ℓ κ} :
    {A : Type ℓ} {B : Type κ} (o : Option A) (f : A → Option B) (a : A) (r : Option B)
    → o ≡ some a
    → f a ≡ r
    → (o >>= f) ≡ r
bind-next none f a r e h = cc
bind-next (some b) f a r e h = ap f (some-cancel e) ∙ h

-- Every result has the property.
abbrev pub AllResults {ℓ κ} : {A : Type ℓ} → (A → Type κ) → Option A → Type (ℓ ⊔ κ)
AllResults {A = A} P o = (a : A) → o ≡ some a → P a

pub bind-AllResults {ℓ κ λ'} :
    {A : Type ℓ} {B : Type κ} (P : B → Type λ') (o : Option A) (f : A → Option B)
    → ((a : A) → o ≡ some a → AllResults P (f a))
    → AllResults P (o >>= f)
bind-AllResults P none f h b e = cc
bind-AllResults P (some a) f h b e = h a refl b e

pub none-some {ℓ} : {A : Type ℓ} {a : A} → none ≡ some a → ⊥
none-some h = cc

pub false-true : false ≡ true → ⊥
false-true h = cc

-- Every step of a chain fails that has come so far.
pub bind-fails {ℓ κ} :
    {A : Type ℓ} {B : Type κ} (o : Option A) (f : A → Option B)
    → ((a : A) → o ≡ some a → f a ≡ none)
    → (o >>= f) ≡ none
bind-fails none f h = refl
bind-fails (some a) f h = h a refl
