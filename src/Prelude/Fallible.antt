-- ===== src/Prelude/Fallible.antt =====
-- A computation that returns or raises, generic in the error.
use mathlib.Core.Path.{◌≡◌, refl}
use mathlib.Core.Option.{Option, none, some}

pub data Result {ℓ} (E A : Type ℓ) : Type ℓ where
  ok : A → Result E A
  raise : E → Result E A

module _ {ℓ} {E A B : Type ℓ} where
  infixl 5 ◌>>=◌
  abbrev pub ◌>>=◌ : Result E A → (A → Result E B) → Result E B
  ok a >>= f = f a
  raise e >>= f = raise e

module _ {ℓ} {E A : Type ℓ} where
  abbrev pub from_option : Option A → E → Result E A
  from_option none e = raise e
  from_option (some a) e = ok a

  -- If `r` returns then its value satisfies `P`.
  abbrev pub Ensures : (A → Type 0) → Result E A → Type 0
  Ensures P (ok a) = P a
  Ensures P (raise e) = Unit

  -- `r` returns, and its value satisfies `P`.
  abbrev pub Returns : (A → Type 0) → Result E A → Type 0
  Returns P (ok a) = P a
  Returns P (raise e) = ⊥

pub Ensures-bind {ℓ} :
    {E A B : Type ℓ} (P : B → Type 0) (m : Result E A) (f : A → Result E B)
    → ((a : A) → Ensures P (f a))
    → Ensures P (m >>= f)
Ensures-bind P (ok a) f h = h a
Ensures-bind P (raise e) f h = tt

pub Ensures-chain {ℓ} :
    {E A B : Type ℓ} (P : A → Type 0) (Q : B → Type 0) (m : Result E A) (f : A → Result E B)
    → Ensures P m
    → ((a : A) → P a → Ensures Q (f a))
    → Ensures Q (m >>= f)
Ensures-chain P Q (ok a) f h k = k a h
Ensures-chain P Q (raise e) f h k = tt

pub bind_cong {ℓ} :
    {E A B : Type ℓ} (m : Result E A) (f g : A → Result E B)
    → ((a : A) → f a ≡ g a)
    → (m >>= f) ≡ (m >>= g)
bind_cong (ok a) f g h = h a
bind_cong (raise e) f g h = refl

pub bind_assoc {ℓ} :
    {E A B C : Type ℓ} (m : Result E A) (f : A → Result E B) (g : B → Result E C)
    → (m >>= f >>= g) ≡ (m >>= λ a. f a >>= g)
bind_assoc (ok a) f g = refl
bind_assoc (raise e) f g = refl

pub Returns-both {ℓ} :
    {E A : Type ℓ} (P Q : A → Type 0) (m : Result E A)
    → Returns P m
    → Returns Q m
    → Returns (λ a. P a × Q a) m
Returns-both P Q (ok a) p q = (p, q)
Returns-both P Q (raise e) p q = p
