-- ===== src/Python/Result.antt =====
-- Code that raises: the value, or the refusal as data in place of the exception's message.
use mathlib.Core.Path.{◌≡◌, refl}
use mathlib.Core.Bool.{Bool, true, false}

pub data Result {ℓ} (E A : Type ℓ) : Type ℓ where
  err : E → Result E A
  ok : A → Result E A

infixl 5 ◌>>=◌
abbrev pub ◌>>=◌ {ℓ} : {E A B : Type ℓ} → Result E A → (A → Result E B) → Result E B
(err why) >>= k = err why
(ok x) >>= k = k x

-- `if bad: raise e`, and then the rest.
abbrev pub unless : {E B : Type 0} → Bool → E → Result E B → Result E B
unless true why rest = err why
unless false why rest = rest

module _ {ℓ} {E A B : Type ℓ} where
  -- A run that returns has returned at its first step.
  pub bind-eq-ok :
      (m : Result E A) (k : A → Result E B) {y : B}
      → (m >>= k) ≡ ok y
      → (x : A) × (m ≡ ok x) × (k x ≡ ok y)
  bind-eq-ok (err why) k returns = cc
  bind-eq-ok (ok x) k returns = (x, refl, returns)

pub unless-eq-ok :
    {E B : Type 0} (bad : Bool) (why : E) (rest : Result E B) {y : B}
    → unless bad why rest ≡ ok y
    → (bad ≡ false) × (rest ≡ ok y)
unless-eq-ok false why rest returns = (refl, returns)
unless-eq-ok true why rest returns = cc

pub ok_inj : {E A : Type 0} (x y : A) → ◌≡◌ {A = Result E A} (ok x) (ok y) → x ≡ y
ok_inj x y e = cc
