-- ===== src/Python/Run.antt =====
-- Code that changes a state and may raise: what was changed before an exception stays changed.
use native.Mathlib.Omega.{arith}
use mathlib.Core.Path.{◌≡◌, refl}
use nautobot_proxmox.Python.Result.{Result, err, ok}

abbrev pub Run : Type 0 → Type 0 → Type 0 → Type 0
Run S E A = S → Result E A × S

module _ {S E A B : Type 0} where
  abbrev pub and_then : Result E A × S → (A → Run S E B) → Result E B × S
  and_then (err why, s) k = (err why, s)
  and_then (ok x, s) k = k x s

  infixl 5 ◌>>=◌
  abbrev pub ◌>>=◌ : Run S E A → (A → Run S E B) → Run S E B
  ◌>>=◌ m k s = and_then (m s) k

-- `return x`, and a step that only raises or returns.
abbrev pub pure : {S E A : Type 0} → A → Run S E A
pure x s = (ok x, s)

abbrev pub lift : {S E A : Type 0} → Result E A → Run S E A
lift r s = (r, s)

-- A run that returns has returned at its first step.
pub and_then-ok :
    {S E A B : Type 0} (p : Result E A × S) (k : A → Run S E B) {b : B} {t : S}
    → and_then p k ≡ (ok b, t)
    → (x : A) × (u : S) × (p ≡ (ok x, u)) × (k x u ≡ (ok b, t))
and_then-ok (err why, s) k h = absurd (ground arith)
and_then-ok (ok x, s) k h = (x, s, refl, h)
