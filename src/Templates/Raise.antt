-- ===== src/Templates/Raise.antt =====
-- Code that returns or raises, without state, for do blocks.
use pyceli.Base.{◌≡◌, ◌∙◌, refl, ap}
use pyceli.Manager.Client.{Outcome, ok, err}

infixl 5 ◌>>=◌
abbrev pub ◌>>=◌ : {A B : Type 0} → Outcome A → (A → Outcome B) → Outcome B
ok a >>= f = f a
err e >>= f = err e

pub bind_returns :
    {A B : Type 0} (r : Outcome A) (k : A → Outcome B) {value : B}
    → (r >>= k) ≡ ok value
    → (part : A) × (r ≡ ok part) × (k part ≡ ok value)
bind_returns (ok part) k e = (part, refl, e)
bind_returns (err x) k e = cc

pub ok-injective : {A : Type 0} {a b : A} → ok a ≡ ok b → a ≡ b
ok-injective h = cc

pub bind_ok :
    {A B : Type 0} (r : Outcome A) (k : A → Outcome B) {part : A} {value : Outcome B}
    → r ≡ ok part
    → k part ≡ value
    → (r >>= k) ≡ value
bind_ok r k e d = ap (λ o. o >>= k) e ∙ d
