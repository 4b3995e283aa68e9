-- ===== src/Base/Panics.antt =====
-- Code that may panic: a bounds check that fails, or an `expect` or `unwrap` of nothing. The release
-- profile aborts on a panic, so nothing runs after one.
use mathlib.Core.Path.{◌≡◌, refl}
use mathlib.Core.Option.{Option, none, some}

pub data Checked {ℓ} (A : Type ℓ) : Type ℓ where
  panic : Checked A
  value : A → Checked A

infixl 5 ◌>>=◌
abbrev pub ◌>>=◌ {ℓ κ} : {A : Type ℓ} {B : Type κ} → Checked A → (A → Checked B) → Checked B
panic >>= f = panic
value a >>= f = f a

-- `expect` and `unwrap`, and the bounds check of an index.
abbrev pub checked {ℓ} : {A : Type ℓ} → Option A → Checked A
checked none = panic
checked (some a) = value a

pub bind_assoc {ℓ κ μ} :
    {A : Type ℓ} {B : Type κ} {C : Type μ} (m : Checked A) (f : A → Checked B) (g : B → Checked C)
    → (m >>= f >>= g) ≡ (m >>= λ a. f a >>= g)
bind_assoc panic f g = refl
bind_assoc (value a) f g = refl
