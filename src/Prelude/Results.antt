-- ===== src/Prelude/Results.antt =====
-- What a fallible operation ends in, and the state passing of operations that talk to a service.
use mathlib.Core.Path.{◌≡◌, refl}
use mathlib.Core.Logic.{◌⊎◌, inl, inr}
use mathlib.Core.Option.{Option, none, some}
use beerus.Prelude.Text.{Str}
use beerus.Prelude.Int.{ℤ}

-- `Result<A, E>`, and the panic that an index out of range or an `unwrap` raises.
pub data Outcome {ℓ κ} (E : Type ℓ) (A : Type κ) : Type (ℓ ⊔ κ) where
  ok : A → Outcome E A
  err : E → Outcome E A
  panic : Outcome E A

-- The `?` operator.
infixl 5 ◌>>=◌
abbrev pub ◌>>=◌ {ℓ κ μ} :
    {E : Type ℓ} {A : Type κ} {B : Type μ} → Outcome E A → (A → Outcome E B) → Outcome E B
ok a >>= f = f a
err e >>= f = err e
panic >>= f = panic

-- `map_err`.
abbrev pub map_err {ℓ κ μ} :
    {E : Type ℓ} {E' : Type κ} {A : Type μ} → (E → E') → Outcome E A → Outcome E' A
map_err g (ok a) = ok a
map_err g (err e) = err (g e)
map_err g panic = panic

-- `ok_or`.
abbrev pub ok_or {ℓ κ} : {E : Type ℓ} {A : Type κ} → E → Option A → Outcome E A
ok_or e none = err e
ok_or e (some a) = ok a

-- What runs to a value ran through its first part.
pub >>=-inv {ℓ κ μ} :
    {E : Type ℓ} {X : Type κ} {Y : Type μ} (first : Outcome E X) (next : X → Outcome E Y) {y : Y}
    → first >>= next ≡ ok y
    → (x : X) × (first ≡ ok x) × (next x ≡ ok y)
>>=-inv panic next e = cc
>>=-inv (err _) next e = cc
>>=-inv (ok x) next e = (x, refl, e)

-- An error that is replaced, or an absent value that is reported, is no value.
pub map_err-inv {ℓ κ μ} :
    {E : Type ℓ} {E' : Type κ} {A : Type μ} (g : E → E') (m : Outcome E A) {a : A}
    → map_err g m ≡ ok a
    → m ≡ ok a
map_err-inv g (ok a) h = cc
map_err-inv g (err e) h = cc
map_err-inv g panic h = cc

pub ok_or-inv {ℓ κ} :
    {E : Type ℓ} {A : Type κ} (e : E) (o : Option A) {a : A} → ok_or e o ≡ ok a → o ≡ some a
ok_or-inv e none h = cc
ok_or-inv e (some a) h = cc

-- To split on an outcome and keep the equation.
pub Outcome-cases {ℓ κ} :
    {E : Type ℓ} {A : Type κ} (m : Outcome E A)
    → ((a : A) × (m ≡ ok a)) ⊎ (((e : E) × (m ≡ err e)) ⊎ (m ≡ panic))
Outcome-cases (ok a) = inl (a, refl)
Outcome-cases (err e) = inr (inl (e, refl))
Outcome-cases panic = inr (inr refl)

-- `iamgroot::jsonrpc::Error`.
pub record Error : Type 0 where
  pub code : ℤ
  pub message : Str
