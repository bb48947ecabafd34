-- ===== src/Prelude/Effects.antt =====
-- Operations that talk to a service: the state of the world outside is passed from one to the next,
-- and a failure keeps what was already sent.
use mathlib.Core.Path.{◌≡◌, refl}
use beerus.Prelude.Results.{Outcome, ok, err, panic, Error}

abbrev pub Run : Type 0 → Type 0 → Type 0 → Type 0
Run E W A = W → Outcome E A × W

-- With the errors of JSON-RPC.
abbrev pub Io : Type 0 → Type 0 → Type 0
Io W A = Run Error W A

abbrev pub then_do : {E W A B : Type 0} → Outcome E A → W → (A → Run E W B) → Outcome E B × W
then_do (ok a) w f = f a w
then_do (err e) w f = (err e, w)
then_do panic w f = (panic, w)

infixl 5 ◌>>=◌
abbrev pub ◌>>=◌ : {E W A B : Type 0} → Run E W A → (A → Run E W B) → Run E W B
◌>>=◌ m f w = then_do (m w).0 (m w).1 f

-- A step that does not touch the world.
abbrev pub lift : {E W A : Type 0} → Outcome E A → Run E W A
lift m w = (m, w)

-- Inversion of a successful run.
pub then_do-inv :
    {E W A B : Type 0} (m : Outcome E A × W) (f : A → Run E W B) {b : B} {w : W}
    → then_do m.0 m.1 f ≡ (ok b, w)
    → (a : A) × (m ≡ (ok a, m.1)) × (f a m.1 ≡ (ok b, w))
then_do-inv (ok a, w) f h = (a, refl, h)
then_do-inv (err e, w) f h = absurd (ground (native.Mathlib.Omega.arith))
then_do-inv (panic, w) f h = absurd (ground (native.Mathlib.Omega.arith))

-- Two successful runs that end alike.
pub ok-pair :
    {E W A : Type 0} {a b : A} {w w' : W}
    → ◌≡◌ {A = Outcome E A × W} (ok a, w) (ok b, w')
    → (a ≡ b) × (w ≡ w')
ok-pair h = ground (native.Mathlib.Omega.arith)

-- A run that only returns what it was given.
pub then_do-ok : {E W A : Type 0} (m : Outcome E A × W) → then_do m.0 m.1 (λ a w. (ok a, w)) ≡ m
then_do-ok (ok a, w) = refl
then_do-ok (err e, w) = refl
then_do-ok (panic, w) = refl
