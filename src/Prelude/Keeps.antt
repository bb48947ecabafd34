-- ===== src/Prelude/Keeps.antt =====
-- Operations that keep what is true of the world.
use beerus.Prelude.Results.{Outcome, ok, err, panic}
use beerus.Prelude.Effects.{Run, then_do}

abbrev pub Keeps : {E W A : Type 0} → (W → Type 0) → Run E W A → Type 0
Keeps {W = W} P m = (w : W) → P w → P (m w).1

-- One after the other.
pub then_do-Keeps :
    {E W A B : Type 0} (P : W → Type 0) (m : Outcome E A × W) (f : A → Run E W B)
    → P m.1
    → ((a : A) → Keeps P (f a))
    → P (then_do m.0 m.1 f).1
then_do-Keeps P (ok a, w) f p kf = kf a w p
then_do-Keeps P (err e, w) f p kf = p
then_do-Keeps P (panic, w) f p kf = p
