-- ===== src/Base/Decimal.antt =====
-- A number in decimal, as a template literal or `BigInt.toString` writes it.
use Prim.Native.Nat.{ℕ, ◌+◌, ◌/◌, ◌%◌, ◌<◌}
use mathlib.Core.Path.{◌≡◌, refl}
use mathlib.Core.Logic.{dite}
use mathlib.Core.List.{[], ◌∷◌}
use mathlib.Core.WellFounded.{Acc}
use native.Mathlib.Decide.{dec_lt}
use native.Mathlib.Omega.{arith}
use freeagents.Base.Text.{Text, codes}
use freeagents.Base.Order.{lt_wf}

-- Puts the digits of `n` in front of `out`, and one digit at least.
unfoldable pub show_acc : (n : ℕ) → Acc ◌<◌ n → Text → Text
show_acc n (Acc.intro _ smaller) out =
    dite (dec_lt 9 n)
      (λ h. show_acc (n / 10) (smaller (n / 10) (omega arith)) ((b'0' + n % 10) ∷ out))
      (λ _. (b'0' + n) ∷ out)

unfoldable pub show : ℕ → Text
unfolding show_acc lt_wf dec_lt
show n = show_acc n (lt_wf.apply n) []

show_test : show 1205 ≡ codes "1205"
unfolding show
show_test = refl

show_zero : show 0 ≡ codes "0"
unfolding show
show_zero = refl
