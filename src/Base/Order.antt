-- ===== src/Base/Order.antt =====
-- The order of texts is strict and total.
use Prim.Native.Char.{code}
use Prim.Native.String.{String}
use mathlib.Core.Path.{◌≡◌, refl, ap₂}
use mathlib.Core.Logic.{◌≢◌, inl, inr}
use mathlib.Core.Bool.{true, false}
use native.Mathlib.Omega.{arith}
use text.Mathlib.TextEquality.{Char-path}
use shepard.Base.Tests.{◌==◌, nat_eq, Bool-cases}
use shepard.Base.Text.{text_lt}

pub text_lt_irrefl : (s : String) → text_lt s s ≡ false
unfolding text_lt
text_lt_irrefl String.[] = refl
text_lt_irrefl (String.◌∷◌ c s) = ground (arith, text_lt_irrefl s)

pub text_lt_trans : (s t u : String) → text_lt s t ≡ true → text_lt t u ≡ true → text_lt s u ≡ true
unfolding text_lt
text_lt_trans s t String.[] h k = absurd (ground arith)
text_lt_trans s String.[] (String.◌∷◌ e u) h k = absurd (ground arith)
text_lt_trans String.[] (String.◌∷◌ d t) (String.◌∷◌ e u) h k = refl
text_lt_trans (String.◌∷◌ c s) (String.◌∷◌ d t) (String.◌∷◌ e u) h k =
    ground (arith, text_lt_trans s t u)

pub text_lt_connected : (s t : String) → s ≢ t → text_lt s t ≡ false → text_lt t s ≡ true
unfolding text_lt
text_lt_connected String.[] String.[] h k = absurd (h refl)
text_lt_connected (String.◌∷◌ c s) String.[] h k = refl
text_lt_connected String.[] (String.◌∷◌ d t) h k = absurd (ground arith)
text_lt_connected (String.◌∷◌ c s) (String.◌∷◌ d t) h k = elim (Bool-cases (code c == code d)) [
  | inl same ↦
      let same_char : c ≡ d = Char-path c d (ground arith) in
      ground (arith, text_lt_connected s t (λ e. h (ap₂ String.◌∷◌ same_char e)))
  | inr other ↦ ground arith
]
