-- ===== src/Base/Prefixes.antt =====
-- Prefixes of texts: what `strings.HasPrefix` and `strings.TrimPrefix` say of a concatenation.
use Prim.Native.String.{String}
use mathlib.Core.Path.{◌≡◌, refl, ap₂, sym, ◌∙◌}
use mathlib.Core.Bool.{true}
use native.Mathlib.Omega.{arith}
use text.Mathlib.TextEquality.{Char-path}
use text.Mathlib.TextLemmas.{cons-append, nil-append}
use shepard.Base.Text.{◌<>◌, has_prefix, drop_prefix, trim_prefix}

pub has_prefix-append : (p s : String) → has_prefix (p <> s) p ≡ true
unfolding has_prefix
has_prefix-append String.[] String.[] = refl
has_prefix-append String.[] (String.◌∷◌ c s) = refl
has_prefix-append (String.◌∷◌ c p) s =
    rw (cons-append c p s) (ground (arith, has_prefix-append p s))

drop_prefix-append : (p s : String) → drop_prefix (p <> s) p ≡ s
unfolding drop_prefix
drop_prefix-append String.[] String.[] = refl
drop_prefix-append String.[] (String.◌∷◌ c s) = rw (nil-append (String.◌∷◌ c s)) refl
drop_prefix-append (String.◌∷◌ c p) s = rw (cons-append c p s) (drop_prefix-append p s)

pub trim_prefix-append : (p s : String) → trim_prefix (p <> s) p ≡ s
unfolding trim_prefix
trim_prefix-append p s = rw (has_prefix-append p s) (drop_prefix-append p s)

-- A text with a prefix is the prefix and a rest.
pub has_prefix-split : (s p : String) → has_prefix s p ≡ true → (rest : String) × (s ≡ p <> rest)
unfolding has_prefix
has_prefix-split s String.[] h = (s, sym (nil-append s))
has_prefix-split String.[] (String.◌∷◌ d p) h = absurd (ground arith)
has_prefix-split (String.◌∷◌ c s) (String.◌∷◌ d p) h =
    let same_char : c ≡ d = Char-path c d (ground arith) in
    let (rest, e) = has_prefix-split s p (ground arith) in
    (rest, ap₂ String.◌∷◌ same_char e ∙ sym (cons-append d p rest))
