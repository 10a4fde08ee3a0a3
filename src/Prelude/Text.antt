-- ===== src/Prelude/Text.antt =====
-- Texts are compared whole: ids, names and roles.
use Prim.Native.String.{String}
use mathlib.Core.Path.{◌≡◌}
use mathlib.Core.Logic.{◌↔◌}
use mathlib.Core.Bool.{Bool, true, false, ◌||◌}
use mathlib.Core.List.{List, [], ◌∷◌}
use native.Mathlib.Omega.{arith}
use text.Mathlib.TextEquality.{eq_iff}
pub use text.Mathlib.Text.{◌==◌ as str_eq}
use auxifyai.Prelude.Lists.{Any}

-- `xs.includes(a)` on an array of texts.
abbrev pub contains : List String → String → Bool
contains [] a = false
contains (x ∷ xs) a = str_eq a x || contains xs a

pub contains_iff : (xs : List String) (a : String) → (contains xs a ≡ true) ↔ Any (λ x. a ≡ x) xs
contains_iff [] a = (λ h. cc, λ h. absurd h)
contains_iff (x ∷ xs) a =
    (ground (arith, eq_iff a x, contains_iff xs a), ground (arith, eq_iff a x, contains_iff xs a))

pub str_eq-false_sym : (a b : String) → str_eq a b ≡ false → str_eq b a ≡ false
str_eq-false_sym a b h = ground (arith, eq_iff a b, eq_iff b a)
