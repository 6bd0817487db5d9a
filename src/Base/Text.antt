-- ===== src/Base/Text.antt =====
-- Go strings, compared byte by byte.
use Prim.Native.String.{String, compare}
use mathlib.Core.Path.{◌≡◌, refl, sym, ◌∙◌}
use mathlib.Core.Logic.{◌↔◌, inl, inr}
use mathlib.Core.Bool.{Bool, true, false, false≢true}
use forgeci.Base.Tests.{Bool-cases, if◌then◌else◌}
use mathlib.Core.List.{List, [], ◌∷◌}
use text.Mathlib.Text.{◌==◌, is_lt}
use mathlib.Core.List.{List, [], ◌∷◌}
use text.Mathlib.TextEquality.{eq_iff}

unfoldable pub str_eq : String → String → Bool
str_eq s t = s == t

unfoldable pub str_lt : String → String → Bool
str_lt s t = is_lt (compare s t)

pub str_eq_iff : (s t : String) → (str_eq s t ≡ true) ↔ (s ≡ t)
unfolding str_eq
str_eq_iff s t = eq_iff s t

pub str_eq_refl : (s : String) → str_eq s s ≡ true
str_eq_refl s = (str_eq_iff s s).1 refl

pub str_eq_comm : (s t : String) → str_eq s t ≡ str_eq t s
str_eq_comm s t = elim (Bool-cases (str_eq s t)) [
  | inl e ↦ e ∙ sym ((str_eq_iff t s).1 (sym ((str_eq_iff s t).0 e)))
  | inr e ↦ elim (Bool-cases (str_eq t s)) [
    | inl f ↦ (str_eq_iff s t).1 (sym ((str_eq_iff t s).0 f)) ∙ sym f
    | inr f ↦ e ∙ sym f
  ]
]

pub str_eq-apart : (s t u : String) → str_eq s t ≡ true → str_eq s u ≡ false → str_eq u t ≡ false
str_eq-apart s t u same apart = elim (Bool-cases (str_eq u t)) [
  | inl e ↦
      let here : s ≡ u = (str_eq_iff s t).0 same ∙ sym ((str_eq_iff u t).0 e) in
      absurd (false≢true (sym apart ∙ (str_eq_iff s u).1 here))
  | inr e ↦ e
]

-- sort.Strings, which gives equal strings in either order.
unfoldable pub insert_name : String → List String → List String
insert_name n [] = n ∷ []
insert_name n (m ∷ ms) = if str_lt m n then m ∷ insert_name n ms else n ∷ m ∷ ms

unfoldable pub sort_names : List String → List String
sort_names [] = []
sort_names (n ∷ ns) = insert_name n (sort_names ns)
