-- ===== src/Base/CodePoints.antt =====
-- A Go string as the list of its code points, where the code looks inside it.
use Prim.Native.Nat.{ℕ}
use Prim.Native.Char.{code}
use Prim.Native.String.{String}
use mathlib.Core.Path.{◌≡◌, refl}
use mathlib.Core.Bool.{Bool, true, false, ◌&&◌, ◌||◌}
use mathlib.Core.List.{List, [], ◌∷◌}
use native.Mathlib.Omega.{arith}
use forgeci.Base.Tests.{◌==◌, leb}
use forgeci.Base.Lists.{any}

abbrev pub Codes : Type 0
Codes = List ℕ

unfoldable pub codes : String → Codes
codes String.[] = []
codes (String.◌∷◌ c s) = code c ∷ codes s

-- `a == b`.
unfoldable pub same_codes : Codes → Codes → Bool
same_codes [] [] = true
same_codes (a ∷ s) (b ∷ t) = (a == b) && same_codes s t
same_codes _ _ = false

-- strings.ContainsRune.
unfoldable pub has_code : ℕ → Codes → Bool
has_code c s = any (λ d. d == c) s

-- strings.HasPrefix.
unfoldable pub has_prefix : (prefix s : Codes) → Bool
has_prefix [] s = true
has_prefix (p ∷ ps) [] = false
has_prefix (p ∷ ps) (c ∷ s) = (c == p) && has_prefix ps s

abbrev pub is_within : ℕ → ℕ → ℕ → Bool
is_within low high c = leb low c && leb c high

-- unicode.IsControl.
unfoldable pub is_control : ℕ → Bool
is_control c = leb c 0x1f || is_within 0x7f 0x9f c

-- unicode.IsSpace.
unfoldable pub is_space : ℕ → Bool
is_space c =
    is_within 0x09 0x0d c
    || ((c == 0x20)
        || ((c == 0x85)
            || ((c == 0xa0)
                || ((c == 0x1680)
                    || (is_within 0x2000 0x200a c
                        || (is_within 0x2028 0x2029 c
                            || ((c == 0x202f) || ((c == 0x205f) || (c == 0x3000)))))))))

unfoldable pub is_alphanumeric : ℕ → Bool
is_alphanumeric c = is_within b'A' b'Z' c || (is_within b'a' b'z' c || is_within b'0' b'9' c)

pub same_codes-eq : (s t : Codes) → same_codes s t ≡ true → s ≡ t
unfolding same_codes
same_codes-eq [] [] h = refl
same_codes-eq [] (b ∷ t) h = cc
same_codes-eq (a ∷ s) [] h = cc
same_codes-eq (a ∷ s) (b ∷ t) h = ground (arith, h, same_codes-eq s t)

pub same_codes_refl : (s : Codes) → same_codes s s ≡ true
unfolding same_codes
same_codes_refl [] = refl
same_codes_refl (a ∷ s) = ground (arith, same_codes_refl s)
