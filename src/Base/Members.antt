-- ===== src/Base/Members.antt =====
-- What a SELECT returns stands in its table.
use mathlib.Core.Path.{◌≡◌}
use mathlib.Core.Logic.{◌⊎◌, inl, inr}
use mathlib.Core.Bool.{Bool, true}
use mathlib.Core.Option.{Option, none, some}
use mathlib.Core.List.{List, [], ◌∷◌, ◌++◌, Memᴰ}
use native.Mathlib.Omega.{arith}
use forgeci.Base.Tests.{Bool-cases, if◌then◌else◌}
use forgeci.Base.Rows.{keep_least, select_least, select_where}

module _ {A : Type 0} where
  keep_least-cases :
      (less : A → A → Bool) (x : A) (o : Option A) (y : A)
      → keep_least less x o ≡ some y
      → (y ≡ x) ⊎ (o ≡ some y)
  unfolding keep_least
  keep_least-cases less x none y h = ground arith
  keep_least-cases less x (some z) y h = ground arith

  pub select_least-mem :
      (less : A → A → Bool) (xs : List A) (y : A) → select_least less xs ≡ some y → Memᴰ y xs
  unfolding select_least
  select_least-mem less [] y h = cc
  select_least-mem less (x ∷ xs) y h = elim (keep_least-cases less x (select_least less xs) y h) [
    | inl e ↦ Memᴰ.head e
    | inr e ↦ Memᴰ.tail (select_least-mem less xs y e)
  ]

  pub mem-nil : {y : A} → Memᴰ y [] → ⊥
  mem-nil m = elim m [ ]

  pub mem-cons : {y x : A} {xs : List A} → Memᴰ y (x ∷ xs) → (y ≡ x) ⊎ Memᴰ y xs
  mem-cons (Memᴰ.head e) = inl e
  mem-cons (Memᴰ.tail m) = inr m

  mem-kept :
      (p : A → Bool) (x : A) (xs zs : List A) (y : A)
      → (Memᴰ y zs → Memᴰ y xs × (p y ≡ true))
      → Memᴰ y (if p x then x ∷ zs else zs)
      → Memᴰ y (x ∷ xs) × (p y ≡ true)
  mem-kept p x xs zs y ih m = elim (Bool-cases (p x)) [
    | inl e ↦ elim (mem-cons (rw e at m)) [
      | inl same ↦ (Memᴰ.head same, rw same e)
      | inr m' ↦ (Memᴰ.tail (ih m').0, (ih m').1)
    ]
    | inr e ↦ let h = ih (rw e at m) in (Memᴰ.tail h.0, h.1)
  ]

  pub mem-select_where :
      (p : A → Bool) (xs : List A) (y : A) → Memᴰ y (select_where p xs) → Memᴰ y xs × (p y ≡ true)
  unfolding select_where
  mem-select_where p [] y m = absurd (mem-nil m)
  mem-select_where p (x ∷ xs) y m =
      mem-kept p x xs (select_where p xs) y (mem-select_where p xs y) m

  pub mem-append : (xs ys : List A) (y : A) → Memᴰ y (xs ++ ys) → Memᴰ y xs ⊎ Memᴰ y ys
  mem-append [] ys y m = inr m
  mem-append (x ∷ xs) ys y m = elim (mem-cons m) [
    | inl e ↦ inl (Memᴰ.head e)
    | inr m' ↦ elim (mem-append xs ys y m') [ inl a ↦ inl (Memᴰ.tail a) | inr b ↦ inr b ]
  ]
