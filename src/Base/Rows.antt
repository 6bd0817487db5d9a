-- ===== src/Base/Rows.antt =====
-- Tables as lists of rows, and the statements that read and change them. `update_where` is
-- UPDATE ... SET ... WHERE, `rows_affected` the count that it reports, `select_first` a query for
-- the first row, and `select_least` a query with ORDER BY and LIMIT 1.
use Prim.Native.Nat.{ℕ, ◌+◌}
use mathlib.Core.Bool.{Bool}
use mathlib.Core.Option.{Option, none, some}
use mathlib.Core.List.{List, [], ◌∷◌}
use forgeci.Base.Tests.{if◌then◌else◌}

module _ {A : Type 0} where
  unfoldable pub update_where : (A → Bool) → (A → A) → List A → List A
  update_where p f [] = []
  update_where p f (x ∷ xs) = (if p x then f x else x) ∷ update_where p f xs

  unfoldable pub count_where : (A → Bool) → List A → ℕ
  count_where p [] = 0
  count_where p (x ∷ xs) = (if p x then 1 else 0) + count_where p xs

  abbrev pub rows_affected : (A → Bool) → List A → ℕ
  rows_affected = count_where

  unfoldable pub select_first : (A → Bool) → List A → Option A
  select_first p [] = none
  select_first p (x ∷ xs) = if p x then some x else select_first p xs

  unfoldable pub select_where : (A → Bool) → List A → List A
  select_where p [] = []
  select_where p (x ∷ xs) = let rest = select_where p xs in if p x then x ∷ rest else rest

  -- The first of the least rows, by a strict order.
  unfoldable pub keep_least : (A → A → Bool) → A → Option A → Option A
  keep_least less x none = some x
  keep_least less x (some y) = if less y x then some y else some x

  unfoldable pub select_least : (A → A → Bool) → List A → Option A
  select_least less [] = none
  select_least less (x ∷ xs) = keep_least less x (select_least less xs)
