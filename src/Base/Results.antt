-- ===== src/Base/Results.antt =====
-- The outcome of a fallible call: a value or one of the errors that the store and its callers tell
-- apart. `refused` carries the text of an error that nobody inspects.
use Prim.Native.String.{String}
use mathlib.Core.Path.{◌≡◌, refl, ap}
use mathlib.Core.Logic.{◌⊎◌, inl, inr}
use mathlib.Core.Bool.{Bool, true, false}
use forgeci.Base.Tests.{if◌then◌else◌}
use mathlib.Core.Option.{Option, none, some}

pub data Error : Type 0 where
  not_found conflict no_rows : Error
  refused : String → Error

pub data Result {ℓ} (A : Type ℓ) : Type ℓ where
  err : Error → Result A
  ok : A → Result A

infixl 5 ◌>>=◌ ◌>>◌
abbrev pub ◌>>=◌ {ℓ κ} : {A : Type ℓ} {B : Type κ} → Result A → (A → Result B) → Result B
err reason >>= next = err reason
ok value >>= next = next value

abbrev pub guard : Bool → Error → Result (Unit {0})
guard holds reason = if holds then ok tt else err reason

abbrev pub ◌>>◌ {κ} : {B : Type κ} → Result (Unit {0}) → Result B → Result B
first >> second = first >>= λ _. second

abbrev pub or_fail {ℓ} : {A : Type ℓ} → Option A → Error → Result A
or_fail none e = err e
or_fail (some a) e = ok a

-- Inversion of a chain that succeeds.
pub >>=-eq-ok {ℓ κ} :
    {A : Type ℓ} {B : Type κ} (call : Result A) (next : A → Result B) {b : B}
    → (call >>= next) ≡ ok b
    → (value : A) × (call ≡ ok value) × (next value ≡ ok b)
>>=-eq-ok (err reason) next success = cc
>>=-eq-ok (ok value) next success = (value, refl, success)

pub ok-injective {ℓ} : {A : Type ℓ} {a b : A} → ok a ≡ ok b → a ≡ b
ok-injective h = cc

pub guard-true : (b : Bool) (e : Error) {u : Unit {0}} → guard b e ≡ ok u → b ≡ true
guard-true true e h = refl
guard-true false e h = cc

pub or_fail-some {ℓ} :
    {A : Type ℓ} (o : Option A) (e : Error) {a : A} → or_fail o e ≡ ok a → o ≡ some a
or_fail-some none e h = cc
or_fail-some (some b) e h = ap some (ok-injective h)

-- What a computed value may be, for a split on it.
abbrev pub in_option {ℓ} : {A : Type ℓ} → (x : Option A) → (x ≡ none) ⊎ ((v : A) × (x ≡ some v))
in_option none = inl refl
in_option (some v) = inr (v, refl)

abbrev pub in_result {ℓ} :
    {A : Type ℓ} → (x : Result A) → ((e : Error) × (x ≡ err e)) ⊎ ((v : A) × (x ≡ ok v))
in_result (err e) = inl (e, refl)
in_result (ok v) = inr (v, refl)
