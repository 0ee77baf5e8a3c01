-- ===== src/Base/Result.antt =====
-- `Result` and the `?` operator.
use mathlib.Core.Path.{◌≡◌, refl, subst}
use mathlib.Core.Bool.{Bool, true, false}
use mathlib.Core.Option.{Option, none, some}

pub data Result (E A : Type 0) : Type 0 where
  ok : A → Result E A
  err : E → Result E A

infixl 10 ◌>>=◌
abbrev pub ◌>>=◌ : {E A B : Type 0} → Result E A → (A → Result E B) → Result E B
ok a >>= f = f a
err e >>= f = err e

abbrev pub ensure : {E : Type 0} → Bool → E → Result E (Unit {0})
ensure true e = ok tt
ensure false e = err e

abbrev pub ok_or : {E A : Type 0} → Option A → E → Result E A
ok_or none e = err e
ok_or (some a) e = ok a

pub ok-inj : {E A : Type 0} (a b : A) → Path (Result E A) (ok a) (ok b) → a ≡ b
ok-inj a b h = cc

-- A property of the value, if there is one.
abbrev pub Holds : {E A : Type 0} → (A → Type 0) → Result E A → Type 0
Holds P (ok a) = P a
Holds P (err e) = Unit

module _ {E A B : Type 0} (P : A → Type 0) (Q : B → Type 0) where
  pub Holds-bind :
      (r : Result E A) (f : A → Result E B)
      → Holds P r
      → ((a : A) → P a → Holds Q (f a))
      → Holds Q (r >>= f)
  Holds-bind (ok a) f h k = k a h
  Holds-bind (err e) f h k = tt

pub ensure-Holds : {E : Type 0} (b : Bool) (e : E) → Holds (λ u. b ≡ true) (ensure b e)
ensure-Holds true e = refl
ensure-Holds false e = tt

pub ok_or-Holds : {E A : Type 0} (o : Option A) (e : E) → Holds (λ a. o ≡ some a) (ok_or o e)
ok_or-Holds none e = tt
ok_or-Holds (some a) e = refl

pub ok-Holds : {E A : Type 0} (P : A → Type 0) (r : Result E A) (a : A) → Holds P r → r ≡ ok a → P a
ok-Holds P (ok b) a h e = subst P (ok-inj b a e) h
ok-Holds P (err k) a h e = cc

pub Holds-map :
    {E A : Type 0} (P Q : A → Type 0) (r : Result E A)
    → ((a : A) → P a → Q a)
    → Holds P r
    → Holds Q r
Holds-map P Q (ok a) k h = k a h
Holds-map P Q (err e) k h = tt

abbrev pub is_ok : {E A : Type 0} → Result E A → Bool
is_ok (ok a) = true
is_ok (err e) = false
