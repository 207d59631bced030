-- ===== src/Base/Effects.antt =====
-- Async handlers of the services: they read and write the database, and may throw. What was written
-- before a throw stays written, since the handlers open no transaction.
use mathlib.Core.Bool.{Bool, true, false}
use mathlib.Core.Option.{Option, none, some}
use mathlib.Core.List.{List, [], ◌∷◌}
use zex_platform.Base.Texts.{Text}

-- The exceptions of the framework by their HTTP status, and a plain `Error`.
pub data Error : Type 0 where
  bad_request not_found conflict unauthorized plain : Text → Error

-- `err.message`
abbrev pub message : Error → Text
message (bad_request m) = m
message (not_found m) = m
message (conflict m) = m
message (unauthorized m) = m
message (plain m) = m

pub data Result {ℓ} (A : Type ℓ) : Type ℓ where
  ok : A → Result A
  err : Error → Result A

module _ {S : Type 0} where
  abbrev pub pure : {A : Type 0} → A → S → Result A × S
  pure a s = (ok a, s)

  abbrev pub throw : {A : Type 0} → Error → S → Result A × S
  throw e s = (err e, s)

  abbrev pub lift : {A : Type 0} → Result A → S → Result A × S
  lift r s = (r, s)

  abbrev pub gets : {A : Type 0} → (S → A) → S → Result A × S
  gets f s = (ok (f s), s)

  abbrev pub modify : (S → S) → S → Result (Unit {0}) × S
  modify f s = (ok tt, f s)

  -- The handler's rest after an `await` that gave `r`.
  abbrev pub continue : {A B : Type 0} → (A → S → Result B × S) → Result A → S → Result B × S
  continue f (ok a) s = f a s
  continue f (err e) s = (err e, s)

  infixl 5 ◌>>=◌ ◌>>◌
  abbrev pub ◌>>=◌ : {A B : Type 0} → (S → Result A × S) → (A → S → Result B × S) → S → Result B × S
  ◌>>=◌ m f s = let (r, s') = m s in continue f r s'

  abbrev pub ◌>>◌ : {A B : Type 0} → (S → Result A × S) → (S → Result B × S) → S → Result B × S
  ◌>>◌ m k s = let (r, s') = m s in continue (λ _. k) r s'

  abbrev pub recover : {A : Type 0} → (Error → S → Result A × S) → Result A → S → Result A × S
  recover h (ok a) s = (ok a, s)
  recover h (err e) s = h e s

  -- The result of a call as a value, in the place of a throw.
  abbrev pub attempt : {A : Type 0} → (S → Result A × S) → S → Result (Result A) × S
  attempt m s = let (r, s') = m s in (ok r, s')

  -- `try { m } catch (e) { h e }`
  abbrev pub try_catch :
      {A : Type 0} → (S → Result A × S) → (Error → S → Result A × S) → S → Result A × S
  try_catch m h s = let (r, s') = m s in recover h r s'

  abbrev pub throw_if : Bool → Error → S → Result (Unit {0}) × S
  throw_if true e s = (err e, s)
  throw_if false e s = (ok tt, s)

  -- `if (b) m; else n;`
  abbrev pub branch :
      {A : Type 0} → Bool → (S → Result A × S) → (S → Result A × S) → S → Result A × S
  branch true m n s = m s
  branch false m n s = n s

  -- A lookup that throws where there is no row.
  abbrev pub or_throw : {A : Type 0} → Option A → Error → S → Result A × S
  or_throw none e s = (err e, s)
  or_throw (some a) e s = (ok a, s)

  abbrev pub for_each :
      {A : Type 0} → List A → (A → S → Result (Unit {0}) × S) → S → Result (Unit {0}) × S
  for_each [] f s = (ok tt, s)
  for_each (x ∷ xs) f s = (f x >> for_each xs f) s
