-- ===== src/Outcomes.antt =====
-- What a handler that returned has done: one lemma for each way to build a handler, from its result
-- back to the results of its parts.
use zex_platform.Base.{◌≡◌, ◌⊎◌, inl, inr, refl, ap, Bool, true, false, Option, none, some, arith}
use zex_platform.Base.Effects.{
  Error, Result, ok, err, pure, lift, continue, ◌>>=◌, ◌>>◌, throw_if, or_throw,
}
use zex_platform.Store.{Db, Action}

-- A part that returned, in the state it left.
pub record Returns {A : Type 0} (m : Action A) (s : Db) (rest : A → Db → Type 0) : Type 0 where
  pub value : A
  pub left : Db
  pub here : m s ≡ (ok value, left)
  pub next : rest value left

module _ {A B : Type 0} where
  continue_returns :
      (m : Action A) (f : A → Action B) (s : Db) (b : B) (t : Db) (r : Result A) (u : Db)
      → m s ≡ (r, u)
      → continue f r u ≡ (ok b, t)
      → Returns m s (λ a v. f a v ≡ (ok b, t))
  continue_returns m f s b t (ok a) u e h = record { value = a; left = u; here = e; next = h }
  continue_returns m f s b t (err x) u e h = ground arith

  pub bind_returns :
      (m : Action A) (f : A → Action B) (s : Db) (b : B) (t : Db)
      → (m >>= f) s ≡ (ok b, t)
      → Returns m s (λ a v. f a v ≡ (ok b, t))
  bind_returns m f s b t h = continue_returns m f s b t (m s).0 (m s).1 refl h

  pub then_returns :
      (m : Action A) (k : Action B) (s : Db) (b : B) (t : Db)
      → (m >> k) s ≡ (ok b, t)
      → Returns m s (λ _ v. k v ≡ (ok b, t))
  then_returns m k s b t h = continue_returns m (λ _. k) s b t (m s).0 (m s).1 refl h

pub throw_if_returns :
    (b : Bool) (e : Error) (s : Db) (u : Unit {0}) (t : Db)
    → throw_if b e s ≡ (ok u, t)
    → (b ≡ false) × (s ≡ t)
throw_if_returns true e s u t h = ground arith
throw_if_returns false e s u t h = (refl, ap (λ (x : Result (Unit {0}) × Db). x.1) h)

pub or_throw_returns :
    {A : Type 0} (o : Option A) (e : Error) (s : Db) (a : A) (t : Db)
    → or_throw o e s ≡ (ok a, t)
    → (o ≡ some a) × (s ≡ t)
or_throw_returns none e s a t h = ground arith
or_throw_returns (some x) e s a t h = (ground arith, ap (λ (x : Result _ × Db). x.1) h)

-- The same for a part with one way to return, and its continuation.
module _ {B : Type 0} where
  pub throw_if_then :
      (b : Bool) (e : Error) (k : Action B) (s : Db) (a : B) (t : Db)
      → (throw_if b e >> k) s ≡ (ok a, t)
      → (b ≡ false) × (k s ≡ (ok a, t))
  throw_if_then true e k s a t h = ground arith
  throw_if_then false e k s a t h = (refl, h)

  pub or_throw_then :
      {A : Type 0} (o : Option A) (e : Error) (f : A → Action B) (s : Db) (b : B) (t : Db)
      → (or_throw o e >>= f) s ≡ (ok b, t)
      → (a : A) × (o ≡ some a) × (f a s ≡ (ok b, t))
  or_throw_then none e f s b t h = ground arith
  or_throw_then (some a) e f s b t h = (a, refl, h)

pub lift_then :
    {A B : Type 0} (r : Result A) (k : Action B) (s : Db) (b : B) (t : Db)
    → (lift r >> k) s ≡ (ok b, t)
    → k s ≡ (ok b, t)
lift_then (ok a) k s b t h = h
lift_then (err e) k s b t h = ground arith

-- A handler returned or threw.
pub outcome :
    {A : Type 0} (r : Result A × Db) → ((e : Error) × (r.0 ≡ err e)) ⊎ ((a : A) × (r ≡ (ok a, r.1)))
outcome (ok a, s) = inr (a, refl)
outcome (err e, s) = inl (e, refl)

module _ {A B : Type 0} where
  pub bind_stops :
      (m : Action A) (f : A → Action B) (s : Db) (e : Error)
      → (m s).0 ≡ err e
      → (m >>= f) s ≡ (err e, (m s).1)
  bind_stops m f s e h = ap (λ r. continue f r (m s).1) h

  pub bind_goes :
      (m : Action A) (f : A → Action B) (s : Db) (a : A) (t : Db)
      → m s ≡ (ok a, t)
      → (m >>= f) s ≡ f a t
  bind_goes m f s a t h = ap (λ (r : Result A × Db). continue f r.0 r.1) h

pub pure_returns :
    {A : Type 0} (a : A) (s : Db) (b : A) (t : Db) → pure a s ≡ (ok b, t) → (a ≡ b) × (s ≡ t)
pure_returns {A} a s b t h =
    (ap (λ (r : Result A × Db). value r.0) h, ap (λ (r : Result A × Db). r.1) h)
  where
    value : Result A → A
    value (ok x) = x
    value (err e) = a
