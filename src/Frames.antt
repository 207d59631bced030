-- ===== src/Frames.antt =====
-- What a handler may do to the database, whether it returns or throws: a relation between the state
-- before and the state after, with one rule for each way to build a handler.
use zex_platform.Base.{◌≡◌, refl, ◌∙◌, Bool, true, false, Option, none, some, List, [], ◌∷◌}
use zex_platform.Base.Effects.{
  Error, Result, ok, err, pure, throw, lift, gets, modify, continue, ◌>>=◌, ◌>>◌, recover,
  try_catch, throw_if, or_throw, for_each, branch, attempt,
}
use zex_platform.Store.{Db, Action}

pub record IsOrder (R : Db → Db → Type 0) : Type 0 where
  pub same : (s : Db) → R s s
  pub chain : (s t u : Db) → R s t → R t u → R s u

pub record Within (R : Db → Db → Type 0) {A : Type 0} (m : Action A) : Type 0 where
  pub run : (s : Db) → R s (m s).1

module _ {R : Db → Db → Type 0} (o : IsOrder R) where
  module _ {A : Type 0} where
    pub pure-Within : (a : A) → Within R (pure a)
    pure-Within a = record { run = o.same }

    pub throw-Within : (e : Error) → Within R {A = A} (throw e)
    throw-Within e = record { run = o.same }

    pub lift-Within : (r : Result A) → Within R (lift r)
    lift-Within r = record { run = o.same }

    pub gets-Within : (f : Db → A) → Within R (gets f)
    gets-Within f = record { run = o.same }

    pub or_throw-Within : (a : Option A) (e : Error) → Within R (or_throw a e)
    or_throw-Within none e = record { run = o.same }
    or_throw-Within (some a) e = record { run = o.same }

  pub throw_if-Within : (b : Bool) (e : Error) → Within R (throw_if b e)
  throw_if-Within true e = record { run = o.same }
  throw_if-Within false e = record { run = o.same }

  module _ {A B : Type 0} where
    pub continue-Within :
        (f : A → Action B) (r : Result A) (s t : Db)
        → ((a : A) → Within R (f a))
        → R s t
        → R s (continue f r t).1
    continue-Within f (ok a) s t kf h = o.chain s t _ h ((kf a).run t)
    continue-Within f (err e) s t kf h = h

    pub bind-Within :
        (m : Action A) (f : A → Action B)
        → Within R m
        → ((a : A) → Within R (f a))
        → Within R (m >>= f)
    bind-Within m f km kf = record { run = λ s. continue-Within f (m s).0 s (m s).1 kf (km.run s) }

    pub then-Within : (m : Action A) (k : Action B) → Within R m → Within R k → Within R (m >> k)
    then-Within m k km kk = record {
      run = λ s. continue-Within (λ _. k) (m s).0 s (m s).1 (λ _. kk) (km.run s);
    }

  pub attempt-Within : {A : Type 0} (m : Action A) → Within R m → Within R (attempt m)
  attempt-Within m km = record { run = km.run }

  module _ {A : Type 0} where
    pub recover-Within :
        (h : Error → Action A) (r : Result A) (s t : Db)
        → ((e : Error) → Within R (h e))
        → R s t
        → R s (recover h r t).1
    recover-Within h (ok a) s t kh k = k
    recover-Within h (err e) s t kh k = o.chain s t _ k ((kh e).run t)

    pub try_catch-Within :
        (m : Action A) (h : Error → Action A)
        → Within R m
        → ((e : Error) → Within R (h e))
        → Within R (try_catch m h)
    try_catch-Within m h km kh = record {
      run = λ s. recover-Within h (m s).0 s (m s).1 kh (km.run s);
    }

    pub branch-Within :
        (b : Bool) (m n : Action A) → Within R m → Within R n → Within R (branch b m n)
    branch-Within true m n km kn = record { run = km.run }
    branch-Within false m n km kn = record { run = kn.run }

    pub for_each-Within :
        (xs : List A) (f : A → Action (Unit {0}))
        → ((a : A) → Within R (f a))
        → Within R (for_each xs f)
    for_each-Within [] f kf = record { run = o.same }
    for_each-Within (x ∷ xs) f kf = record {
      run = λ s. (then-Within (f x) (for_each xs f) (kf x) (for_each-Within xs f kf)).run s;
    }

pub modify-Within :
    {R : Db → Db → Type 0} (f : Db → Db) → ((s : Db) → R s (f s)) → Within R (modify f)
modify-Within f h = record { run = h }

pub ruleset frame_rules = (
  pure-Within, throw-Within, lift-Within, gets-Within, or_throw-Within, throw_if-Within,
  bind-Within, then-Within, modify-Within, try_catch-Within, branch-Within, for_each-Within,
)

-- A view of the database that a handler leaves as it is.
abbrev pub Same : {V : Type 0} → (Db → V) → Db → Db → Type 0
Same v s t = v t ≡ v s

pub Same-IsOrder : {V : Type 0} (v : Db → V) → IsOrder (Same v)
Same-IsOrder v = record { same = λ s. refl; chain = λ s t u p q. q ∙ p }
