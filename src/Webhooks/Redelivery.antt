-- ===== src/Webhooks/Redelivery.antt =====
-- What a webhook must pass to be processed, and what happens when it comes again.
use zex_platform.Base.{
  ℕ, ◌+◌, ◌*◌, ◌<◌, Text, text_eq_refl, ◌≡◌, ◌≢◌, refl, sym, ap, ◌∙◌, ◌⊎◌, inl, inr, Bool, true,
  false, not, arith, List, [], ◌∷◌, any, Bool-cases,
}
use zex_platform.Base.Effects.{Error, Result, ok, err, lift, throw_if, ◌>>=◌, ◌>>◌}
use zex_platform.Store.{SeenKey, Job, Db, Env}
use zex_platform.Frames.{IsOrder, Same, Same-IsOrder, Within, frame_rules}
use zex_platform.Webhooks.Checks.{
  webhook_ttl_seconds, is_live, has_seen, key_of, mark, mark_until, has_seen_or_mark,
}
use zex_platform.Webhooks.Receive.{
  Delivery, Received, is_verified, is_fresh, event_id, set_job, add_job, accept, admit, receive,
}

abbrev seen_of : Db → List SeenKey
seen_of db = db.seen

order : IsOrder (Same seen_of)
order = Same-IsOrder seen_of

add_job-Same : (env : Env) (x : Job) → Within (Same seen_of) (add_job env x)
unfolding add_job
add_job-Same env x = search (frame_rules, order, refl)

set_job-Same : (id k : Text) (s : Db) → Same seen_of s (set_job id k s)
unfolding set_job
set_job-Same id k s = refl

accept-Same :
    (env : Env) (tenant : Text) (d : Delivery) (id : Text)
    → Within (Same seen_of) (accept env tenant d id)
unfolding accept
accept-Same env tenant d id = search (frame_rules, order, add_job-Same, set_job-Same, refl) depth 12

-- A delivery that passed the checks, in a state that had not seen it.
pub record Admitted (env : Env) (now : ℕ) (tenant : Text) (d : Delivery) (s : Db) (t : Db)
    : Type 0 where
  pub secret : Text
  pub from_secret : env.webhook_secret tenant ≡ ok secret
  pub verified : is_verified env d secret ≡ true
  pub fresh : is_fresh env now d ≡ true
  pub unseen : has_seen (event_id env d) now s ≡ false
  pub seen_for_a_day :
      (later : ℕ)
      → later < now + webhook_ttl_seconds * 1000
      → has_seen (event_id env d) later t ≡ true

admit_known :
    (env : Env) (now : ℕ) (tenant : Text) (d : Delivery) (s : Db)
    → has_seen (event_id env d) now s ≡ true
    → admit env now tenant d s ≡ (ok (record { webhook_id = event_id env d; duplicate = true }), s)
unfolding admit has_seen_or_mark
admit_known env now tenant d s h = rw h refl

first_live :
    (id : Text) (now later : ℕ) (l : List SeenKey)
    → later < now + webhook_ttl_seconds * 1000
    → any (is_live (key_of id) later) (mark_until id now ∷ l) ≡ true
first_live id now later l soon = rw (text_eq_refl (key_of id)) (ground (arith, soon))

admit_new :
    (env : Env) (now later : ℕ) (tenant : Text) (d : Delivery) (s : Db)
    → has_seen (event_id env d) now s ≡ false
    → later < now + webhook_ttl_seconds * 1000
    → has_seen (event_id env d) later (admit env now tenant d s).1 ≡ true
unfolding admit has_seen_or_mark
admit_new env now later tenant d s h soon = rw h (
    ap (any (is_live (key_of (event_id env d)) later))
      ((accept-Same env tenant d (event_id env d)).run _)
    ∙ first_live (event_id env d) now later s.seen soon)

-- The checks in front of it.
checked :
    (env : Env) (now : ℕ) (tenant : Text) (d : Delivery) (s : Db) (secret : Text) (v f : Bool)
    (e e' : Error)
    → env.webhook_secret tenant ≡ ok secret
    → is_verified env d secret ≡ v
    → is_fresh env now d ≡ f
    → let t = ((throw_if (not v) e >> (throw_if (not f) e' >> admit env now tenant d)) s).1 in
      (t ≡ s) ⊎ Admitted env now tenant d s t
checked env now tenant d s secret false f e e' k verified fresh = inl refl
checked env now tenant d s secret true false e e' k verified fresh = inl refl
checked env now tenant d s secret true true e e' k verified fresh =
    elim (Bool-cases (has_seen (event_id env d) now s)) [
      | inl known ↦
          inl (ap (λ (x : Result Received × Db). x.1) (admit_known env now tenant d s known))
      | inr unseen ↦ inr (record {
        secret = secret;
        from_secret = k;
        verified = verified;
        fresh = fresh;
        unseen = unseen;
        seen_for_a_day = λ later soon. admit_new env now later tenant d s unseen soon;
      })
    ]

with_secret :
    (env : Env) (now : ℕ) (tenant : Text) (d : Delivery) (s : Db) (r : Result Text) (e e' : Error)
    → env.webhook_secret tenant ≡ r
    → let t =
        ((lift r >>= λ secret.
        throw_if (not (is_verified env d secret)) e
        >> (throw_if (not (is_fresh env now d)) e' >> admit env now tenant d))
          s).1 in
      (t ≡ s) ⊎ Admitted env now tenant d s t
with_secret env now tenant d s (err x) e e' k = inl refl
with_secret env now tenant d s (ok secret) e e' k =
    checked env now tenant d s secret (is_verified env d secret) (is_fresh env now d) e e' k refl
      refl

-- A delivery changes nothing, or its signature was made with the secret of the tenant, its timestamp is
-- fresh, its event had no live mark, and it has one for a day from then on.
pub receive-Admitted :
    (env : Env) (now : ℕ) (tenant : Text) (d : Delivery) (s : Db)
    → let t = (receive env now tenant d s).1 in (t ≡ s) ⊎ Admitted env now tenant d s t
unfolding receive
receive-Admitted env now tenant d s =
    with_secret env now tenant d s (env.webhook_secret tenant) _ _ refl

-- A delivery with the time at which it comes and the tenant that it names.
pub record Arrival : Type 0 where
  pub at : ℕ
  pub tenant : Text
  pub delivery : Delivery

abbrev pub receive_all : Env → List Arrival → Db → Db
receive_all env [] s = s
receive_all env (a ∷ rest) s = receive_all env rest (receive env a.at a.tenant a.delivery s).1

module _ (id : Text) (later : ℕ) where
  -- A mark that is live at a time is not lost.
  abbrev Remembers : Db → Db → Type 0
  Remembers s t = has_seen id later s ≡ true → has_seen id later t ≡ true

  memory : IsOrder Remembers
  memory = record { same = λ s h. h; chain = λ s t u f g h. g (f h) }

  accept-Remembers :
      (env : Env) (tenant : Text) (d : Delivery) (i : Text)
      → Within Remembers (accept env tenant d i)
  accept-Remembers env tenant d i = record {
    run = λ s h. ap (any (is_live (key_of id) later)) ((accept-Same env tenant d i).run s) ∙ h;
  }

  mark-Remembers : (i : Text) (now : ℕ) (s : Db) → Remembers s (mark i now s)
  unfolding mark
  mark-Remembers i now s h = elim (Bool-cases (has_seen i now s)) [
    | inl known ↦ rw known h
    | inr unseen ↦ rw unseen (ground (arith, h))
  ]

  receive-Remembers :
      (env : Env) (now : ℕ) (tenant : Text) (d : Delivery)
      → Within Remembers (receive env now tenant d)
  unfolding receive admit has_seen_or_mark
  receive-Remembers env now tenant d =
      search (frame_rules, memory, accept-Remembers, mark-Remembers) depth 12

  receive_all-Remembers :
      (env : Env) (l : List Arrival) (s : Db) → Remembers s (receive_all env l s)
  receive_all-Remembers env [] s h = h
  receive_all-Remembers env (a ∷ l) s h =
      receive_all-Remembers env l _ ((receive-Remembers env a.at a.tenant a.delivery).run s h)

-- Once a delivery has changed anything, a delivery with the same event id less than a day later changes
-- nothing, whatever else came in between, for any tenant and whatever else it holds, also where the first
-- was not processed to its end.
pub again-receive :
    (env : Env) (now later : ℕ) (tenant other : Text) (d again : Delivery) (between : List Arrival)
    (s : Db)
    → let t = (receive env now tenant d s).1 in
      let u = receive_all env between t in
      t ≢ s
      → event_id env again ≡ event_id env d
      → later < now + webhook_ttl_seconds * 1000
      → (receive env later other again u).1 ≡ u
again-receive env now later tenant other d again between s changed same soon =
    elim (receive-Admitted env now tenant d s) [
      | inl nothing ↦ absurd (changed nothing)
      | inr first ↦
          let u = receive_all env between (receive env now tenant d s).1 in
          elim (receive-Admitted env later other again u) [
            | inl nothing ↦ nothing
            | inr second ↦ absurd (
                clash (has_seen (event_id env d) later u)
                  (receive_all-Remembers (event_id env d) later env between _
                    (first.seen_for_a_day later soon))
                  (ap (λ x. has_seen x later u) (sym same) ∙ second.unseen))
          ]
    ]
  where
    clash : (b : Bool) → b ≡ true → b ≢ false
    clash b e f = ground (arith, e, f)
