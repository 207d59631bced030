-- ===== src/Sdr/Superseding.antt =====
-- A new draft replaces the open drafts of its purpose.
use zex_platform.Base.{
  Text, text_eq, text_eq_refl, ◌≡◌, refl, sym, ap, subst, ◌∙◌, Bool, true, false, List, [], ◌∷◌,
  inl, inr, arith, All, select, update_where, Bool-cases, any,
}
use zex_platform.Base.Effects.{Result, ok, for_each}
use zex_platform.Store.{DraftStatus, Purpose, Sequence, Content, Draft, Db, Env, log}
use zex_platform.Outcomes.{then_returns, pure_returns}
use zex_platform.Sdr.Statuses.{is_open}
use zex_platform.Sdr.Drafts.{
  set_draft_status, revoke_approvals, supersede, add_draft, advance_sequence, store_draft, is_prior,
  new_draft,
}

abbrev superseded : Draft → Draft
superseded d = record d { status = DraftStatus.superseded }

-- The drafts after the rows of a list were superseded one by one.
abbrev replaced : List Draft → List Draft → List Draft
replaced [] ds = ds
replaced (p ∷ ps) ds = replaced ps (update_where (λ d. text_eq d.id p.id) superseded ds)

module _ (tenant sequence_id : Text) (purpose : Purpose) where
  abbrev prior : Draft → Bool
  prior = is_prior tenant sequence_id purpose

  -- The drafts that are still open have their ids in the list.
  abbrev Listed : List Draft → Draft → Type 0
  Listed ps d = prior d ≡ true → any (λ p. text_eq d.id p.id) ps ≡ true

  step-Listed :
      (p : Draft) (ps ds : List Draft)
      → All (Listed (p ∷ ps)) ds
      → All (Listed ps) (update_where (λ d. text_eq d.id p.id) superseded ds)
  unfolding update_where is_open
  step-Listed p ps [] h = tt
  step-Listed p ps (d ∷ ds) (h, hs) = elim (Bool-cases (text_eq d.id p.id)) [
    | inl its ↦ rw its ((λ now. ground (arith, now)), step-Listed p ps ds hs)
    | inr others ↦ rw others ((λ still. ground (arith, others, h still)), step-Listed p ps ds hs)
  ]

  nothing_left : (ds : List Draft) → All (Listed []) ds → All (λ d. prior d ≡ false) ds
  nothing_left [] h = tt
  nothing_left (d ∷ ds) (h, hs) = (ground (arith, h), nothing_left ds hs)

  replaced-Listed :
      (ps ds : List Draft) → All (Listed ps) ds → All (λ d. prior d ≡ false) (replaced ps ds)
  replaced-Listed [] ds h = nothing_left ds h
  replaced-Listed (p ∷ ps) ds h = replaced-Listed ps _ (step-Listed p ps ds h)

  weaken : (p : Draft) (ps ds : List Draft) → All (Listed ps) ds → All (Listed (p ∷ ps)) ds
  weaken p ps [] h = tt
  weaken p ps (d ∷ ds) (h, hs) = ((λ now. ground (arith, h now)), weaken p ps ds hs)

  -- Every prior draft is in the list of the prior drafts.
  select-Listed : (ds : List Draft) → All (Listed (select prior ds)) ds
  unfolding select
  select-Listed [] = tt
  select-Listed (d ∷ ds) = elim (Bool-cases (prior d)) [
    | inl its ↦
        let picked : select prior (d ∷ ds) ≡ d ∷ select prior ds = ground (arith, its) in
        subst (λ ps. All (Listed ps) (d ∷ ds)) (sym picked)
          (
            (λ now. ground (arith, text_eq_refl d.id)),
            weaken d (select prior ds) ds (select-Listed ds),
          )
    | inr other ↦
        let left : select prior (d ∷ ds) ≡ select prior ds = ground (arith, other) in
        subst (λ ps. All (Listed ps) (d ∷ ds)) (sym left)
          ((λ now. ground (arith, other, now)), select-Listed ds)
  ]

  supersede_each :
      (env : Env) (by : Text) (ps : List Draft) (db : Db)
      → (for_each ps (supersede env tenant purpose by) db).1.drafts ≡ replaced ps db.drafts
  unfolding supersede set_draft_status revoke_approvals log
  supersede_each env by [] db = refl
  supersede_each env by (p ∷ ps) db = supersede_each env by ps _

-- After a draft of a sequence and a purpose was stored, it is the newest row, and no other draft of the
-- sequence and the purpose is open: those that were, are superseded.
pub superseded-store_draft :
    (env : Env) (tenant : Text) (s : Sequence) (purpose : Purpose) (c : Content) (by : Text)
    (db : Db) (d : Draft) (db' : Db)
    → store_draft env tenant s purpose c by db ≡ (ok d, db')
    → (older : List Draft) × (db'.drafts ≡ d ∷ older)
      × All (λ x. is_prior tenant s.id purpose x ≡ false) older
unfolding store_draft add_draft log advance_sequence
superseded-store_draft env tenant s purpose c by db d db' h =
    let prior = select (is_prior tenant s.id purpose) db.drafts in
    let each = for_each prior (supersede env tenant purpose by) in
    let r = then_returns each _ db d db' h in
    let (same, state) = pure_returns (new_draft env tenant s c r.left) _ d db' r.next in
    let older : r.left.drafts ≡ replaced prior db.drafts =
      ap (λ (x : Result (Unit {0}) × Db). x.1.drafts) (sym r.here)
      ∙ supersede_each tenant s.id purpose env by prior db in
    (
      replaced prior db.drafts,
      ap (λ (x : Db). x.drafts) (sym state)
          ∙ ap (λ x. x ∷ r.left.drafts) same
          ∙ ap (λ x. d ∷ x) older,
      replaced-Listed tenant s.id purpose prior db.drafts
          (select-Listed tenant s.id purpose db.drafts),
    )
