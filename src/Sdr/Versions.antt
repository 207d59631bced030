-- ===== src/Sdr/Versions.antt =====
-- The versions of a sequence's drafts.
use zex_platform.Base.{
  ℕ, ◌+◌, ◌<◌, max, Text, text_eq, ◌≡◌, refl, sym, ap, ◌∙◌, Bool, true, inl, inr, arith, List, [],
  ◌∷◌, All, update_where, select, Bool-cases,
}
use zex_platform.Base.Effects.{Result, ok, for_each}
use zex_platform.Store.{DraftStatus, Purpose, Sequence, Content, Draft, Db, Env, Entry, log}
use zex_platform.Frames.{Within, Same, Same-IsOrder, for_each-Within, frame_rules}
use zex_platform.Outcomes.{then_returns, pure_returns}
use zex_platform.Sdr.Drafts.{
  max_version, set_draft_status, revoke_approvals, supersede, add_draft, store_draft, is_prior,
  new_draft,
}

-- Every version of the sequence's drafts is below `n`.
versions_below :
    (id : Text) (n : ℕ) (ds : List Draft)
    → max_version id ds < n
    → All (λ d. text_eq d.sequence_id id ≡ true → d.version < n) ds
unfolding max_version
versions_below id n [] h = tt
versions_below id n (d ∷ ds) h = elim (Bool-cases (text_eq d.sequence_id id)) [
  | inl ours ↦
      let most : max d.version (max_version id ds) < n = ground (arith, ours, h) in
      ((λ _. omega (arith, most)), versions_below id n ds (omega (arith, most)))
  | inr others ↦
      ((λ same. ground (arith, others, same)), versions_below id n ds (ground (arith, others, h)))
]

max_version-update :
    (id : Text) (q : Draft → Bool) (status : DraftStatus) (ds : List Draft)
    → max_version id (update_where q (λ d. record d { status = status }) ds) ≡ max_version id ds
unfolding max_version update_where
max_version-update id q status [] = refl
max_version-update id q status (d ∷ ds) = ground (arith, max_version-update id q status ds)

-- A handler under which the highest version of the sequence stays.
abbrev Keeps : Text → Db → Db → Type 0
Keeps id = Same (λ db. max_version id db.drafts)

log-Keeps : (id : Text) (env : Env) (e : Entry) → Within (Keeps id) (log env e)
unfolding log
log-Keeps id env e = record { run = λ s. refl }

set_draft_status-Keeps :
    (id i : Text) (status : DraftStatus) (s : Db) → Keeps id s (set_draft_status i status s)
unfolding set_draft_status
set_draft_status-Keeps id i status s = max_version-update id _ status s.drafts

revoke_approvals-Keeps : (id tenant i : Text) (s : Db) → Keeps id s (revoke_approvals tenant i s)
unfolding revoke_approvals
revoke_approvals-Keeps id tenant i s = refl

supersede-Keeps :
    (id : Text) (env : Env) (tenant : Text) (purpose : Purpose) (by : Text) (p : Draft)
    → Within (Keeps id) (supersede env tenant purpose by p)
unfolding supersede
supersede-Keeps id env tenant purpose by p =
    search (frame_rules, Same-IsOrder, log-Keeps, set_draft_status-Keeps, revoke_approvals-Keeps)

-- A stored draft has the next version of its sequence: one more than the highest before, so that no
-- older draft of the sequence has it or a higher one.
pub version-store_draft :
    (env : Env) (tenant : Text) (s : Sequence) (purpose : Purpose) (c : Content) (by : Text)
    (db : Db) (d : Draft) (db' : Db)
    → store_draft env tenant s purpose c by db ≡ (ok d, db')
    → (d.version ≡ max_version s.id db.drafts + 1)
      × (d.content ≡ c)
      × All (λ x. text_eq x.sequence_id s.id ≡ true → x.version < d.version) db.drafts
unfolding store_draft add_draft log
version-store_draft env tenant s purpose c by db d db' h =
    let prior = select (is_prior tenant s.id purpose) db.drafts in
    let each = for_each prior (supersede env tenant purpose by) in
    let kept =
      (for_each-Within (Same-IsOrder _) prior (supersede env tenant purpose by)
          (supersede-Keeps s.id env tenant purpose by)).run
        db in
    let r = then_returns each _ db d db' h in
    let (same, _) = pure_returns (new_draft env tenant s c r.left) _ d db' r.next in
    let version : d.version ≡ max_version s.id db.drafts + 1 =
      ap (λ (x : Draft). x.version) (sym same)
      ∙ ap (λ n. n + 1)
          (ap (λ (x : Result (Unit {0}) × Db). max_version s.id x.1.drafts) (sym r.here) ∙ kept) in
    (
      version,
      ap (λ (x : Draft). x.content) (sym same),
      versions_below s.id d.version db.drafts (omega (arith, version)),
    )
