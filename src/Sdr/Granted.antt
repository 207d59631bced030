-- ===== src/Sdr/Granted.antt =====
-- What an approval guarantees to the gate of a send.
use zex_platform.Base.{
  Text, text_eq, text_eq_refl, ◌≡◌, refl, sym, ap, subst, ◌∙◌, true, not, some, arith, find_first,
}
use zex_platform.Base.Effects.{ok, pure, ◌>>=◌, ◌>>◌}
use zex_platform.Store.{DraftStatus, Draft, Approval, Db, Action, Env, log}
use zex_platform.Outcomes.{pure_returns, then_returns, throw_if_returns, throw_if_then}
use zex_platform.Sdr.Statuses.{the_draft}
use zex_platform.Sdr.Phrases.{hash_draft_content}
use zex_platform.Sdr.Lookups.{require_draft}
use zex_platform.Sdr.Drafts.{advance_sequence, of_draft, set_draft_status}
use zex_platform.Sdr.Approvals.{
  check_approvable, new_approval, grant, approve_draft, is_superseded, is_rejected, is_sent,
}
use zex_platform.Sdr.Consent.{Approves, require_draft_then}
use zex_platform.Sdr.Refusals.{status_set}

check_approvable_then :
    {B : Type 0} (env : Env) (d : Draft) (k : Action B) (s : Db) (b : B) (t : Db)
    → (check_approvable env d >> k) s ≡ (ok b, t)
    → (text_eq (hash_draft_content env d.content) d.content_hash ≡ true) × (k s ≡ (ok b, t))
unfolding check_approvable
check_approvable_then env d k s b t h =
    let r = then_returns (check_approvable env d) k s b t h in
    let (_, h1) = throw_if_then (is_superseded d.status) _ _ s r.value r.left r.here in
    let (_, h2) = throw_if_then (is_rejected d.status) _ _ s r.value r.left h1 in
    let (_, h3) = throw_if_then (is_sent d.status) _ _ s r.value r.left h2 in
    let (same_hash, same) =
      throw_if_returns (not (text_eq (hash_draft_content env d.content) d.content_hash)) _ s r.value
        r.left h3 in
    (ground (arith, same_hash), ap k same ∙ r.next)

-- The state after the writes of an approval.
abbrev granted : Env → Text → Draft → Text → Text → Db → Db
granted env tenant d approved_by by db = (grant env tenant d approved_by by db).1

approval_found :
    (env : Env) (tenant : Text) (d : Draft) (approved_by by : Text) (db : Db)
    → find_first (of_draft tenant d.id) (granted env tenant d approved_by by db).approvals
      ≡ some (new_approval env tenant d approved_by db)
unfolding grant log set_draft_status advance_sequence find_first
approval_found env tenant d approved_by by db = rw (text_eq_refl tenant, text_eq_refl d.id) refl

draft_found :
    (env : Env) (tenant draft_id : Text) (d : Draft) (approved_by by : Text) (db : Db)
    → find_first (the_draft tenant draft_id) db.drafts ≡ some d
    → find_first (the_draft tenant draft_id) (granted env tenant d approved_by by db).drafts
      ≡ some (record d { status = DraftStatus.approved })
unfolding grant log advance_sequence set_draft_status
draft_found env tenant draft_id d approved_by by db found =
    status_set tenant draft_id DraftStatus.approved db d found

-- The returned pair, and the state of its return.
pub record Granted (env : Env) (tenant draft_id : Text) (x : Approval × Draft) (db' : Db)
    : Type 0 where
  pub approved : x.1.status ≡ DraftStatus.approved
  pub the_draft_row : find_first (the_draft tenant draft_id) db'.drafts ≡ some x.1
  pub the_approval : find_first (of_draft tenant x.1.id) db'.approvals ≡ some x.0
  pub exact : Approves env x.0 x.1

granted_then :
    (env : Env) (tenant draft_id approved_by by : Text) (db : Db) (d : Draft) (x : Approval × Draft)
    (db' : Db)
    → find_first (the_draft tenant draft_id) db.drafts ≡ some d
    → text_eq (hash_draft_content env d.content) d.content_hash ≡ true
    → (require_draft tenant draft_id >>= λ d'. pure (new_approval env tenant d approved_by db, d'))
        (granted env tenant d approved_by by db)
      ≡ (ok x, db')
    → Granted env tenant draft_id x db'
granted_then env tenant draft_id approved_by by db d x db' found same_hash h =
    let s = granted env tenant d approved_by by db in
    let a = new_approval env tenant d approved_by db in
    let d2 = record d { status = DraftStatus.approved } in
    let row = draft_found env tenant draft_id d approved_by by db found in
    let (d', found', h1) = require_draft_then tenant draft_id (λ d'. pure (a, d')) s x db' h in
    let same : d' ≡ d2 = ground (arith, row, found') in
    let (answer, state) = pure_returns (a, d') s x db' h1 in
    let w : Granted env tenant draft_id (a, d2) s = record {
      approved = refl;
      the_draft_row = row;
      the_approval = approval_found env tenant d approved_by by db;
      exact = record {
        of_it = text_eq_refl d.id;
        same_hash = text_eq_refl d.content_hash;
        same_version = ground arith;
        same_content = same_hash;
      };
    } in
    subst (λ y. Granted env tenant draft_id y db') (ap (λ y. (a, y)) (sym same) ∙ answer)
      (subst (Granted env tenant draft_id (a, d2)) state w)

-- An approval that returned is the one that the gate of a send finds for the draft, and is of this very
-- draft: of its version and of the hash that its text has. The draft it returned is the row, and approved.
pub approve_draft-Granted :
    (env : Env) (tenant draft_id approved_by by : Text) (db : Db) (x : Approval × Draft) (db' : Db)
    → approve_draft env tenant draft_id approved_by by db ≡ (ok x, db')
    → Granted env tenant draft_id x db'
unfolding approve_draft
approve_draft-Granted env tenant draft_id approved_by by db x db' h =
    let (d, found, h1) = require_draft_then tenant draft_id _ db x db' h in
    let (same_hash, h2) = check_approvable_then env d _ db x db' h1 in
    granted_then env tenant draft_id approved_by by db d x db' found same_hash
      (unfold grant log in h2)
