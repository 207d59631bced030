-- ===== src/Sdr/Consent.antt =====
-- What the gate of a send guarantees when it lets a draft pass.
use zex_platform.Base.{
  Text, text_eq, ◌≡◌, refl, ap, subst, ◌∙◌, Bool, true, false, not, some, arith, ◌==◌, ◌↔◌,
  find_first,
}
use zex_platform.Base.Effects.{Result, ok, err, ◌>>=◌, ◌>>◌}
use zex_platform.Store.{Draft, Sequence, Approval, Candidate, Db, Action, Env, log}
use zex_platform.Outcomes.{
  bind_returns, then_returns, throw_if_returns, or_throw_returns, throw_if_then, or_throw_then,
}
use zex_platform.Sdr.Statuses.{is_stop, is_researchable, the_sequence, the_draft, the_candidate}
use zex_platform.Sdr.Phrases.{hash_draft_content}
use zex_platform.Sdr.Templates.{some_text}
use zex_platform.Sdr.Lookups.{require_candidate, require_sequence, require_draft}
use zex_platform.Sdr.Drafts.{of_draft}
use zex_platform.Sdr.Approvals.{is_superseded, is_rejected}
use zex_platform.Sdr.Gate.{
  Gate, block_if, require_approval, mismatches, check_sendable, check_approval, gate_of,
  assert_send_allowed,
}

module _ {B : Type 0} where
  block_if_then :
      (env : Env) (b : Bool) (tenant id reason by why : Text) (k : Action B) (s : Db) (a : B)
      (t : Db)
      → (block_if env b tenant id reason by why >> k) s ≡ (ok a, t)
      → (b ≡ false) × (k s ≡ (ok a, t))
  unfolding block_if log
  block_if_then env true tenant id reason by why k s a t h = ground arith
  block_if_then env false tenant id reason by why k s a t h = (refl, h)

module _ {B : Type 0} where
  pub require_draft_then :
      (tenant id : Text) (f : Draft → Action B) (s : Db) (b : B) (t : Db)
      → (require_draft tenant id >>= f) s ≡ (ok b, t)
      → (d : Draft) × (find_first (the_draft tenant id) s.drafts ≡ some d) × (f d s ≡ (ok b, t))
  unfolding require_draft
  require_draft_then tenant id f s b t h = or_throw_then _ _ f s b t h

  require_sequence_then :
      (tenant id : Text) (f : Sequence → Action B) (s : Db) (b : B) (t : Db)
      → (require_sequence tenant id >>= f) s ≡ (ok b, t)
      → (q : Sequence) × (find_first (the_sequence tenant id) s.sequences ≡ some q)
        × (f q s ≡ (ok b, t))
  unfolding require_sequence
  require_sequence_then tenant id f s b t h = or_throw_then _ _ f s b t h

  require_candidate_then :
      (tenant id : Text) (f : Candidate → Action B) (s : Db) (b : B) (t : Db)
      → (require_candidate tenant id >>= f) s ≡ (ok b, t)
      → (c : Candidate) × (find_first (the_candidate tenant id) s.candidates ≡ some c)
        × (f c s ≡ (ok b, t))
  unfolding require_candidate
  require_candidate_then tenant id f s b t h = or_throw_then _ _ f s b t h

  require_approval_then :
      (env : Env) (tenant id : Text) (f : Approval → Action B) (s : Db) (b : B) (t : Db)
      → (require_approval env tenant id >>= f) s ≡ (ok b, t)
      → (a : Approval) × (find_first (of_draft tenant id) s.approvals ≡ some a)
        × (f a s ≡ (ok b, t))
  unfolding require_approval
  require_approval_then env tenant id f s b t h =
      let r = bind_returns (require_approval env tenant id) f s b t h in
      let (_, rest) = block_if_then env _ tenant id _ _ _ _ s r.value r.left r.here in
      let (found, same) = or_throw_returns _ _ s r.value r.left rest in
      (r.value, found, ap (f r.value) same ∙ r.next)

-- The draft may be sent to the address.
record Sendable (d : Draft) (q : Sequence) (email : Text) : Type 0 where
  pub running : is_stop q.status ≡ false
  pub current : is_superseded d.status ≡ false
  pub standing : is_rejected d.status ≡ false
  pub address : some_text q.target_email ≡ some email

check_sendable_returns :
    (env : Env) (tenant : Text) (d : Draft) (q : Sequence) (s : Db) (email : Text) (t : Db)
    → check_sendable env tenant d q s ≡ (ok email, t)
    → Sendable d q email × (s ≡ t)
unfolding check_sendable
check_sendable_returns env tenant d q s email t h =
    let (running, h1) = block_if_then env _ tenant d.id _ _ _ _ s email t h in
    let (current, h2) = throw_if_then _ _ _ s email t h1 in
    let (standing, h3) = throw_if_then _ _ _ s email t h2 in
    let (address, same) = or_throw_returns _ _ s email t h3 in
    (record { running = running; current = current; standing = standing; address = address }, same)

-- The approval is of this very draft.
pub record Approves (env : Env) (a : Approval) (d : Draft) : Type 0 where
  pub of_it : text_eq a.draft_id d.id ≡ true
  pub same_hash : text_eq a.content_hash d.content_hash ≡ true
  pub same_version : (a.draft_version == d.version) ≡ true
  pub same_content : text_eq (hash_draft_content env d.content) a.content_hash ≡ true

check_approval_returns :
    (env : Env) (tenant : Text) (d : Draft) (a : Approval) (s : Db) (u : Unit {0}) (t : Db)
    → check_approval env tenant d a s ≡ (ok u, t)
    → Approves env a d × (s ≡ t)
unfolding check_approval
check_approval_returns env tenant d a s u t h =
    let (of_it, h1) = throw_if_then (not (text_eq a.draft_id d.id)) _ _ s u t h in
    let (exact, h2) = block_if_then env (mismatches a d) tenant d.id _ _ _ _ s u t h1 in
    let (unchanged, same) =
      throw_if_returns (not (text_eq (hash_draft_content env d.content) a.content_hash)) _ s u t
        h2 in
    (
      record {
        of_it = ground (arith, of_it);
        same_hash = ground (arith, exact);
        same_version = ground (arith, exact);
        same_content = ground (arith, unchanged);
      },
      same,
    )

module _ {B : Type 0} where
  check_sendable_then :
      (env : Env) (tenant : Text) (d : Draft) (q : Sequence) (f : Text → Action B) (s : Db) (b : B)
      (t : Db)
      → (check_sendable env tenant d q >>= f) s ≡ (ok b, t)
      → (email : Text) × Sendable d q email × (f email s ≡ (ok b, t))
  check_sendable_then env tenant d q f s b t h =
      let r = bind_returns (check_sendable env tenant d q) f s b t h in
      let (w, e) = check_sendable_returns env tenant d q s r.value r.left r.here in
      (r.value, w, ap (f r.value) e ∙ r.next)

  check_approval_then :
      (env : Env) (tenant : Text) (d : Draft) (a : Approval) (k : Action B) (s : Db) (b : B)
      (t : Db)
      → (check_approval env tenant d a >> k) s ≡ (ok b, t)
      → Approves env a d × (k s ≡ (ok b, t))
  check_approval_then env tenant d a k s b t h =
      let r = then_returns (check_approval env tenant d a) k s b t h in
      let (x, e) = check_approval_returns env tenant d a s tt r.left r.here in (x, ap k e ∙ r.next)

-- The facts under which a draft of the tenant may be sent.
pub record Consent (env : Env) (tenant draft_id : Text) (db : Db) (g : Gate) : Type 0 where
  pub the_draft_row : find_first (the_draft tenant draft_id) db.drafts ≡ some g.draft
  pub the_sequence_row :
      find_first (the_sequence tenant g.draft.sequence_id) db.sequences ≡ some g.sequence
  pub running : is_stop g.sequence.status ≡ false
  pub current : is_superseded g.draft.status ≡ false
  pub standing : is_rejected g.draft.status ≡ false
  pub address : some_text g.sequence.target_email ≡ some g.email
  pub approved : find_first (of_draft tenant g.draft.id) db.approvals ≡ some g.approval
  pub exact : Approves env g.approval g.draft
  pub candidate : Candidate
  pub the_candidate_row :
      find_first (the_candidate tenant g.sequence.candidate_id) db.candidates ≡ some candidate
  pub researchable : is_researchable candidate.status ≡ true

pub assert_send_allowed_returns :
    (env : Env) (tenant draft_id : Text) (db : Db) (g : Gate) (db' : Db)
    → assert_send_allowed env tenant draft_id db ≡ (ok g, db')
    → Consent env tenant draft_id db g × (db ≡ db')
unfolding assert_send_allowed
assert_send_allowed_returns env tenant draft_id db g db' h =
    let (d, found_d, h1) = require_draft_then tenant draft_id _ db g db' h in
    let (q, found_q, h2) = require_sequence_then tenant d.sequence_id _ db g db' h1 in
    let (email, w, h3) = check_sendable_then env tenant d q _ db g db' h2 in
    let (a, found_a, h4) = require_approval_then env tenant d.id _ db g db' h3 in
    let (x, h5) = check_approval_then env tenant d a _ db g db' h4 in
    let (c, found_c, h6) = require_candidate_then tenant q.candidate_id _ db g db' h5 in
    let (ready, h7) = throw_if_then (not (is_researchable c.status)) _ _ db g db' h6 in
    let consent : Consent env tenant draft_id db (gate_of d q a email) = record {
      the_draft_row = found_d;
      the_sequence_row = found_q;
      running = w.running;
      current = w.current;
      standing = w.standing;
      address = w.address;
      approved = found_a;
      exact = x;
      candidate = c;
      the_candidate_row = found_c;
      researchable = ground (arith, ready);
    } in
    (
      subst (Consent env tenant draft_id db) (ap (λ (y : Result Gate × Db). passed y.0) h7) consent,
      ap (λ (y : Result Gate × Db). y.1) h7,
    )
  where
    passed : Result Gate → Gate
    passed (ok x) = x
    passed (err _) = g

-- The gate of a send lets a draft pass exactly where the facts hold, and hands on the rows that they
-- name; it then writes nothing.
pub assert_send_allowed_lem :
    (env : Env) (tenant draft_id : Text) (db : Db) (g : Gate)
    → (assert_send_allowed env tenant draft_id db ≡ (ok g, db)) ↔ Consent env tenant draft_id db g
unfolding assert_send_allowed require_draft require_sequence check_sendable require_approval
    block_if check_approval require_candidate
assert_send_allowed_lem env tenant draft_id db g = (
  (λ h. (assert_send_allowed_returns env tenant draft_id db g db h).0),
  (λ c. rw (c.the_draft_row) (
      rw (c.the_sequence_row) (
        rw
          (
            c.running, c.current, c.standing, c.address, c.approved, c.exact.of_it,
            c.exact.same_hash, c.exact.same_version, c.exact.same_content, c.the_candidate_row,
            c.researchable,
          )
          refl))),
)
