-- ===== src/AgentControl/Undoing.antt =====
-- Undoing a pause or a resume.
use mathlib.Core.List.{reverse, reverse-cons, map-append}
use zex_platform.Base.{
  ◌<◌, ◌≤◌, Text, text, text_eq, text_eq_refl, ◌≡◌, refl, ◌∙◌, inl, inr, true, false, not, none,
  some, List, [], ◌∷◌, ◌++◌, arith, ◌&&◌, take, length, length-reverse, take-append_room,
  take-append_full, find_first, select, Bool-cases,
}
use zex_platform.Base.Effects.{ok, err, conflict}
use zex_platform.Json.{get}
use zex_platform.Store.{
  AgentId, research_agent, ai_sdr, ControlState, active, paused, AuditLog, Tenant, Db, Env, log,
  has_id, entry_row,
}
use zex_platform.AgentControl.Agents.{agent_text, to_agent, to_state, state_text}
use zex_platform.AgentControl.Mapper.{has, control_actions, is_control_mutation_reversible}
use zex_platform.AgentControl.Timeline.{
  Row, Eligible, lookup, latest_eligible, rows_from, row_step, truthy, control_row,
}
use zex_platform.AgentControl.Service.{
  Changed, change_agent, change_entry, state_in, assert_tenant, mutation_action, get_control_state,
  upsert_control,
}
use zex_platform.AgentControl.Undo.{
  Undone, control_window, is_control_row, timeline_row, control_rows, load_control_undo_context,
  named_agent, restore_state, is_reversible, undo_control, undo_unless, undo_first, apply_undo,
  undo_action, names,
}
use zex_platform.AgentControl.Changes.{Recorded, change_agent-Recorded}
use zex_platform.AgentControl.Gate.{state_in-put_control}

rows_from-append :
    (e : Eligible) (xs : List Row) (x : Row)
    → rows_from e (xs ++ x ∷ []) ≡ row_step (rows_from e xs) x
unfolding rows_from
rows_from-append e [] x = refl
rows_from-append e (y ∷ xs) x = rows_from-append (row_step e y) xs x

-- The rows of the audit trail that `change_agent` writes.
module _ (id tenant : Text) (agent : AgentId) (was state : ControlState) (resource by : Text) where
  abbrev change_row : AuditLog
  change_row = entry_row id (change_entry tenant agent was state resource by)

  change_row-agent : named_agent change_row.after ≡ some agent
  unfolding change_entry get text text_eq agent_text to_agent
  change_row-agent = go agent
    where
      go : (a : AgentId) → to_agent (agent_text a) ≡ some a
      go research_agent = refl
      go ai_sdr = refl

  change_row-reversible : is_reversible change_row ≡ true
  unfolding change_entry get text text_eq is_control_mutation_reversible
  change_row-reversible = go state
    where
      go :
          (s : ControlState)
          → is_reversible (entry_row id (change_entry tenant agent was s resource by)) ≡ true
      go active = refl
      go paused = refl

  change_row-control : is_control_row tenant change_row ≡ true
  unfolding change_entry is_control_row
  change_row-control = rw (text_eq_refl tenant) (go state)
    where
      go : (s : ControlState) → has control_actions (mutation_action s) ≡ true
      go active = unfold has control_actions text text_eq in refl
      go paused = unfold has control_actions text text_eq in refl

  change_row-restore : restore_state change_row ≡ was
  unfolding change_entry restore_state get text text_eq state_text to_state
  change_row-restore = go was
    where
      go :
          (s : ControlState)
          → restore_state (entry_row id (change_entry tenant agent s state resource by)) ≡ s
      go active = refl
      go paused = refl

  change_row-step :
      (e : Eligible)
      → row_step e (timeline_row change_row)
        ≡ record e { latest = (agent_text agent, some id) ∷ e.latest }
  unfolding change_entry row_step get text text_eq agent_text truthy control_row
  change_row-step e = go agent state
    where
      go :
          (a : AgentId) (s : ControlState)
          → row_step e (timeline_row (entry_row id (change_entry tenant a was s resource by)))
            ≡ record e { latest = (agent_text a, some id) ∷ e.latest }
      go research_agent active = refl
      go research_agent paused = refl
      go ai_sdr active = refl
      go ai_sdr paused = refl

-- The rows of a trail with one more control row at its head, if the window has room for it.
control_rows_room :
    (tenant : Text) (row : AuditLog) (audit : List AuditLog)
    → is_control_row tenant row ≡ true
    → length (select (is_control_row tenant) audit) < control_window
    → control_rows tenant (row ∷ audit) ≡ control_rows tenant audit ++ timeline_row row ∷ []
unfolding control_rows select
control_rows_room tenant row audit h room =
    let old = select (is_control_row tenant) audit in
    rw
      (
        h,
        reverse-cons row old,
        take-append_room control_window (reverse old) row (omega (arith, length-reverse old)),
      )
      (map-append timeline_row (take control_window (reverse old)) (row ∷ []))

control_rows_full :
    (tenant : Text) (row : AuditLog) (audit : List AuditLog)
    → control_window ≤ length (select (is_control_row tenant) audit)
    → control_rows tenant (row ∷ audit) ≡ control_rows tenant audit
unfolding control_rows select
control_rows_full tenant row audit full =
    let old = select (is_control_row tenant) audit in
    elim (Bool-cases (is_control_row tenant row)) [
      | inl h ↦ rw (
        h,
        reverse-cons row old,
        take-append_full control_window (reverse old) row (omega (arith, length-reverse old)),
      )
      | inr h ↦ rw h
    ]

-- The checks of an undo, passed.
undo_action_passes :
    (env : Env) (tenant id by : Text) (db : Db) (t : Tenant) (row : AuditLog) (agent : AgentId)
    → find_first (λ t. text_eq t.id tenant && not t.deleted) db.tenants ≡ some t
    → find_first (λ r. has_id id tenant r.id r.tenant) db.audit ≡ some row
    → is_reversible row ≡ true
    → named_agent row.after ≡ some agent
    → undo_action env tenant id by db
      ≡ undo_control env tenant row agent by (load_control_undo_context tenant db) db
unfolding undo_action assert_tenant
undo_action_passes env tenant id by db t row agent h k rev ag =
    rw (h, undo_action, assert_tenant) (rw (k, undo_action) (rw rev (rw (ag, undo_action))))

undo_control-undoes :
    (env : Env) (tenant : Text) (row : AuditLog) (agent : AgentId) (by : Text) (e : Eligible)
    (db : Db)
    → lookup row.id e.undone_of ≡ none
    → names (lookup (agent_text agent) e.latest) row.id ≡ true
    → (u : Undone) × ((undo_control env tenant row agent by e db).0 ≡ ok u)
      × (u.agent ≡ agent)
      × (u.state ≡ restore_state row)
      × (u.idempotent ≡ false)
      × (state_in tenant agent (undo_control env tenant row agent by e db).1.controls
          ≡ restore_state row)
unfolding undo_control undo_unless undo_first apply_undo get_control_state upsert_control log
undo_control-undoes env tenant row agent by e db fresh hit =
    rw (fresh, undo_control, undo_unless)
      (rw hit (
        _,
        refl,
        refl,
        refl,
        refl,
        state_in-put_control env tenant agent (restore_state row) by db,
      ))

undo_control-refuses :
    (env : Env) (tenant : Text) (row : AuditLog) (agent : AgentId) (by : Text) (e : Eligible)
    (db : Db)
    → lookup row.id e.undone_of ≡ none
    → names (lookup (agent_text agent) e.latest) row.id ≡ false
    → (why : Text) × (undo_control env tenant row agent by e db ≡ (err (conflict why), db))
unfolding undo_control undo_unless undo_first
undo_control-refuses env tenant row agent by e db fresh miss =
    rw (fresh, undo_control, undo_unless) (rw miss (_, refl))

module _ (env : Env) (state : ControlState) (tenant by by' : Text) (db : Db) (r : Changed)
    (db' : Db) (a : Text) (w : Recorded tenant state by db r db' a) where
  abbrev new_row : AuditLog
  new_row = change_row a tenant r.agent (state_in tenant r.agent db.controls) state w.control by

  undo_reaches :
      undo_action env tenant a by' db'
      ≡ undo_control env tenant new_row r.agent by' (load_control_undo_context tenant db') db'
  undo_reaches =
      undo_action_passes env tenant a by' db' w.tenant_row new_row r.agent
        (rw w.same_tenants w.known_tenant)
        (rw w.trail (
          unfold find_first has_id change_entry in
          ground (arith, text_eq_refl a, text_eq_refl tenant)))
        (change_row-reversible a tenant r.agent (state_in tenant r.agent db.controls) state
          w.control by)
        (change_row-agent a tenant r.agent (state_in tenant r.agent db.controls) state w.control by)

  context_room :
      length (select (is_control_row tenant) db.audit) < control_window
      → load_control_undo_context tenant db' ≡ record (load_control_undo_context tenant db) {
        latest = (agent_text r.agent, some a) ∷ (load_control_undo_context tenant db).latest;
      }
  unfolding load_control_undo_context latest_eligible
  context_room room =
      rw
        (
          w.trail,
          control_rows_room tenant new_row db.audit
              (change_row-control a tenant r.agent (state_in tenant r.agent db.controls) state
                w.control by)
              room,
          rows_from-append,
        )
        (change_row-step a tenant r.agent (state_in tenant r.agent db.controls) state w.control by
          _)

  context_full :
      control_window ≤ length (select (is_control_row tenant) db.audit)
      → load_control_undo_context tenant db' ≡ load_control_undo_context tenant db
  unfolding load_control_undo_context
  context_full full = rw (w.trail, control_rows_full tenant new_row db.audit full)

-- A pause or resume that was recorded as `a`, undone at once, gives the agent the state back that it had
-- before; `a` was not named by an earlier undo, and the trail has fewer control rows than the window.
pub undo-change_agent :
    (env : Env) (state : ControlState) (tenant agent_id by by' : Text) (db : Db) (r : Changed)
    (db' : Db) (a : Text)
    → change_agent env state tenant agent_id by db ≡ (ok r, db')
    → r.action_id ≡ some a
    → lookup a (load_control_undo_context tenant db).undone_of ≡ none
    → length (select (is_control_row tenant) db.audit) < control_window
    → (u : Undone) × ((undo_action env tenant a by' db').0 ≡ ok u)
      × (u.agent ≡ r.agent)
      × (u.state ≡ state_in tenant r.agent db.controls)
      × (u.idempotent ≡ false)
      × (state_in tenant r.agent (undo_action env tenant a by' db').1.controls
          ≡ state_in tenant r.agent db.controls)
undo-change_agent env state tenant agent_id by by' db r db' a changed recorded fresh room =
    let w = change_agent-Recorded env state tenant agent_id by db r db' a changed recorded in
    let restored =
      change_row-restore a tenant r.agent (state_in tenant r.agent db.controls) state w.control
        by in
    let context = context_room env state tenant by by' db r db' a w room in
    let (u, e, same, st, idem, now) =
      undo_control-undoes env tenant (new_row env state tenant by by' db r db' a w) r.agent by'
        (load_control_undo_context tenant db') db' (rw context fresh)
        (rw context
          (unfold lookup in ground (arith, text_eq_refl (agent_text r.agent), text_eq_refl a))) in
    rw (undo_reaches env state tenant by by' db r db' a w)
      (u, e, same, st ∙ restored, idem, now ∙ restored)

-- Once the trail holds as many control rows as the window, a further pause or resume cannot be undone:
-- the window keeps the oldest rows, and the undo is refused with a 409 error and changes nothing, unless
-- `a` is the id of an older row.
pub undo-change_agent_full :
    (env : Env) (state : ControlState) (tenant agent_id by by' : Text) (db : Db) (r : Changed)
    (db' : Db) (a : Text)
    → change_agent env state tenant agent_id by db ≡ (ok r, db')
    → r.action_id ≡ some a
    → lookup a (load_control_undo_context tenant db).undone_of ≡ none
    → names (lookup (agent_text r.agent) (load_control_undo_context tenant db).latest) a ≡ false
    → control_window ≤ length (select (is_control_row tenant) db.audit)
    → (why : Text) × (undo_action env tenant a by' db' ≡ (err (conflict why), db'))
undo-change_agent_full env state tenant agent_id by by' db r db' a changed recorded fresh old full =
    let w = change_agent-Recorded env state tenant agent_id by db r db' a changed recorded in
    let context = context_full env state tenant by by' db r db' a w full in
    rw (undo_reaches env state tenant by by' db r db' a w) (
      undo_control-refuses env tenant (new_row env state tenant by by' db r db' a w) r.agent by'
        (load_control_undo_context tenant db') db' (rw context fresh) (rw context old))
