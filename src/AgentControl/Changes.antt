-- ===== src/AgentControl/Changes.antt =====
-- Pausing and resuming: what they make of the stored states, and what the gate then says.
use zex_platform.Base.{
  Text, text_eq, ◌≡◌, refl, inl, inr, true, not, ◌∷◌, some, arith, ◌&&◌, find_first, Option-cases,
}
use zex_platform.Base.Effects.{ok, err, bad_request}
use zex_platform.Store.{AgentId, ControlState, active, paused, Tenant, Db, Env, log, entry_row}
use zex_platform.AgentControl.Agents.{to_agent}
use zex_platform.AgentControl.Service.{
  of_agent, state_in, put_control, upsert_control, assert_tenant, get_control_state, set_state,
  same_state, change_agent, pause_agent, resume_agent, assert_agent_not_paused, refuse_paused,
  paused_message, Changed, change_entry, row_id, other,
}
use zex_platform.AgentControl.Gate.{state_in-put_control}

same_state_sound : (a b : ControlState) → same_state a b ≡ true → a ≡ b
unfolding same_state
same_state_sound active active h = refl
same_state_sound paused paused h = refl
same_state_sound a b h = ground arith

set_state-state_in :
    (env : Env) (tenant : Text) (agent : AgentId) (state : ControlState) (by : Text)
    (was : ControlState) (db : Db) (r : Changed) (db' : Db)
    → state_in tenant agent db.controls ≡ was
    → set_state env tenant agent state by was db ≡ (ok r, db')
    → (r.agent ≡ agent) × (state_in tenant agent db'.controls ≡ state)
unfolding set_state upsert_control log
set_state-state_in env tenant agent state by was db r db' h e =
    ground (arith, same_state_sound was state, state_in-put_control env tenant agent state by db)

-- A pause or resume that returns has put the agent into the state.
pub change_agent-state_in :
    (env : Env) (state : ControlState) (tenant agent_id by : Text) (db : Db) (r : Changed)
    (db' : Db)
    → change_agent env state tenant agent_id by db ≡ (ok r, db')
    → state_in tenant r.agent db'.controls ≡ state
unfolding change_agent assert_tenant get_control_state
change_agent-state_in env state tenant agent_id by db r db' e =
    elim (Option-cases (to_agent agent_id)) [
      | inl unknown ↦ ground arith
      | inr (agent, known) ↦ ground (
        arith,
        known,
        set_state-state_in env tenant agent state by (state_in tenant agent db.controls) db r db'
            refl,
      )
    ]

-- A change that was recorded has one new audit row, at the head of the trail.
pub record Recorded (tenant : Text) (state : ControlState) (by : Text) (db : Db) (r : Changed)
    (db' : Db) (a : Text) : Type 0 where
  pub control : Text
  pub trail :
      db'.audit
      ≡ entry_row a
          (change_entry tenant r.agent (state_in tenant r.agent db.controls) state control by)
        ∷ db.audit
  pub same_tenants : db'.tenants ≡ db.tenants
  pub now : state_in tenant r.agent db'.controls ≡ state
  pub was : state_in tenant r.agent db.controls ≡ other state
  pub tenant_row : Tenant
  pub known_tenant :
      find_first (λ t. text_eq t.id tenant && not t.deleted) db.tenants ≡ some tenant_row

set_state-Recorded :
    (env : Env) (tenant : Text) (agent : AgentId) (state : ControlState) (by : Text) (db : Db)
    (r : Changed) (db' : Db) (a : Text)
    → set_state env tenant agent state by (state_in tenant agent db.controls) db ≡ (ok r, db')
    → r.action_id ≡ some a
    → (control : Text) × (r.agent ≡ agent)
      × (db'.audit
          ≡ entry_row a
              (change_entry tenant agent (state_in tenant agent db.controls) state control by)
            ∷ db.audit)
      × (db'.tenants ≡ db.tenants)
      × (state_in tenant agent db.controls ≡ other state)
unfolding set_state upsert_control log put_control same_state
set_state-Recorded env tenant agent state by db r db' a e h = (
  row_id (find_first (of_agent tenant agent) (put_control env tenant agent state by db).controls),
  ground arith,
  ground arith,
  ground arith,
  ground arith,
)

pub change_agent-Recorded :
    (env : Env) (state : ControlState) (tenant agent_id by : Text) (db : Db) (r : Changed)
    (db' : Db) (a : Text)
    → change_agent env state tenant agent_id by db ≡ (ok r, db')
    → r.action_id ≡ some a
    → Recorded tenant state by db r db' a
change_agent-Recorded env state tenant agent_id by db r db' a e h =
    elim (Option-cases (to_agent agent_id)) [
      | inl unknown ↦ unfold change_agent in ground arith
      | inr (agent, known) ↦
          elim (Option-cases (find_first (λ t. text_eq t.id tenant && not t.deleted) db.tenants)) [
            | inl absent ↦ unfold change_agent assert_tenant get_control_state in ground arith
            | inr (t, present) ↦
                let run : set_state env tenant agent state by (state_in tenant agent db.controls) db
                    ≡ (ok r, db') =
                  unfold change_agent assert_tenant get_control_state in
                  ground (arith, known, present) in
                let (control, same, trail, tenants, was) =
                  set_state-Recorded env tenant agent state by db r db' a run h in
                record {
                  control = control;
                  trail = rw same trail;
                  same_tenants = tenants;
                  now = change_agent-state_in env state tenant agent_id by db r db' e;
                  was = rw same was;
                  tenant_row = t;
                  known_tenant = present;
                }
          ]
    ]

pub gate_refuses :
    (env : Env) (tenant : Text) (agent : AgentId) (by : Text) (db : Db)
    → state_in tenant agent db.controls ≡ paused
    → (assert_agent_not_paused env tenant agent by db).0 ≡ err (bad_request (paused_message agent))
unfolding assert_agent_not_paused refuse_paused log
gate_refuses env tenant agent by db h = rw (h, refuse_paused)

pub gate_opens :
    (env : Env) (tenant : Text) (agent : AgentId) (by : Text) (db : Db)
    → state_in tenant agent db.controls ≡ active
    → assert_agent_not_paused env tenant agent by db ≡ (ok tt, db)
unfolding assert_agent_not_paused refuse_paused
gate_opens env tenant agent by db h = rw (h, refuse_paused)

-- After a pause that returned, also one that found the agent paused, the gate refuses new work of the
-- agent with a 400 error.
pub gate-pause_agent :
    (env : Env) (tenant agent_id by by' : Text) (db : Db) (r : Changed) (db' : Db)
    → pause_agent env tenant agent_id by db ≡ (ok r, db')
    → (assert_agent_not_paused env tenant r.agent by' db').0
      ≡ err (bad_request (paused_message r.agent))
unfolding pause_agent
gate-pause_agent env tenant agent_id by by' db r db' e =
    gate_refuses env tenant r.agent by' db'
      (change_agent-state_in env paused tenant agent_id by db r db' e)

-- After a resume that returned the gate lets new work of the agent pass and changes nothing.
pub gate-resume_agent :
    (env : Env) (tenant agent_id by by' : Text) (db : Db) (r : Changed) (db' : Db)
    → resume_agent env tenant agent_id by db ≡ (ok r, db')
    → assert_agent_not_paused env tenant r.agent by' db' ≡ (ok tt, db')
unfolding resume_agent
gate-resume_agent env tenant agent_id by by' db r db' e =
    gate_opens env tenant r.agent by' db'
      (change_agent-state_in env active tenant agent_id by db r db' e)
