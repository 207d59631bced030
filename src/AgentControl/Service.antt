-- ===== src/AgentControl/Service.antt =====
-- src/agent-control/agent-control.service.ts: the state of an agent, the gate, pause, resume and undo.
use zex_platform.Base.{
  Text, text, text_eq, Bool, true, false, Option, none, some, List, [], ◌∷◌, ◌++◌, ◌&&◌, suc, not,
  find_first, update_where, is_some, if◌then◌else◌,
}
use zex_platform.Base.Effects.{
  bad_request, not_found, pure, throw, gets, modify, ◌>>=◌, ◌>>◌, or_throw, branch,
}
use zex_platform.Json.{str, bool, end, field}
use zex_platform.Store.{
  Tenant, AgentId, research_agent, ai_sdr, ControlState, active, paused, Control, Db, Action, Env,
  Entry, log,
}
use zex_platform.AgentControl.Agents.{agent_text, to_agent, state_text}

unfoldable pub same_agent : AgentId → AgentId → Bool
same_agent research_agent research_agent = true
same_agent ai_sdr ai_sdr = true
same_agent _ _ = false

-- `where: { tenantId_agentId }`
abbrev pub of_agent : Text → AgentId → Control → Bool
of_agent tenant agent c = text_eq c.tenant tenant && same_agent c.agent agent

abbrev pub control_state : Option Control → ControlState
control_state none = active
control_state (some c) = c.state

abbrev pub state_in : Text → AgentId → List Control → ControlState
state_in tenant agent cs = control_state (find_first (of_agent tenant agent) cs)

unfoldable pub assert_tenant : Text → Action Tenant
assert_tenant tenant = do
  found ← gets λ db. find_first (λ t. text_eq t.id tenant && not t.deleted) db.tenants
  or_throw found (not_found (text "Tenant not found"))

-- Without a row an agent is active.
unfoldable pub get_control_state : Text → AgentId → Action ControlState
get_control_state tenant agent = gets λ db. state_in tenant agent db.controls

abbrev pub is_paused_state : ControlState → Bool
is_paused_state paused = true
is_paused_state active = false

unfoldable pub is_paused : Text → AgentId → Action Bool
unfolding get_control_state
is_paused tenant agent = do state ← get_control_state tenant agent; pure (is_paused_state state)

abbrev pub paused_message : AgentId → Text
paused_message agent = text "Agent " ++ agent_text agent ++ text " is paused"

unfoldable pub blocked_entry : Text → AgentId → Text → Entry
blocked_entry tenant agent triggered_by = record {
  tenant = tenant;
  action = blocked_action agent;
  resource_type = text "TenantAgentControl";
  resource_id = tenant ++ text ":" ++ agent_text agent;
  before = none;
  after = some (
      field (text "agentId") (str (agent_text agent))
        (field (text "state") (str (text "PAUSED")) end));
  triggered_by = triggered_by;
  success = false;
  message = some (paused_message agent);
}
  where
    blocked_action : AgentId → Text
    blocked_action research_agent = text "research_blocked_agent_paused"
    blocked_action ai_sdr = text "sdr_blocked_agent_paused"

unfoldable pub refuse_paused : Env → Text → AgentId → Text → ControlState → Action (Unit {0})
refuse_paused env tenant agent triggered_by active = pure tt
refuse_paused env tenant agent triggered_by paused = do
  _ ← log env (blocked_entry tenant agent triggered_by)
  throw (bad_request (paused_message agent))

unfoldable pub assert_agent_not_paused : Env → Text → AgentId → Text → Action (Unit {0})
unfolding get_control_state refuse_paused blocked_entry
assert_agent_not_paused env tenant agent triggered_by = do
  state ← get_control_state tenant agent
  refuse_paused env tenant agent triggered_by state

-- The row's id after an upsert.
unfoldable pub put_control : Env → Text → AgentId → ControlState → Text → Db → Db
put_control env tenant agent state by db =
    if is_some (find_first (of_agent tenant agent) db.controls)
    then record db {
      controls =
          update_where (of_agent tenant agent) (λ c. record c { state = state; updated_by = by })
            db.controls;
    }
    else record db {
      next_row = suc db.next_row;
      controls =
          record {
            id = env.cuid db.next_row;
            tenant = tenant;
            agent = agent;
            state = state;
            updated_by = by;
          }
          ∷ db.controls;
    }

abbrev pub row_id : Option Control → Text
row_id none = []
row_id (some c) = c.id

-- `tenantAgentControl.upsert`, which returns the id of the row
unfoldable pub upsert_control : Env → Text → AgentId → ControlState → Text → Action Text
unfolding put_control
upsert_control env tenant agent state by = do
  modify (put_control env tenant agent state by)
  gets λ db. row_id (find_first (of_agent tenant agent) db.controls)

-- What pause and resume return.
pub record Changed : Type 0 where
  pub agent : AgentId
  pub state : ControlState
  pub idempotent : Bool
  pub action_id : Option Text

abbrev pub other : ControlState → ControlState
other active = paused
other paused = active

abbrev pub mutation_action : ControlState → Text
mutation_action paused = text "agent_control_paused"
mutation_action active = text "agent_control_resumed"

abbrev pub mutation_kind : ControlState → Text
mutation_kind paused = text "pause"
mutation_kind active = text "resume"

unfoldable pub change_entry : Text → AgentId → ControlState → ControlState → Text → Text → Entry
change_entry tenant agent was state resource triggered_by = record {
  tenant = tenant;
  action = mutation_action state;
  resource_type = text "TenantAgentControl";
  resource_id = resource;
  before = some (
      field (text "agentId") (str (agent_text agent))
        (field (text "state") (str (state_text was)) end));
  after = some (
      field (text "agentId") (str (agent_text agent)) (
        field (text "state") (str (state_text state)) (
          field (text "reversible") (bool true)
            (field (text "mutationKind") (str (mutation_kind state)) end))));
  triggered_by = triggered_by;
  success = true;
  message = none;
}

unfoldable pub same_state : ControlState → ControlState → Bool
same_state active active = true
same_state paused paused = true
same_state _ _ = false

-- The common text of `pauseAgent` and `resumeAgent`, after the agent's name is known.
unfoldable pub set_state :
    Env → Text → AgentId → ControlState → Text → ControlState → Action Changed
set_state env tenant agent state triggered_by was =
    branch (same_state was state)
      (pure (record { agent = agent; state = state; idempotent = true; action_id = none }))
      (do
        control ← upsert_control env tenant agent state triggered_by
        row ← log env (change_entry tenant agent was state control triggered_by)
        pure (record { agent = agent; state = state; idempotent = false; action_id = some row }))

unfoldable pub change_agent : Env → ControlState → Text → Text → Text → Action Changed
unfolding set_state same_state upsert_control change_entry assert_tenant get_control_state
change_agent env state tenant agent_id triggered_by = do
  agent ← or_throw (to_agent agent_id) (not_found (text "Unknown agent: " ++ agent_id))
  _ ← assert_tenant tenant
  was ← get_control_state tenant agent
  set_state env tenant agent state triggered_by was

unfoldable pub pause_agent : Env → Text → Text → Text → Action Changed
unfolding change_agent
pause_agent env tenant agent_id triggered_by = change_agent env paused tenant agent_id triggered_by

unfoldable pub resume_agent : Env → Text → Text → Text → Action Changed
unfolding change_agent
resume_agent env tenant agent_id triggered_by = change_agent env active tenant agent_id triggered_by
