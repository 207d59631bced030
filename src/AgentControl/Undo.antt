-- ===== src/AgentControl/Undo.antt =====
-- `loadControlUndoContext` and `undoAction` of src/agent-control/agent-control.service.ts.
use mathlib.Core.List.{reverse}
use zex_platform.Base.{
  Text, text, text_eq, ℕ, Bool, true, false, Option, none, some, List, ◌++◌, ◌&&◌, not, find_first,
  select, take, map, if◌then◌else◌,
}
use zex_platform.Base.Effects.{
  bad_request, not_found, conflict, pure, throw, gets, ◌>>=◌, ◌>>◌, or_throw, throw_if, branch,
}
use zex_platform.Json.{str, bool, Fields, end, field, get, as_text, is_true}
use zex_platform.Store.{
  AgentId, ControlState, active, paused, AuditLog, Db, Action, Env, Entry, log, has_id,
}
use zex_platform.AgentControl.Agents.{agent_text, to_agent, state_text, to_state}
use zex_platform.AgentControl.Mapper.{has, control_actions, is_control_mutation_reversible}
use zex_platform.AgentControl.Timeline.{Row, Eligible, lookup, latest_eligible}
use zex_platform.AgentControl.Service.{assert_tenant, get_control_state, upsert_control}

-- `take: 2000`
unfoldable pub control_window : ℕ
control_window = 2000

unfoldable pub is_control_row : Text → AuditLog → Bool
unfolding has control_actions
is_control_row tenant row = text_eq row.tenant tenant && has control_actions row.action

abbrev pub timeline_row : AuditLog → Row
timeline_row r = record { id = r.id; action = r.action; after = r.after }

-- The control rows of a tenant, the oldest first, no more than the window.
unfoldable pub control_rows : Text → List AuditLog → List Row
unfolding control_window is_control_row
control_rows tenant audit =
    map timeline_row (take control_window (reverse (select (is_control_row tenant) audit)))

unfoldable pub load_control_undo_context : Text → Db → Eligible
unfolding control_rows latest_eligible
load_control_undo_context tenant db = latest_eligible (control_rows tenant db.audit)

-- What an undo returns.
pub record Undone : Type 0 where
  pub agent : AgentId
  pub state : ControlState
  pub idempotent : Bool
  pub undo_action_id : Text

abbrev pub named_agent : Option Fields → Option AgentId
named_agent after = elim (as_text (get (text "agentId") after)) [
  | none ↦ none
  | some t ↦ to_agent t
]

-- The state before the action, or the opposite of what the action did.
unfoldable pub restore_state : AuditLog → ControlState
unfolding to_state
restore_state row = elim (as_text (get (text "state") row.before)) [
  | none ↦ opposite
  | some t ↦ elim (to_state t) [ none ↦ opposite | some s ↦ s ]
]
  where
    opposite : ControlState
    opposite = if text_eq row.action (text "agent_control_paused") then active else paused

unfoldable pub undo_entry :
    Text → AgentId → ControlState → ControlState → AuditLog → Text → Text → Entry
undo_entry tenant agent current restored row resource triggered_by = record {
  tenant = tenant;
  action = text "agent_control_undo";
  resource_type = text "TenantAgentControl";
  resource_id = resource;
  before = some (
      field (text "agentId") (str (agent_text agent))
        (field (text "state") (str (state_text current)) (field (text "undoOf") (str row.id) end)));
  after = some (
      field (text "agentId") (str (agent_text agent)) (
        field (text "state") (str (state_text restored)) (
          field (text "undoOf") (str row.id) (
            field (text "reversible") (bool false)
              (field (text "mutationKind") (str (text "undo")) end)))));
  triggered_by = triggered_by;
  success = true;
  message = some (text "Undid " ++ row.action);
}

unfoldable pub apply_undo : Env → Text → AuditLog → AgentId → Text → Action Undone
apply_undo env tenant row agent triggered_by = do
  current ← get_control_state tenant agent
  control ← upsert_control env tenant agent (restore_state row) triggered_by
  undo ← log env (undo_entry tenant agent current (restore_state row) row control triggered_by)
  pure (record {
    agent = agent;
    state = restore_state row;
    idempotent = false;
    undo_action_id = undo;
  })

unfoldable pub already_undone : Text → AgentId → Text → Action Undone
already_undone tenant agent undo = do
  current ← get_control_state tenant agent
  pure (record { agent = agent; state = current; idempotent = true; undo_action_id = undo })

abbrev pub names : Option (Option Text) → Text → Bool
names none id = false
names (some none) id = false
names (some (some latest)) id = text_eq latest id

unfoldable pub undo_first : Env → Text → AuditLog → AgentId → Text → Eligible → Action Undone
undo_first env tenant row agent triggered_by e =
    branch (names (lookup (agent_text agent) e.latest) row.id)
      (apply_undo env tenant row agent triggered_by)
      (throw (
        conflict (
          text "Action "
          ++ row.id
          ++ text " is superseded by a newer control mutation for "
          ++ agent_text agent
          ++ text "; only the latest effective pause/resume may be undone")))

unfoldable pub undo_unless :
    Env → Text → AuditLog → AgentId → Text → Eligible → Option Text → Action Undone
undo_unless env tenant row agent triggered_by e none =
    undo_first env tenant row agent triggered_by e
undo_unless env tenant row agent triggered_by e (some undo) = already_undone tenant agent undo

unfoldable pub undo_control : Env → Text → AuditLog → AgentId → Text → Eligible → Action Undone
unfolding undo_unless undo_first apply_undo already_undone undo_entry
undo_control env tenant row agent triggered_by e =
    undo_unless env tenant row agent triggered_by e (lookup row.id e.undone_of)

abbrev pub is_reversible : AuditLog → Bool
is_reversible row =
    is_control_mutation_reversible row.action && is_true (get (text "reversible") row.after)

abbrev pub not_reversible : AuditLog → Text
not_reversible row =
    if not (is_control_mutation_reversible row.action)
    then text "Action " ++ row.action ++ text " is not reversible (irreversible domain effect)"
    else text "Action " ++ row.action ++ text " is not reversible"

unfoldable pub undo_action : Env → Text → Text → Text → Action Undone
unfolding assert_tenant undo_control load_control_undo_context has_id
undo_action env tenant action_id triggered_by = do
  _ ← assert_tenant tenant
  found ← gets λ db. find_first (λ r. has_id action_id tenant r.id r.tenant) db.audit
  row ← or_throw found (not_found (text "Agent action not found"))
  throw_if (not (is_reversible row)) (bad_request (not_reversible row))
  agent ← or_throw (named_agent row.after) (bad_request (text "Control action missing agentId"))
  e ← gets (load_control_undo_context tenant)
  undo_control env tenant row agent triggered_by e
