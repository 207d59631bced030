-- ===== src/AgentControl/Timeline.antt =====
-- `computeLatestEligibleControlActions` of src/agent-control/agent-action-mapper.ts: which pause or
-- resume may be undone, from the control rows of the audit trail, the oldest first.
use zex_platform.Base.{
  Text, text, text_eq, Bool, false, Option, none, some, List, [], ◌∷◌, ◌||◌, is_some, if◌then◌else◌,
}
use zex_platform.Base.Texts.{non_empty}
use zex_platform.Json.{Fields, get, as_text}

pub record Row : Type 0 where
  pub id : Text
  pub action : Text
  pub after : Option Fields

-- A `Map`: a later entry hides an earlier one of its key.
unfoldable pub lookup {ℓ} : {V : Type ℓ} → Text → List (Text × V) → Option V
lookup k [] = none
lookup k ((j, v) ∷ m) = if text_eq j k then some v else lookup k m

-- `latest` is `latestEligibleByAgent`, whose values may be null.
pub record Eligible : Type 0 where
  pub undone_of : List (Text × Text)
  pub latest : List (Text × Option Text)

-- An id in a condition: the empty text is falsy.
unfoldable pub truthy : Option Text → Option Text
unfolding non_empty
truthy none = none
truthy (some t) = non_empty t

abbrev pub flat : Option (Option Text) → Option Text
flat none = none
flat (some o) = o

abbrev pub matches : Option Text → Text → Bool
matches none u = false
matches (some v) u = text_eq v u

unfoldable pub add_undo : Text → Text → List (Text × Text) → List (Text × Text)
add_undo undo_of id undone =
    if is_some (lookup undo_of undone) then undone else (undo_of, id) ∷ undone

unfoldable pub clear : Text → Option Text → List (Text × Option Text) → List (Text × Option Text)
clear undo_of none latest = latest
clear undo_of (some agent) latest =
    if matches (flat (lookup agent latest)) undo_of then (agent, none) ∷ latest else latest

unfoldable pub undo_row : Text → Option Text → Option Text → Eligible → Eligible
unfolding add_undo clear
undo_row id agent none e = e
undo_row id agent (some undo_of) e = record {
  undone_of = add_undo undo_of id e.undone_of;
  latest = clear undo_of agent e.latest;
}

unfoldable pub control_row : Text → Option Text → Eligible → Eligible
control_row id none e = e
control_row id (some agent) e = record e { latest = (agent, some id) ∷ e.latest }

unfoldable pub row_step : Eligible → Row → Eligible
unfolding undo_row control_row truthy
row_step e row =
    let agent = truthy (as_text (get (text "agentId") row.after)) in
    if text_eq row.action (text "agent_control_undo")
    then undo_row row.id agent (as_text (get (text "undoOf") row.after)) e
    else if text_eq row.action (text "agent_control_paused")
        || text_eq row.action (text "agent_control_resumed")
    then control_row row.id agent e
    else e

unfoldable pub rows_from : Eligible → List Row → Eligible
rows_from e [] = e
rows_from e (row ∷ rows) = rows_from (row_step e row) rows

unfoldable pub latest_eligible : List Row → Eligible
unfolding rows_from row_step lookup
latest_eligible rows = rows_from (record { undone_of = []; latest = [] }) rows
