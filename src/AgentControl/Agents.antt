-- ===== src/AgentControl/Agents.antt =====
-- The agents and their states as texts: the constants of agent-control.types.ts.
use zex_platform.Base.{Text, text, text_eq, Option, none, some, if◌then◌else◌}
use zex_platform.Store.{AgentId, research_agent, ai_sdr, ControlState, active, paused}

unfoldable pub agent_text : AgentId → Text
agent_text research_agent = text "research_agent"
agent_text ai_sdr = text "ai_sdr"

-- `isAgentId`, with the agent that the text names
unfoldable pub to_agent : Text → Option AgentId
to_agent t =
    if text_eq t (text "research_agent")
    then some research_agent
    else if text_eq t (text "ai_sdr")
    then some ai_sdr
    else none

unfoldable pub state_text : ControlState → Text
state_text active = text "ACTIVE"
state_text paused = text "PAUSED"

unfoldable pub to_state : Text → Option ControlState
to_state t =
    if text_eq t (text "PAUSED")
    then some paused
    else if text_eq t (text "ACTIVE")
    then some active
    else none
