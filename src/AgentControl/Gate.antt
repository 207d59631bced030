-- ===== src/AgentControl/Gate.antt =====
-- What the gate and the stored state of an agent guarantee.
use zex_platform.Base.{
  Text, text_eq_refl, ◌≡◌, ◌≢◌, refl, inl, inr, true, false, arith, find_first, find_first_sound,
  find_first-update_where, Option-cases,
}
use zex_platform.Store.{AgentId, research_agent, ai_sdr, ControlState, Db, Env}
use zex_platform.AgentControl.Service.{same_agent, of_agent, state_in, put_control}

pub same_agent_refl : (a : AgentId) → same_agent a a ≡ true
unfolding same_agent
same_agent_refl research_agent = refl
same_agent_refl ai_sdr = refl

pub same_agent_ne : (a b : AgentId) → a ≢ b → same_agent a b ≡ false
unfolding same_agent
same_agent_ne research_agent research_agent h = absurd (h refl)
same_agent_ne research_agent ai_sdr h = refl
same_agent_ne ai_sdr research_agent h = refl
same_agent_ne ai_sdr ai_sdr h = absurd (h refl)

-- After an upsert the agent has the state that was asked for.
pub state_in-put_control :
    (env : Env) (tenant : Text) (agent : AgentId) (state : ControlState) (by : Text) (db : Db)
    → state_in tenant agent (put_control env tenant agent state by db).controls ≡ state
unfolding put_control find_first
state_in-put_control env tenant agent state by db =
    elim (Option-cases (find_first (of_agent tenant agent) db.controls)) [
      | inl e ↦ rw e (ground (arith, text_eq_refl tenant, same_agent_refl agent))
      | inr (c, e) ↦ rw e (
          ground (
            arith,
            find_first-update_where (of_agent tenant agent) (of_agent tenant agent)
                (λ c. record c { state = state; updated_by = by }) db.controls (λ x. refl),
            e,
            find_first_sound (of_agent tenant agent) db.controls e,
          ))
    ]
