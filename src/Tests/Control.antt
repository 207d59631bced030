-- ===== src/Tests/Control.antt =====
-- Pausing, resuming and undoing.
use zex_platform.Base.{
  ℕ, zero, suc, Text, text, text_eq, ◌≡◌, refl, ap, true, false, none, some, List, [], ◌∷◌, arith,
  find_first, length, select,
}
use zex_platform.Base.Effects.{ok, err, bad_request, conflict}
use zex_platform.Store.{AuditLog, ai_sdr, active, paused, Db, log}
use zex_platform.Json.{get}
use zex_platform.AgentControl.Mapper.{has, control_actions}
use zex_platform.AgentControl.Agents.{to_agent}
use zex_platform.AgentControl.Service.{
  Changed, change_agent, pause_agent, resume_agent, assert_agent_not_paused, paused_message,
  state_in, same_agent,
}
use zex_platform.AgentControl.Undo.{
  Undone, undo_action, is_control_row, load_control_undo_context, control_rows,
}
use zex_platform.AgentControl.Undoing.{undo-change_agent, undo-change_agent_full}
use zex_platform.AgentControl.Changes.{gate-pause_agent, gate-resume_agent}
use zex_platform.Tests.Rows.{an_env, empty_db}

abbrev paused_now : Changed
paused_now = record {
  agent = ai_sdr;
  state = paused;
  idempotent = false;
  action_id = some (b'0' ∷ 1 ∷ []);
}

abbrev paused_db : Db
paused_db = (pause_agent an_env (text "t") (text "ai_sdr") (text "u") empty_db).1

pauses :
    pause_agent an_env (text "t") (text "ai_sdr") (text "u") empty_db ≡ (ok paused_now, paused_db)
unfolding pause_agent to_agent text_eq text find_first log
pauses = refl

gate-pause_agent_example :
    (assert_agent_not_paused an_env (text "t") ai_sdr (text "v") paused_db).0
    ≡ err (bad_request (paused_message ai_sdr))
gate-pause_agent_example =
    gate-pause_agent an_env (text "t") (text "ai_sdr") (text "u") (text "v") empty_db paused_now
      paused_db pauses

abbrev active_now : Changed
active_now = record {
  agent = ai_sdr;
  state = active;
  idempotent = false;
  action_id = some (b'0' ∷ 2 ∷ []);
}

abbrev active_db : Db
active_db = (resume_agent an_env (text "t") (text "ai_sdr") (text "u") paused_db).1

resumes :
    resume_agent an_env (text "t") (text "ai_sdr") (text "u") paused_db ≡ (ok active_now, active_db)
unfolding resume_agent pause_agent to_agent text_eq text find_first log same_agent
resumes = refl

gate-resume_agent_example :
    assert_agent_not_paused an_env (text "t") ai_sdr (text "v") active_db ≡ (ok tt, active_db)
gate-resume_agent_example =
    gate-resume_agent an_env (text "t") (text "ai_sdr") (text "u") (text "v") paused_db active_now
      active_db resumes

changes :
    change_agent an_env paused (text "t") (text "ai_sdr") (text "u") empty_db
    ≡ (ok paused_now, paused_db)
unfolding pause_agent
changes = pauses

undo-change_agent_example :
    (u : Undone) × ((undo_action an_env (text "t") (b'0' ∷ 1 ∷ []) (text "v") paused_db).0 ≡ ok u)
    × (u.agent ≡ ai_sdr)
    × (u.state ≡ state_in (text "t") ai_sdr empty_db.controls)
    × (u.idempotent ≡ false)
    × (state_in
          (text "t")
          ai_sdr
          (undo_action an_env (text "t") (b'0' ∷ 1 ∷ []) (text "v") paused_db).1.controls
        ≡ state_in (text "t") ai_sdr empty_db.controls)
unfolding load_control_undo_context control_rows select
undo-change_agent_example =
    undo-change_agent an_env paused (text "t") (text "ai_sdr") (text "u") (text "v") empty_db
      paused_now paused_db (b'0' ∷ 1 ∷ []) changes refl refl (unfold select in omega arith)

-- A trail of control rows that no agent's state depends on.
abbrev old_row : AuditLog
old_row = record {
  id = text "o";
  tenant = text "t";
  action = text "agent_control_paused";
  resource_type = text "TenantAgentControl";
  resource_id = text "k";
  before = none;
  after = none;
  triggered_by = text "u";
  success = true;
  message = none;
}

abbrev old_rows : ℕ → List AuditLog
old_rows zero = []
old_rows (suc n) = old_row ∷ old_rows n

control_rows_count : (n : ℕ) → length (select (is_control_row (text "t")) (old_rows n)) ≡ n
unfolding select is_control_row text text_eq has control_actions
control_rows_count zero = refl
control_rows_count (suc n) = ap suc (control_rows_count n)

abbrev full_db : Db
full_db = record empty_db { audit = old_rows 2000 }

abbrev full_after : Db
full_after = (pause_agent an_env (text "t") (text "ai_sdr") (text "u") full_db).1

full_changes :
    change_agent an_env paused (text "t") (text "ai_sdr") (text "u") full_db
    ≡ (ok paused_now, full_after)
unfolding pause_agent change_agent to_agent text_eq text find_first log
full_changes = refl

undo-change_agent_full_example :
    (why : Text) × (undo_action an_env (text "t") (b'0' ∷ 1 ∷ []) (text "v") full_after
      ≡ (err (conflict why), full_after))
unfolding load_control_undo_context control_rows select is_control_row text_eq text get
undo-change_agent_full_example =
    undo-change_agent_full an_env paused (text "t") (text "ai_sdr") (text "u") (text "v") full_db
      paused_now full_after (b'0' ∷ 1 ∷ []) full_changes refl refl refl
      (omega (arith, control_rows_count 2000))
