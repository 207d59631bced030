-- ===== src/Prospects/Decisions.antt =====
-- `approveCandidate` and `rejectCandidate` of src/prospect-discovery/prospect-discovery.service.ts.
use zex_platform.Base.{Text, text, Bool, true, false, not, Option, none, some, ◌++◌, ◌||◌}
use zex_platform.Base.Effects.{bad_request, pure, modify, ◌>>=◌, ◌>>◌, throw_if}
use zex_platform.Json.{str, Fields, end, field}
use zex_platform.Store.{CandidateStatus, Dedupe, Candidate, Action, Env, Entry, log, logged}
use zex_platform.Sdr.Statuses.{candidate_status_text}
use zex_platform.Prospects.Lookups.{require_candidate, set_candidate}

abbrev pub is_duplicate : CandidateStatus → Bool
is_duplicate CandidateStatus.duplicate = true
is_duplicate _ = false

abbrev pub is_exact : Dedupe → Bool
is_exact Dedupe.exact_match = true
is_exact _ = false

abbrev pub is_possible : Dedupe → Bool
is_possible Dedupe.possible_match = true
is_possible _ = false

-- `['PROPOSED', 'FAILED'].includes(status)`
abbrev pub is_approvable : CandidateStatus → Bool
is_approvable CandidateStatus.proposed = true
is_approvable CandidateStatus.failed = true
is_approvable _ = false

-- `['CREATED', 'REJECTED'].includes(status)`
abbrev pub is_settled : CandidateStatus → Bool
is_settled CandidateStatus.created = true
is_settled CandidateStatus.rejected = true
is_settled _ = false

abbrev pub approved_row : Candidate → Candidate
approved_row c = record c { status = CandidateStatus.approved; last_error = none }

abbrev pub rejected_row : Candidate → Candidate
rejected_row c = record c { status = CandidateStatus.rejected }

status_field : CandidateStatus → Option Fields
unfolding candidate_status_text
status_field s = some (field (text "status") (str (candidate_status_text s)) end)

decided : Text → Text → Candidate → CandidateStatus → Text → Entry
unfolding status_field
decided tenant action c now by =
    record (logged tenant action (text "ProspectCandidate") c.id (status_field now) by) {
      before = status_field c.status;
    }

unfoldable pub check_decidable : Candidate → Action (Unit {0})
check_decidable c = do
  throw_if (is_duplicate c.status || is_exact c.dedupe)
      (bad_request (text "Exact CRM duplicates cannot be approved for creation"))
  throw_if (is_possible c.dedupe) (
      bad_request
        (text "Possible CRM matches require explicit override (not supported in v1 auto-approve)"))
  throw_if (not (is_approvable c.status))
      (bad_request (text "Cannot approve candidate in status " ++ candidate_status_text c.status))

unfoldable pub approve_candidate : Env → Text → Text → Text → Action Candidate
unfolding decided
approve_candidate env tenant id by = do
  c ← require_candidate tenant id
  check_decidable c
  modify (set_candidate id approved_row)
  _ ← log env (decided tenant (text "prospect_candidate_approved") c CandidateStatus.approved by)
  pure (approved_row c)

unfoldable pub reject_candidate : Env → Text → Text → Text → Action Candidate
unfolding decided
reject_candidate env tenant id by = do
  c ← require_candidate tenant id
  throw_if (is_settled c.status)
      (bad_request (text "Cannot reject candidate in status " ++ candidate_status_text c.status))
  modify (set_candidate id rejected_row)
  _ ← log env (decided tenant (text "prospect_candidate_rejected") c CandidateStatus.rejected by)
  pure (rejected_row c)
