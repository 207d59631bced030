-- ===== src/Sdr/Lookups.antt =====
-- The lookups of ai-sdr.service.ts that throw.
use zex_platform.Base.{Text, text, find_first}
use zex_platform.Base.Effects.{not_found, gets, ◌>>=◌, or_throw}
use zex_platform.Store.{Candidate, Sequence, Draft, Action}
use zex_platform.Sdr.Statuses.{the_sequence, the_draft, the_candidate}

unfoldable pub require_candidate : Text → Text → Action Candidate
require_candidate tenant id = do
  found ← gets λ db. find_first (the_candidate tenant id) db.candidates
  or_throw found (not_found (text "Prospect candidate not found"))

unfoldable pub require_sequence : Text → Text → Action Sequence
require_sequence tenant id = do
  found ← gets λ db. find_first (the_sequence tenant id) db.sequences
  or_throw found (not_found (text "SDR sequence not found"))

unfoldable pub require_draft : Text → Text → Action Draft
require_draft tenant id = do
  found ← gets λ db. find_first (the_draft tenant id) db.drafts
  or_throw found (not_found (text "SDR draft not found"))
