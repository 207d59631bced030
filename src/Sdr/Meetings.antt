-- ===== src/Sdr/Meetings.antt =====
-- `confirmMeeting` of src/ai-sdr/ai-sdr.service.ts.
use zex_platform.Base.{Text, text, text_eq, Bool, true, false, some, ◌&&◌, find_first, update_where}
use zex_platform.Base.Effects.{
  bad_request, pure, lift, gets, modify, ◌>>=◌, ◌>>◌, or_throw, throw_if,
}
use zex_platform.Json.{str, end, field}
use zex_platform.Store.{SequenceStatus, Booking, Action, Env, log, logged}
use zex_platform.Sdr.Templates.{some_text}
use zex_platform.Sdr.Lookups.{require_sequence}
use zex_platform.Sdr.Replies.{set_sequence_status}

abbrev pub booking_of : Text → Text → Booking → Bool
booking_of tenant sequence_id b = text_eq b.tenant tenant && text_eq b.sequence_id sequence_id

abbrev pub is_cancelled : SequenceStatus → Bool
is_cancelled SequenceStatus.cancelled = true
is_cancelled _ = false

abbrev pub booked_as : Text → Booking → Booking
booked_as meeting_id b = record b { booked = true; provider_meeting_id = some meeting_id }

abbrev missing : Text
missing = text "Meeting booking proposal not found"

unfoldable pub confirm_meeting : Env → Text → Text → Text → Action Booking
unfolding set_sequence_status
confirm_meeting env tenant sequence_id by = do
  s ← require_sequence tenant sequence_id
  found ← gets λ db. find_first (booking_of tenant sequence_id) db.bookings
  b ← or_throw found (bad_request missing)
  link ← or_throw (some_text b.booking_link) (bad_request missing)
  throw_if (is_cancelled s.status) (bad_request (text "Sequence cancelled"))
  meeting_id ← lift (env.confirm b.id link)
  modify λ db. record db {
    bookings = update_where (λ x. text_eq x.id b.id) (booked_as meeting_id) db.bookings;
  }
  modify (set_sequence_status sequence_id SequenceStatus.completed)
  _ ← log env (
      logged tenant (text "sdr_meeting_booked") (text "SdrMeetingBooking") b.id
        (some (field (text "providerMeetingId") (str meeting_id) end)) by)
  pure (booked_as meeting_id b)
