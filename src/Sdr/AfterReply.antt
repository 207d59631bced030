-- ===== src/Sdr/AfterReply.antt =====
-- What an inbound reply guarantees: the sequence is stopped for good, and is sent no further email.
use mathlib.Core.Option
use zex_platform.Base.{
  ℕ, ◌≤◌, Text, text, text_eq, text_eq_refl, ◌≡◌, ◌≢◌, refl, sym, ap, ◌∙◌, inl, inr, text_eq_sound,
  true, false, not, Option, none, some, List, ◌&&◌, arith, find_first, find_first-update_where,
  find_first_sound, touched, is_some, Option-cases,
}
use zex_platform.Base.Effects.{Result, ok, err, not_found, throw_if, or_throw, pure, ◌>>=◌}
use zex_platform.Outcomes.{bind_returns, then_returns, throw_if_returns, or_throw_returns}
use zex_platform.Store.{Sequence, Message, SendInput, Db, Env, log, has_id}
use zex_platform.Frames.{pure-Within, bind-Within, then-Within}
use zex_platform.Sdr.Statuses.{is_stop, the_sequence}
use zex_platform.Sdr.Replies.{
  ReplyEvent, Source, Match, match_of, of_event, of_provider, conflicts, by_provider_message,
  by_sequence, is_webhook, correlate, status_after, set_sequence_status, store_reply, stop_sequence,
  adapt, ingest_new, ingest_unless, ingest_reply,
}
use zex_platform.Sdr.Requests.{Asked, serve_all}
use zex_platform.Sdr.Lookups.{require_sequence}
use zex_platform.Sdr.Writes.{
  require_sequence-Within, adapt-Within, note_reply-Within, status_after-is_stop,
}
use zex_platform.Sdr.Silence.{emails_of, Silent, Stays-Permits, serve_all-Silent}

module _ (env : Env) (tenant : Text) (e : ReplyEvent) (by : Text) (db : Db) (w : Match)
    (fresh : (n : ℕ) → db.next_row ≤ n → env.cuid n ≢ w.sequence.id)
    (known : find_first (the_sequence tenant w.sequence.id) db.sequences ≡ some w.sequence) where
  abbrev stored : Db
  stored = (store_reply env tenant w e by db).1

  abbrev stopped_db : Db
  stopped_db = (stop_sequence env tenant w e by stored).1

  abbrev before_reply : List SendInput
  before_reply = emails_of tenant w.sequence.id db

  stopped-Silent : Silent env tenant w.sequence.id before_reply stopped_db
  unfolding stop_sequence store_reply set_sequence_status log emails_of
  stopped-Silent =
      let f = λ (s : Sequence). record s { status = status_after e.classification } in
      let q = λ (s : Sequence). text_eq s.id w.sequence.id in
      record {
        fresh = λ n h. fresh n (omega arith);
        row = touched q f w.sequence;
        found =
            find_first-update_where (the_sequence tenant w.sequence.id) q f db.sequences (λ x. refl)
            ∙ ap (Option.map (touched q f)) known;
        stopped = rw (text_eq_refl w.sequence.id) (status_after-is_stop e.classification);
        emails = refl;
      }

  ingest_new-Silent :
      Silent env tenant w.sequence.id before_reply (ingest_new env tenant w e by db).1
  unfolding ingest_new store_reply stop_sequence adapt log
  ingest_new-Silent =
      let p = Stays-Permits env tenant w.sequence.id before_reply in
      (then-Within p.order _ _ (adapt-Within p env tenant w e by) (
          then-Within p.order _ _ (note_reply-Within p env tenant w e _) (
            bind-Within p.order _ _ (require_sequence-Within p tenant w.sequence.id)
              (λ s. pure-Within p.order _)))).run
        stopped_db stopped-Silent

require_sequence-known :
    (tenant id : Text) (s : Sequence) (db : Db)
    → (require_sequence tenant id db).0 ≡ ok s
    → find_first (the_sequence tenant s.id) db.sequences ≡ some s
unfolding require_sequence
require_sequence-known tenant id s db h =
    elim (Option-cases (find_first (the_sequence tenant id) db.sequences)) [
      | inl absent ↦ ground (arith, absent)
      | inr (t, present) ↦
          let same : t ≡ s = ground (arith, present) in
          let its : text_eq t.id id ≡ true =
            unfold has_id in
            ground (arith, find_first_sound (the_sequence tenant id) db.sequences present) in
          rw (sym same) (
            ap (λ i. find_first (the_sequence tenant i) db.sequences) (text_eq_sound t.id id its)
            ∙ present)
    ]

match_known :
    (tenant id : Text) (m : Option Message) (w : Match) (db db' : Db)
    → (require_sequence tenant id >>= (λ s. pure (match_of s m))) db ≡ (ok w, db')
    → find_first (the_sequence tenant w.sequence.id) db.sequences ≡ some w.sequence
match_known tenant id m w db db' h =
    let r = bind_returns (require_sequence tenant id) (λ s. pure (match_of s m)) db w db' h in
    let same : w.sequence ≡ r.value =
      ap (λ (x : Result Match × Db). sequence_of x.0) (sym r.next) in
    rw same (require_sequence-known tenant id r.value db (ap (λ x. x.0) r.here))
  where
    sequence_of : Result Match → Sequence
    sequence_of (ok v) = v.sequence
    sequence_of (err e) = w.sequence

-- A match that was found is a row of the table.
correlate-known :
    (tenant : Text) (e : ReplyEvent) (provider_id : Option Text) (w : Match) (db db' : Db)
    → correlate tenant e provider_id db ≡ (ok w, db')
    → find_first (the_sequence tenant w.sequence.id) db.sequences ≡ some w.sequence
unfolding correlate by_provider_message by_sequence
correlate-known tenant e none w db db' h = known_sequence e.sequence_id h
  where
    known_sequence :
        (id : Option Text)
        → by_sequence tenant id db ≡ (ok w, db')
        → find_first (the_sequence tenant w.sequence.id) db.sequences ≡ some w.sequence
    known_sequence none h = ground arith
    known_sequence (some id) h = match_known tenant id none w db db' h
correlate-known tenant e (some provider_id) w db db' h =
    let found = find_first (of_provider tenant provider_id) db.messages in
    let r =
      bind_returns (or_throw found (not_found (text "Outbound message for reply not found"))) _ db w
        db' h in
    let (_, same) = or_throw_returns found _ db r.value r.left r.here in
    let q =
      then_returns (throw_if (conflicts e.sequence_id r.value.sequence_id) _) _ r.left w db'
        r.next in
    let (_, same') =
      throw_if_returns (conflicts e.sequence_id r.value.sequence_id) _ r.left tt q.left q.here in
    rw (same ∙ same') (match_known tenant r.value.sequence_id (some r.value) w q.left db' q.next)

-- No other request runs while a send waits.
abbrev pub alone : Env → Env
alone env = record env { before_send = λ s. s; during_send = λ s. s }

-- While a send waits, other requests are served, each at a time of its own.
abbrev pub among : Env → List Asked → List Asked → Env
among env before during = record env {
  before_send = serve_all (alone env) before;
  during_send = serve_all (alone env) during;
}

module _ (env : Env) (before during : List Asked) (tenant id : Text) (sent : List SendInput) where
  into_alone :
      (s : Db)
      → Silent (among env before during) tenant id sent s
      → Silent (alone env) tenant id sent s
  into_alone s h = record {
    fresh = h.fresh;
    row = h.row;
    found = h.found;
    stopped = h.stopped;
    emails = h.emails;
  }

  from_alone :
      (s : Db)
      → Silent (alone env) tenant id sent s
      → Silent (among env before during) tenant id sent s
  from_alone s h = record {
    fresh = h.fresh;
    row = h.row;
    found = h.found;
    stopped = h.stopped;
    emails = h.emails;
  }

  served_alone :
      (asked : List Asked) (s : Db)
      → Silent (among env before during) tenant id sent s
      → Silent (among env before during) tenant id sent (serve_all (alone env) asked s)
  served_alone asked s h =
      from_alone (serve_all (alone env) asked s)
        (serve_all-Silent (alone env) tenant id sent (λ s h. h) (λ s h. h) asked s (into_alone s h))

  among-Silent :
      (asked : List Asked) (s : Db)
      → Silent (among env before during) tenant id sent s
      → Silent
          (among env before during)
          tenant
          id
          sent
          (serve_all (among env before during) asked s)
  among-Silent =
      serve_all-Silent (among env before during) tenant id sent (served_alone before)
        (served_alone during)

-- A new reply that can be matched with a sequence stops the sequence for good: whatever requests are
-- served later, each of whose sends other requests may interrupt at its two waits, the sequence's row is
-- there with a stop status, and the provider was asked for no further email of it. The handler may
-- itself throw after the sequence was stopped. The conditions: no reply of the event was stored before,
-- a webhook's event names a message, and a new row never gets the sequence's id.
pub silence-ingest_reply :
    (env : Env) (before during later : List Asked) (tenant : Text) (e : ReplyEvent)
    (source : Source) (by : Text) (db : Db) (w : Match)
    → find_first (of_event tenant e.provider_event_id) db.replies ≡ none
    → (is_webhook source && not (is_some e.provider_message_id)) ≡ false
    → correlate tenant e e.provider_message_id db ≡ (ok w, db)
    → ((n : ℕ) → db.next_row ≤ n → env.cuid n ≢ w.sequence.id)
    → (row : Sequence) × (find_first
          (the_sequence tenant w.sequence.id)
          (serve_all
            (among env before during)
            later
            (ingest_reply (among env before during) tenant e source by db).1).sequences
        ≡ some row)
      × (is_stop row.status ≡ true)
      × (emails_of tenant w.sequence.id (
            serve_all
              (among env before during)
              later
              (ingest_reply (among env before during) tenant e source by db).1)
          ≡ emails_of tenant w.sequence.id db)
silence-ingest_reply env before during later tenant e source by db w unseen named found fresh =
    let env' = among env before during in
    let sent = emails_of tenant w.sequence.id db in
    let known = correlate-known tenant e e.provider_message_id w db db found in
    let runs : (ingest_reply env' tenant e source by db).1 ≡ (ingest_new env' tenant w e by db).1 =
      unfold ingest_reply ingest_unless in rw (unseen, ingest_unless, named, found) refl in
    let st =
      among-Silent env before during tenant w.sequence.id sent later
        (ingest_reply env' tenant e source by db).1
        (rw runs (ingest_new-Silent env' tenant e by db w fresh known)) in
    (st.row, st.found, st.stopped, st.emails)
