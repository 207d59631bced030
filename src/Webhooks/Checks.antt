-- ===== src/Webhooks/Checks.antt =====
-- src/webhooks/signature.service.ts and src/webhooks/idempotency.service.ts. A key of a seen webhook
-- counts for a day from its mark; Redis and the service are taken to agree on the time.
use zex_platform.Base.{
  ℕ, ◌+◌, ◌*◌, Text, text, text_eq, Bool, true, false, not, ◌&&◌, ◌||◌, Option, none, some, List,
  [], ◌∷◌, ◌++◌, any, ltb, leb, drop, if◌then◌else◌,
}
use zex_platform.Base.Texts.{starts_with}
use zex_platform.Base.Effects.{pure, gets, modify, ◌>>=◌, ◌>>◌}
use zex_platform.Store.{SeenKey, Db, Action, Env}

abbrev pub is_empty : Text → Bool
is_empty [] = true
is_empty (c ∷ s) = false

-- The signature without `sha256=`.
unfoldable pub provided : Text → Text
unfolding starts_with text
provided s = if starts_with s (text "sha256=") then drop 7 s else s

-- The comparison of the two buffers.
unfoldable pub same_bytes : List ℕ → List ℕ → Bool
unfolding text_eq
same_bytes [] given = false
same_bytes (b ∷ expected) given = text_eq (b ∷ expected) given

unfoldable pub verify_twenty_webhook : Env → Text → Option Text → Text → Option Text → Bool
unfolding provided same_bytes
verify_twenty_webhook env payload (some signature) secret (some timestamp) =
    not (is_empty payload || is_empty signature || is_empty secret || is_empty timestamp)
    && same_bytes (env.from_hex (env.hmac secret (timestamp ++ text ":" ++ payload)))
        (env.from_hex (provided signature))
verify_twenty_webhook env payload _ secret _ = false

-- Milliseconds, or seconds where the number is small.
abbrev pub in_ms : ℕ → ℕ
in_ms t = if leb t 1000000000000 then t * 1000 else t

unfoldable pub is_timestamp_fresh : Option ℕ → ℕ → Bool
is_timestamp_fresh none now = false
is_timestamp_fresh (some t) now = leb (in_ms t) now && leb now (in_ms t + 300000)

abbrev pub key_of : Text → Text
key_of event_id = text "webhook:" ++ event_id

-- `WEBHOOK_TTL_SECONDS`
abbrev pub webhook_ttl_seconds : ℕ
webhook_ttl_seconds = 24 * 60 * 60

-- A key that has not expired.
abbrev pub is_live : Text → ℕ → SeenKey → Bool
is_live key now k = text_eq key k.key && ltb now k.expires

abbrev pub has_seen : Text → ℕ → Db → Bool
has_seen event_id now db = any (is_live (key_of event_id) now) db.seen

abbrev pub mark_until : Text → ℕ → SeenKey
mark_until event_id now = record {
  key = key_of event_id;
  expires = now + webhook_ttl_seconds * 1000;
}

unfoldable pub mark : Text → ℕ → Db → Db
mark event_id now db = record db {
  seen = if has_seen event_id now db then db.seen else mark_until event_id now ∷ db.seen;
}

-- `SET key 1 EX ttl NX` at the time `now`.
unfoldable pub has_seen_or_mark : Text → ℕ → Action Bool
unfolding mark
has_seen_or_mark event_id now = do
  known ← gets (has_seen event_id now)
  modify (mark event_id now)
  pure known
