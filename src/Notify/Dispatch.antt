-- ===== src/Notify/Dispatch.antt =====
-- `dispatch` of the class NotificationDispatcher (services/notification-service/app/core/dispatcher.py),
-- over a Redis server given by the laws of its counters and keys.
use hot_sot.Base.{
  ℕ, suc, ◌+◌, ◌≡◌, Bool, true, false, not, ◌&&◌, ◌||◌, none, List, [], ◌∷◌, ltb, leb, ◌==◌,
  if◌then◌else◌,
}
use hot_sot.Notify.Channels.{
  Channel, sms, push, whatsapp, email, in_app, unknown, Status, sent, rate_limited, blocked,
  duplicate, Outcome, Providers, Addresses, send_to_channel,
}

pub data Priority : Type 0 where
  low normal high urgent : Priority

-- A number for each channel, by which two are compared as texts.
abbrev pub code : Channel → ℕ
code sms = 0
code push = 1
code whatsapp = 2
code email = 3
code in_app = 4
code (unknown name) = name + 5

-- `notif_rate:{tenant_id}:{user_id}:{channel}:{hour}`
pub record RateKey : Type 0 where
  pub tenant : ℕ
  pub user : ℕ
  pub channel : ℕ
  pub hour : ℕ

-- `notif_dedup:{tenant_id}:{user_id}:{channel}:{body_hash}`
pub record DedupKey : Type 0 where
  pub tenant : ℕ
  pub user : ℕ
  pub channel : ℕ
  pub body_hash : ℕ

abbrev pub same_rate : RateKey → RateKey → Bool
same_rate k j =
    k.tenant == j.tenant && k.user == j.user && k.channel == j.channel && k.hour == j.hour

abbrev pub same_dedup : DedupKey → DedupKey → Bool
same_dedup k j =
    k.tenant == j.tenant && k.user == j.user && k.channel == j.channel && k.body_hash == j.body_hash

-- INCR, EXISTS and SETEX. The TTL of a counter, an hour from its first call, ends after the hour that its key
-- names, so EXPIRE is left out.
pub record Redis (S : Type 0) : Type 0 where
  pub count : S → RateKey → ℕ
  pub until : S → DedupKey → ℕ
  pub incr : S → RateKey → S
  pub exists : S → DedupKey → ℕ → Bool
  pub setex : S → DedupKey → ℕ → ℕ → S
  pub count-incr :
      (s : S) (k j : RateKey)
      → count (incr s k) j ≡ (if same_rate k j then suc (count s k) else count s j)
  pub until-incr : (s : S) (k : RateKey) (j : DedupKey) → until (incr s k) j ≡ until s j
  pub exists_until : (s : S) (k : DedupKey) (now : ℕ) → exists s k now ≡ ltb now (until s k)
  pub until-setex :
      (s : S) (k j : DedupKey) (seconds now : ℕ)
      → until (setex s k seconds now) j ≡ (if same_dedup k j then now + seconds else until s j)
  pub count-setex :
      (s : S) (k : DedupKey) (j : RateKey) (seconds now : ℕ)
      → count (setex s k seconds now) j ≡ count s j

-- The arguments of a call; `transactional` says whether the title or the body has one of the keywords.
pub record Request : Type 0 where
  pub tenant : ℕ
  pub user : ℕ
  pub channel : Channel
  pub body : ℕ
  pub transactional : Bool
  pub priority : Priority
  pub addresses : Addresses

-- What the preferences say: no row, or an error, lets every channel pass.
pub data Preferences : Type 0 where
  no_row unreadable : Preferences
  row : Bool → Bool → Bool → Bool → Bool → Preferences

-- What a call meets: Redis and its answers, the session and whether the database takes the writes of the
-- log, the clocks, and the providers.
pub record Scene : Type 0 where
  pub has_redis : Bool
  pub rate_counts : Bool
  pub dedup_reads : Bool
  pub dedup_writes : Bool
  pub has_session : Bool
  pub preferences : Preferences
  pub log_stores : Bool
  pub log_updates : Bool
  pub hour : ℕ
  pub ist_hour : ℕ
  pub now : ℕ
  pub providers : Providers

-- A delivery that was attempted.
pub record Delivery : Type 0 where
  pub rate_key : RateKey
  pub dedup_key : DedupKey
  pub exempt : Bool

pub record World (S : Type 0) : Type 0 where
  pub server : S
  pub logs : List Status
  pub deliveries : List Delivery

abbrev pub is_exempt : Priority → Bool
is_exempt high = true
is_exempt urgent = true
is_exempt _ = false

abbrev pub default_rate_limit_per_hour : ℕ
default_rate_limit_per_hour = 20

-- `_check_preferences`
unfoldable pub check_preferences : Channel → Preferences → Bool
check_preferences c no_row = true
check_preferences c unreadable = true
check_preferences push (row p s e i w) = p
check_preferences sms (row p s e i w) = s
check_preferences email (row p s e i w) = e
check_preferences in_app (row p s e i w) = i
check_preferences whatsapp (row p s e i w) = w
check_preferences (unknown name) (row p s e i w) = true

-- `_check_trai_compliance`, by the hour in India.
unfoldable pub check_trai_compliance : ℕ → Bool
check_trai_compliance hour = not (leb 21 hour || ltb hour 9)

abbrev is_in_app : Channel → Bool
is_in_app in_app = true
is_in_app _ = false

abbrev is_readable : Preferences → Bool
is_readable unreadable = false
is_readable _ = true

-- Whether there is a session, and no statement of it has failed before the delivery.
abbrev pub session_up : Scene → Bool
session_up e = e.has_session && is_readable e.preferences && e.log_stores

abbrev is_sms : Channel → Bool
is_sms sms = true
is_sms _ = false

-- An SMS that is neither transactional nor at an allowed hour.
abbrev pub is_promo_blocked : Request → ℕ → Bool
is_promo_blocked r hour =
    is_sms r.channel && not r.transactional && not (check_trai_compliance hour)

module _ {S : Type 0} (redis : Redis S) (digest : ℕ → ℕ) where
  abbrev pub rate_key : Request → Scene → RateKey
  rate_key r e = record {
    tenant = r.tenant;
    user = r.user;
    channel = code r.channel;
    hour = e.hour;
  }

  abbrev pub dedup_key : Request → DedupKey
  dedup_key r = record {
    tenant = r.tenant;
    user = r.user;
    channel = code r.channel;
    body_hash = digest r.body;
  }

  -- INCR, or its refusal.
  abbrev counted : Bool → RateKey → S → S × Bool
  counted true k s =
      (redis.incr s k, leb (redis.count (redis.incr s k) k) default_rate_limit_per_hour)
  counted false k s = (s, true)

  -- `_check_rate_limit`, which `dispatch` calls where Redis is there. An EXPIRE that is refused lets the
  -- first call of an hour pass, as its count of 1 does.
  unfoldable pub check_rate_limit : Request → Scene → S → S × Bool
  check_rate_limit r e s =
      if e.has_redis && not (is_exempt r.priority)
      then counted e.rate_counts (rate_key r e) s
      else (s, true)

  abbrev pub is_duplicate : Request → Scene → S → Bool
  is_duplicate r e s = e.has_redis && e.dedup_reads && redis.exists s (dedup_key r) e.now

  abbrev is_sent : Status → Bool
  is_sent sent = true
  is_sent _ = false

  -- The row that was stored before the delivery gets the status of the result. Any statement of the session that
  -- fails, that of an in-app notification too, rolls the row back.
  abbrev pub recorded : Request → Scene → Status → List Status → List Status
  recorded r e status logs =
      if session_up e && (not (is_in_app r.channel) || e.providers.db_takes) && e.log_updates
      then status ∷ logs
      else logs

  abbrev marked : Request → Scene → Status → S → S
  marked r e status s =
      if e.has_redis && is_sent status && e.dedup_writes
      then redis.setex s (dedup_key r) 300 e.now
      else s

  -- From the storage before the delivery on.
  unfoldable pub deliver : Request → Scene → World S → World S × Outcome
  deliver r e w =
      let result = send_to_channel r.channel (session_up e) r.addresses e.providers in
      (
        record {
          server = marked r e result.status w.server;
          logs = recorded r e result.status w.logs;
          deliveries =
              record {
                rate_key = rate_key r e;
                dedup_key = dedup_key r;
                exempt = is_exempt r.priority;
              }
              ∷ w.deliveries;
        },
        result,
      )

  abbrev stop : Status → World S → World S × Outcome
  stop status w = (w, record { status = status; provider = none })

  -- After the rate limit.
  abbrev pub checked : Request → Scene → World S → World S × Outcome
  checked r e w =
      if e.has_session && not (check_preferences r.channel e.preferences)
      then stop blocked w
      else (if is_promo_blocked r e.ist_hour
          then stop blocked w
          else (if is_duplicate r e w.server then stop duplicate w else deliver r e w))

  -- With the answer of the rate limit.
  abbrev pub after_rate : Request → Scene → World S → S × Bool → World S × Outcome
  after_rate r e w (s, true) = checked r e (record w { server = s })
  after_rate r e w (s, false) = stop rate_limited (record w { server = s })

  unfoldable pub dispatch : Request → Scene → World S → World S × Outcome
  dispatch r e w = after_rate r e w (check_rate_limit r e w.server)

  unfoldable pub dispatches : List (Request × Scene) → World S → World S
  dispatches [] w = w
  dispatches ((r, e) ∷ cs) w = dispatches cs (dispatch r e w).0
