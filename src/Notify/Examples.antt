-- ===== src/Notify/Examples.antt =====
-- A Redis server of counters and keys, notifications, and the theorems on them at concrete inputs
-- (services/notification-service/app/core/dispatcher.py).
use hot_sot.Base.{ℕ, zero, suc, ◌+◌, ◌≤◌, ◌≡◌, refl, true, false, List, [], ◌∷◌, ltb, if◌then◌else◌}
use hot_sot.Notify.Channels.{
  sms, push, sent, missing, raises, answers, Providers, mock, by, Channel, send_to_channel,
  send_sms, send_push,
}
use hot_sot.Notify.Dispatch.{
  normal, RateKey, DedupKey, same_rate, same_dedup, Redis, Request, Scene, row, World, rate_key,
  check_rate_limit, deliver, dispatch, dispatches, check_preferences,
}
use hot_sot.Notify.Limits.{limited, limited-dispatches}
use hot_sot.Notify.Duplicates.{Quiet, dispatch_again}

abbrev Counters : Type 0
Counters = List (RateKey × ℕ) × List (DedupKey × ℕ)

abbrev count_in : List (RateKey × ℕ) → RateKey → ℕ
count_in [] j = 0
count_in ((k, n) ∷ s) j = if same_rate k j then n else count_in s j

abbrev until_in : List (DedupKey × ℕ) → DedupKey → ℕ
until_in [] j = 0
until_in ((k, t) ∷ s) j = if same_dedup k j then t else until_in s j

abbrev server : Redis Counters
server = record {
  count = λ s k. count_in s.0 k;
  until = λ s k. until_in s.1 k;
  incr = λ s k. ((k, suc (count_in s.0 k)) ∷ s.0, s.1);
  exists = λ s k now. ltb now (until_in s.1 k);
  setex = λ s k seconds now. (s.0, (k, now + seconds) ∷ s.1);
  count-incr = λ s k j. refl;
  until-incr = λ s k j. refl;
  exists_until = λ s k now. refl;
  until-setex = λ s k j seconds now. refl;
  count-setex = λ s k j seconds now. refl;
}

abbrev providers : Providers
providers = record {
  msg91_key = true;
  fcm_key = true;
  wa_token = false;
  ses_keys = false;
  smtp_host = false;
  msg91_call = raises;
  fcm_call = answers 200;
  wa_call = missing;
  ses_call = missing;
  smtp_call = missing;
  db_takes = true;
}

abbrev ask : Channel → ℕ → Request
ask channel body = record {
  tenant = 1;
  user = 2;
  channel = channel;
  body = body;
  transactional = true;
  priority = normal;
  addresses = record { phone = true; fcm_token = true; wa_id = false; email_address = false };
}

abbrev at : ℕ → Scene
at now = record {
  has_redis = true;
  rate_counts = true;
  dedup_reads = true;
  dedup_writes = true;
  has_session = true;
  preferences = row true true false true true;
  log_stores = true;
  log_updates = true;
  hour = 7;
  ist_hour = 12;
  now = now;
  providers = providers;
}

abbrev fresh : World Counters
fresh = record { server = ([], []); logs = []; deliveries = [] }

abbrev digest : ℕ → ℕ
digest body = body + 7

-- A user gets one push after the other, each with another text.
abbrev pushes : ℕ → List (Request × Scene)
pushes zero = []
pushes (suc n) = (ask push n, at (100 + n)) ∷ pushes n

limited-dispatches_example :
    limited
      (rate_key server digest (ask push 0) (at 100))
      (dispatches server digest (pushes 30) fresh).deliveries
    ≤ 20
limited-dispatches_example =
    limited-dispatches server digest (rate_key server digest (ask push 0) (at 100)) (pushes 30)
      fresh refl refl

push_sent : (dispatch server digest (ask push 5) (at 100) fresh).1.status ≡ sent
unfolding dispatch check_rate_limit deliver send_to_channel send_push check_preferences
push_sent = refl

dispatch_again_example :
    Quiet server digest
      (dispatches server digest (pushes 5) (dispatch server digest (ask push 5) (at 100) fresh).0)
      (dispatch server digest (ask push 5) (at 399) (
        dispatches server digest (pushes 5) (dispatch server digest (ask push 5) (at 100) fresh).0))
dispatch_again_example =
    dispatch_again server digest (ask push 5) (ask push 5) (at 100) (at 399) (pushes 5) fresh refl
      push_sent refl refl refl refl

-- The SMS provider does not answer; the notification counts as sent, is logged so, and marks its key.
lost_sms : (dispatch server digest (ask sms 3) (at 100) fresh).1 ≡ by sent mock
unfolding dispatch check_rate_limit deliver send_to_channel send_sms check_preferences
lost_sms = refl
