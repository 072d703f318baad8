-- ===== src/RedisClient/Domain.antt =====
-- The helpers of the class RedisClient for orders, kitchens and ETAs (shared/utils/redis_client.py): their
-- keys, and what they give back of a value of another type.
use hot_sot.Base.{
  ℕ, ◌+◌, ◌≡◌, ap, ◌∙◌, Bool, true, ◌&&◌, Option, none, some, List, ltb, if◌then◌else◌, arith,
}
use hot_sot.Breaker.Core.{allow_request}
use hot_sot.RedisClient.Server.{Server}
use hot_sot.RedisClient.Client.{Link, Moment, State, Reply, cache_set, cache_get}
use hot_sot.RedisClient.Run.{Call, every, run}
use hot_sot.RedisClient.Grant.{answered}
use hot_sot.RedisClient.Cached.{leaves, cache_get-cache_set}

-- A value of Python: a `str`, a `dict`, or one of another type.
pub data Value (D : Type 0) : Type 0 where
  str : ℕ → Value D
  dict : D → Value D
  other_value : Value D

-- `{tenant_id}:order:{order_id}:status`, `{tenant_id}:kitchen:{kitchen_id}:load`, `{tenant_id}:eta:{order_id}`.
pub data Name : Type 0 where
  order_status kitchen_load eta : ℕ → ℕ → Name

-- `prefix=""`
abbrev no_prefix : ℕ
no_prefix = 1

abbrev if_str : {D : Type 0} → Option (Value D) → Option ℕ
if_str (some (str s)) = some s
if_str _ = none

abbrev if_dict : {D : Type 0} → Option (Value D) → Option D
if_dict (some (dict d)) = some d
if_dict _ = none

module _ {S D : Type 0} (redis : Server S) (dumps : Value D → ℕ) (loads : ℕ → Option (Value D))
    (key_of : Name → ℕ) where
  unfoldable pub set_order_status : ℕ → ℕ → ℕ → Moment → Link → State S → Reply S Bool
  set_order_status order_id status tenant_id m link st =
      cache_set redis dumps loads (key_of (order_status tenant_id order_id)) (str status) 600
        no_prefix m link st

  unfoldable get_order_status : ℕ → ℕ → Moment → Link → State S → Reply S (Option ℕ)
  get_order_status order_id tenant_id m link st =
      let r =
        cache_get redis dumps loads (key_of (order_status tenant_id order_id)) no_prefix m link
          st in
      (r.0, if_str r.1)

  unfoldable set_kitchen_load : ℕ → D → ℕ → Moment → Link → State S → Reply S Bool
  set_kitchen_load kitchen_id load_data tenant_id m link st =
      cache_set redis dumps loads (key_of (kitchen_load tenant_id kitchen_id)) (dict load_data) 60
        no_prefix m link st

  unfoldable pub get_kitchen_load : ℕ → ℕ → Moment → Link → State S → Reply S (Option D)
  get_kitchen_load kitchen_id tenant_id m link st =
      let r =
        cache_get redis dumps loads (key_of (kitchen_load tenant_id kitchen_id)) no_prefix m link
          st in
      (r.0, if_dict r.1)

  unfoldable cache_eta : ℕ → D → ℕ → ℕ → Moment → Link → State S → Reply S Bool
  cache_eta order_id eta_data tenant_id ttl m link st =
      cache_set redis dumps loads (key_of (eta tenant_id order_id)) (dict eta_data) ttl no_prefix m
        link st

  unfoldable get_cached_eta : ℕ → ℕ → Moment → Link → State S → Reply S (Option D)
  get_cached_eta order_id tenant_id m link st =
      let r = cache_get redis dumps loads (key_of (eta tenant_id order_id)) no_prefix m link st in
      (r.0, if_dict r.1)

  -- The state of an order that `set_order_status` stored is what `get_order_status` gives for ten minutes,
  -- after whatever calls that leave its key alone, where the breaker admits the reading and Redis answers it.
  get_order_status-set :
      (order_id status tenant_id : ℕ) (m m' : Moment) (link link' : Link)
      (cs : List (Call (Value D))) (st : State S)
      → loads (dumps (str status)) ≡ some (str status)
      → (set_order_status order_id status tenant_id m link st).1 ≡ true
      → every (leaves no_prefix (key_of (order_status tenant_id order_id))) cs ≡ true
      → (let st' =
            run redis dumps loads cs (set_order_status order_id status tenant_id m link st).0 in
          (get_order_status order_id tenant_id m' link' st').1 ≡ (
            if (allow_request st'.breaker m'.readings).1
              && answered link'
              && ltb m'.now (m.now + 600)
            then some status
            else none))
  unfolding set_order_status get_order_status
  get_order_status-set order_id status tenant_id m m' link link' cs st j e g =
      let k = key_of (order_status tenant_id order_id) in
      let st' =
        run redis dumps loads cs
          (cache_set redis dumps loads k (str status) 600 no_prefix m link st).0 in
      ap if_str (
        cache_get-cache_set redis dumps loads k 600 no_prefix (str status) m m' link link' cs st j e
          g)
      ∙ pick
          ((allow_request st'.breaker m'.readings).1 && answered link' && ltb m'.now (m.now + 600))
    where
      pick :
          (b : Bool)
          → if_str {D = D} (if b then some (str status) else none)
            ≡ (if b then some status else none)
      pick b = ground arith
