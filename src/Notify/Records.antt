-- ===== src/Notify/Records.antt =====
-- The log of notifications against the deliveries (services/notification-service/app/core/dispatcher.py).
use hot_sot.Base.{
  ℕ, suc, ◌≡◌, refl, Bool, true, false, not, ◌&&◌, ◌||◌, if◌then◌else◌, arith, length,
}
use hot_sot.Notify.Channels.{Status, sent, failed, Outcome}
use hot_sot.Notify.Dispatch.{
  Redis, Request, Scene, World, recorded, check_rate_limit, dispatch, after_rate, check_preferences,
  is_promo_blocked,
}

-- Whether a result comes from a sender.
abbrev is_delivered : Status → Bool
is_delivered sent = true
is_delivered failed = true
is_delivered _ = false

module _ {S : Type 0} (redis : Redis S) (digest : ℕ → ℕ) where
  -- The log and the deliveries after a call, by the status that it returns.
  abbrev pub Recorded : Request → Scene → World S → World S × Outcome → Type 0
  Recorded r e w x =
      (x.0.logs
        ≡ (if is_delivered x.1.status then recorded redis digest r e x.1.status w.logs else w.logs))
      × (length x.0.deliveries
          ≡ (if is_delivered x.1.status then suc (length w.deliveries) else length w.deliveries))

  -- A call for a channel that the user has switched off, or for a promotional SMS at a forbidden hour, is
  -- RATE_LIMITED or BLOCKED.
  dispatch_refuses :
      (r : Request) (e : Scene) (w : World S)
      → (e.has_session && not (check_preferences r.channel e.preferences)
          || is_promo_blocked r e.ist_hour)
        ≡ true
      → is_delivered (dispatch redis digest r e w).1.status ≡ false
  unfolding dispatch
  dispatch_refuses r e w h = refused (check_rate_limit redis digest r e w.server)
    where
      refused : (x : S × Bool) → is_delivered (after_rate redis digest r e w x).1.status ≡ false
      refused (s, false) = refl
      refused (s, true) = ground (arith, h)
