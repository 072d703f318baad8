-- ===== src/Compensation/Engine.antt =====
-- services/compensation-service/app/core/engine.py: the rules, `calculate_compensation` and
-- `trigger_refund`. The Decimals of a call are whole numbers of units of which `d` make a paisa, so
-- that an amount may have more than two places.
use hot_sot.Base.{ℕ, ◌*◌, Bool, true, false, Option, none, some, if◌then◌else◌}
use hot_sot.Base.Int.{ℤ, pos, ◌*ℤ◌, ◌-ℤ◌, ltb_ℤ}
use hot_sot.Money.Rounding.{round_half_up}

-- The keys of DEFAULT_RULES; `unlisted` is any other text.
pub data Reason : Type 0 where
  shelf_expired kitchen_failure payment_conflict expired_not_picked : Reason
  delay_15min delay_30min wrong_order quality_issue unlisted : Reason

pub data CompensationType : Type 0 where
  full_refund partial_refund : CompensationType

pub record Rule : Type 0 where
  pub type : CompensationType
  pub percentage : ℕ
  pub auto_approve : Bool

abbrev full : Rule
full = record { type = full_refund; percentage = 100; auto_approve = true }

abbrev partial : ℕ → Bool → Rule
partial percentage auto_approve = record {
  type = partial_refund;
  percentage = percentage;
  auto_approve = auto_approve;
}

-- `DEFAULT_RULES.get(reason, …)`
unfoldable pub rule : Reason → Rule
rule shelf_expired = full
rule kitchen_failure = full
rule payment_conflict = full
rule expired_not_picked = full
rule delay_15min = partial 20 true
rule delay_30min = partial 50 true
rule wrong_order = full
rule quality_issue = partial 50 false
rule unlisted = partial 10 false

-- MAX_COMPENSATION_AMOUNT, 5000 rupees, in paise.
abbrev pub max_compensation_amount : ℕ
max_compensation_amount = 500_000

abbrev pub min_ℤ : ℤ → ℤ → ℤ
min_ℤ a b = if ltb_ℤ b a then b else a

abbrev pub max_ℤ : ℤ → ℤ → ℤ
max_ℤ a b = if ltb_ℤ a b then b else a

pub record Compensation : Type 0 where
  pub type : CompensationType
  pub percentage : ℕ
  pub amount : ℤ
  pub auto_approve : Bool
  pub aggregate_cap_applied : Bool
  pub absolute_cap : ℤ

-- `round_inr(order_amount * (percentage / 100))`
unfoldable pub rule_amount : ℕ → Reason → ℤ → ℤ
rule_amount d reason order_amount =
    round_half_up (order_amount *ℤ pos (rule reason).percentage) (100 * d) *ℤ pos d

unfoldable pub absolute_cap_of : ℕ → ℤ → ℤ
absolute_cap_of d order_amount = min_ℤ order_amount (pos (max_compensation_amount * d))

-- The amount after steps 1 and 2.
abbrev pub capped : ℤ → ℤ → Option ℤ → ℤ
capped amount cap none = min_ℤ amount cap
capped amount cap (some existing) = min_ℤ amount (max_ℤ (pos 0) (cap -ℤ existing))

-- `calculate_compensation`, after the conversion of its arguments to Decimal.
unfoldable pub calculate_compensation : ℕ → Reason → ℤ → Option ℤ → Compensation
calculate_compensation d reason order_amount existing =
    let full_amount = rule_amount d reason order_amount in
    let cap = absolute_cap_of d order_amount in
    let amount = max_ℤ (capped full_amount cap existing) (pos 0) in
    record {
      type = (rule reason).type;
      percentage = (rule reason).percentage;
      amount = amount;
      auto_approve = (rule reason).auto_approve;
      aggregate_cap_applied = ltb_ℤ amount full_amount;
      absolute_cap = cap;
    }

-- What `RazorpayGateway.refund` does: it raises, or returns a result with a status; a result without
-- the key counts as processed.
pub data GatewayReply : Type 0 where
  raised : GatewayReply
  refunded : Option Bool → GatewayReply

pub data RefundStatus : Type 0 where
  processing failed : RefundStatus

-- The `some` of a reply says whether its status is the text "failed".
unfoldable pub trigger_refund : GatewayReply → RefundStatus
trigger_refund raised = failed
trigger_refund (refunded none) = processing
trigger_refund (refunded (some is_failed)) = if is_failed then failed else processing
