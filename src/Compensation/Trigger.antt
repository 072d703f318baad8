-- ===== src/Compensation/Trigger.antt =====
-- `trigger_compensation` of services/compensation-service/app/routes/compensation.py, after the
-- access checks. The amount of an order is a Money, so one unit is a paisa.
use hot_sot.Base.{false, Option, none, some, List, [], ◌∷◌, ◌++◌, if◌then◌else◌}
use hot_sot.Base.Int.{ℤ, pos, ◌+ℤ◌}
use hot_sot.Money.Rounding.{Decimal}
use hot_sot.Money.Amount.{Result, ok, ◌>>=◌, decimal, make}
use hot_sot.Money.Gst.{default_currency}
use hot_sot.Compensation.Engine.{
  Reason, Compensation, calculate_compensation, GatewayReply, RefundStatus, trigger_refund,
}

pub data CaseStatus : Type 0 where
  approved pending processing : CaseStatus

-- The columns of CompensationCaseModel that the handler decides.
pub record Case : Type 0 where
  pub reason : Reason
  pub amount : ℤ
  pub status : CaseStatus
  pub refund : Option RefundStatus

-- The second commit: an approved case is PROCESSING whatever the refund came to.
abbrev pub settle : Reason → Compensation → GatewayReply → Case
settle reason comp reply =
    if comp.auto_approve
    then record {
      reason = reason;
      amount = comp.amount;
      status = processing;
      refund = some (trigger_refund reply);
    }
    else record { reason = reason; amount = comp.amount; status = pending; refund = none }

-- The cases of one order, with the new one last. No existing compensation is passed on.
unfoldable pub trigger_compensation :
    List Case → Reason → Decimal → GatewayReply → Result (List Case)
trigger_compensation cases reason order_amount reply = do
  order ← make (decimal order_amount) default_currency false
  let comp = calculate_compensation 1 reason order.amount none
  ok (cases ++ settle reason comp reply ∷ [])

-- What the cases of an order grant together.
unfoldable pub total : List Case → ℤ
total [] = pos 0
total (c ∷ cs) = c.amount +ℤ total cs
