-- ===== src/Money.antt =====
-- shared/money.py: rupee amounts as whole paise, Decimal rates, GST and commission.
pub mod Rounding
pub mod Amount
pub mod Gst
pub mod AmountLaws
pub mod GstLaws
mod Examples
