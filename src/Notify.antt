-- ===== src/Notify.antt =====
-- services/notification-service/app/core/dispatcher.py: the class NotificationDispatcher. `Channels` has the
-- senders, `Dispatch` the method `dispatch`, the other children the theorems.
pub mod Channels
pub mod Dispatch
pub mod Limits
pub mod Duplicates
pub mod Records
mod Examples
