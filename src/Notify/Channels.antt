-- ===== src/Notify/Channels.antt =====
-- The senders of the class NotificationDispatcher
-- (services/notification-service/app/core/dispatcher.py). What a provider does with a call is an argument.
use hot_sot.Base.{ℕ, Bool, true, false, ◌&&◌, Option, none, some, ◌==◌, if◌then◌else◌}

-- The channels of `_send_to_channel`, and any other text.
pub data Channel : Type 0 where
  sms push whatsapp email in_app : Channel
  unknown : ℕ → Channel

pub data Status : Type 0 where
  sent failed rate_limited blocked duplicate : Status

pub data Provider : Type 0 where
  msg91 fcm whatsapp_business aws_ses smtp_relay db mock log : Provider

-- The result's status and provider.
pub record Outcome : Type 0 where
  pub status : Status
  pub provider : Option Provider

-- What the call of a provider meets: its package is missing, it raises, or it answers with a status code,
-- which SES and SMTP do not have.
pub data Attempt : Type 0 where
  missing raises : Attempt
  answers : ℕ → Attempt

-- The settings that are there, what each provider does, and whether the database takes the row of an in-app
-- notification.
pub record Providers : Type 0 where
  pub msg91_key : Bool
  pub fcm_key : Bool
  pub wa_token : Bool
  pub ses_keys : Bool
  pub smtp_host : Bool
  pub msg91_call : Attempt
  pub fcm_call : Attempt
  pub wa_call : Attempt
  pub ses_call : Attempt
  pub smtp_call : Attempt
  pub db_takes : Bool

-- Which addresses the call gives.
pub record Addresses : Type 0 where
  pub phone : Bool
  pub fcm_token : Bool
  pub wa_id : Bool
  pub email_address : Bool

abbrev pub by : Status → Provider → Outcome
by status provider = record { status = status; provider = some provider }

-- A failure whose result names no provider.
abbrev nameless : Outcome
nameless = record { status = failed; provider = none }

-- A configured provider's answer of 200, or what another code gives; where it has no answer, the next choice.
abbrev or_next : Bool → Attempt → Provider → Outcome → Outcome → Outcome
or_next true (answers code) provider refused next =
    if code == 200 then by sent provider else refused
or_next true missing provider refused next = next
or_next true raises provider refused next = next
or_next false call provider refused next = next

-- The same for SES and SMTP.
abbrev or_else : Bool → Attempt → Provider → Outcome → Outcome
or_else true (answers code) provider next = by sent provider
or_else true missing provider next = next
or_else true raises provider next = next
or_else false call provider next = next

unfoldable pub send_sms : Addresses → Providers → Outcome
send_sms a p =
    if a.phone
    then or_next p.msg91_key p.msg91_call msg91 (by failed msg91) (by sent mock)
    else nameless

unfoldable pub send_push : Addresses → Providers → Outcome
send_push a p =
    if a.fcm_token then or_next p.fcm_key p.fcm_call fcm nameless (by sent mock) else nameless

unfoldable pub send_whatsapp : Addresses → Providers → Outcome
send_whatsapp a p =
    if a.wa_id
    then or_next p.wa_token p.wa_call whatsapp_business nameless (by sent log)
    else nameless

unfoldable pub send_email : Addresses → Providers → Outcome
send_email a p =
    if a.email_address
    then or_else p.ses_keys p.ses_call aws_ses
        (or_else p.smtp_host p.smtp_call smtp_relay (by sent mock))
    else nameless

-- By whether a session and a tenant are there.
unfoldable pub send_in_app : Bool → Providers → Outcome
send_in_app has_session p = if has_session && p.db_takes then by sent db else by sent log

unfoldable pub send_to_channel : Channel → Bool → Addresses → Providers → Outcome
unfolding send_sms send_push send_whatsapp send_email send_in_app
send_to_channel sms has_session a p = send_sms a p
send_to_channel push has_session a p = send_push a p
send_to_channel whatsapp has_session a p = send_whatsapp a p
send_to_channel email has_session a p = send_email a p
send_to_channel in_app has_session a p = send_in_app has_session p
send_to_channel (unknown name) has_session a p = nameless
