-- ===== src/Notification.antt =====
-- Notifications: backend/workers/notification_worker.py (process_notification), the mails of
-- backend/infrastructure/mail.py and the endpoints of backend/domains/notifications/router.py. The tables
-- are those of docker/01_schema.sql; times are numbers, and the SES client is a parameter.
pub mod Runs
pub mod Again
pub mod Read
pub mod Handlers
pub mod Invite
mod Tests
use project_main.Prelude.{
  ℕ, suc, String, Bool, true, false, not, ◌&&◌, ◌||◌, Option, none, some, List, [], ◌∷◌, ◌++◌, ◌==◌,
  leb, map, find, any, keep, take, update_where, null, str_eq, if◌then◌else◌, Result, ok, err,
  integrity_error, value_or,
}
use project_main.Prelude.Sort.{sort_by}

-- `bool(text)`
abbrev pub filled : String → Bool
filled s = not (str_eq "" s)

abbrev pub filled_text : Option String → Bool
filled_text none = false
filled_text (some s) = filled s

-- What the mails read of the configuration; an unset sender is the empty text.
pub record MailConfig : Type 0 where
  pub mail_enabled : Bool
  pub mail_from : String

-- A message that is given to SES.
pub record Mail : Type 0 where
  pub to : List String
  pub subject : String
  pub body_text : Option String
  pub body_html : Option String

abbrev pub body_or_subject : String → Option String → Option String → Option String
body_or_subject subject body_text body_html =
    if filled_text body_text || filled_text body_html then body_text else some subject

-- `send_email` to a list of addresses: its answer, and the messages given to SES, of which `ses` says
-- whether it takes them or raises a BotoCoreError or ClientError.
unfoldable pub send_email :
    MailConfig
    → (Mail → Bool)
    → List String
    → String
    → Option String
    → Option String
    → Bool × List Mail
send_email config ses to subject body_text body_html =
    let addresses = keep filled to in
    let mail : Mail = record {
      to = addresses;
      subject = subject;
      body_text = body_or_subject subject body_text body_html;
      body_html = body_html;
    } in
    if null addresses
    then (false, [])
    else if not config.mail_enabled || not (filled config.mail_from)
    then (false, [])
    else (ses mail, mail ∷ [])

-- notifications.channel (chk_notification_channel)
pub data Channel : Type 0 where
  email slack in_app : Channel

abbrev pub is_email : Channel → Bool
is_email email = true
is_email _ = false

abbrev pub is_in_app : Channel → Bool
is_in_app in_app = true
is_in_app _ = false

-- notifications.notification_type (chk_notification_type)
pub data NotificationType : Type 0 where
  reminder violation approval_needed sla_warning training_overdue : NotificationType

-- notifications.status (chk_notification_status)
pub data NoticeStatus : Type 0 where
  pending sent failed read : NoticeStatus

-- A row of notifications.
pub record Notice : Type 0 where
  pub notification_id : ℕ
  pub user_id : ℕ
  pub channel : Channel
  pub notification_type : NotificationType
  pub subject : String
  pub body : String
  pub status : NoticeStatus
  pub dedup_key : String
  pub sent_at : Option ℕ
  pub read_at : Option ℕ
  pub created_at : ℕ

-- The columns of users that are read.
pub record Recipient : Type 0 where
  pub user_id : ℕ
  pub email_address : Option String

-- The arguments of `process_notification`.
pub record NoticeJob : Type 0 where
  pub user_id : ℕ
  pub channel : Channel
  pub notification_type : NotificationType
  pub subject : String
  pub body : String
  pub dedup_key : String

-- A message given to SES, with the key of the job that it is sent for.
pub record Sending : Type 0 where
  pub for_key : String
  pub mail : Mail

-- The tables, and the messages that SES has been given.
pub record NoticeDb : Type 0 where
  pub notices : List Notice
  pub recipients : List Recipient
  pub outbox : List Sending
  pub next_id : ℕ

abbrev pub has_dedup_key : String → Notice → Bool
has_dedup_key k n = str_eq k n.dedup_key

abbrev pub is_recipient : ℕ → Recipient → Bool
is_recipient id r = id == r.user_id

abbrev pub new_notice : ℕ → NoticeJob → ℕ → Notice
new_notice id job now = record {
  notification_id = id;
  user_id = job.user_id;
  channel = job.channel;
  notification_type = job.notification_type;
  subject = job.subject;
  body = job.body;
  status = pending;
  dedup_key = job.dedup_key;
  sent_at = none;
  read_at = none;
  created_at = now;
}

-- `INSERT INTO notifications`
abbrev pub with_notice : NoticeDb → NoticeJob → ℕ → NoticeDb
with_notice db job now = record {
  notices = db.notices ++ new_notice db.next_id job now ∷ [];
  recipients = db.recipients;
  outbox = db.outbox;
  next_id = suc db.next_id;
}

abbrev pub address_of : Option Recipient → Option String
address_of none = none
address_of (some r) = r.email_address

abbrev pub set_sent : ℕ → Notice → Notice
set_sent now n = record {
  notification_id = n.notification_id;
  user_id = n.user_id;
  channel = n.channel;
  notification_type = n.notification_type;
  subject = n.subject;
  body = n.body;
  status = sent;
  dedup_key = n.dedup_key;
  sent_at = some now;
  read_at = n.read_at;
  created_at = n.created_at;
}

abbrev pub sending : String → Mail → Sending
sending key mail = record { for_key = key; mail = mail }

abbrev pub with_answer : NoticeDb → NoticeJob → ℕ → Bool × List Mail → NoticeDb
with_answer db job now (answer, mails) = record {
  notices =
      if answer
      then update_where (has_dedup_key job.dedup_key) (set_sent now) db.notices
      else db.notices;
  recipients = db.recipients;
  outbox = db.outbox ++ map (sending job.dedup_key) mails;
  next_id = db.next_id;
}

-- What is given to SES for a job, and the answer: nothing without an address.
abbrev pub mail_for : MailConfig → (Mail → Bool) → NoticeJob → Option String → Bool × List Mail
mail_for config ses job none = (false, [])
mail_for config ses job (some to) =
    if filled to
    then send_email config ses (to ∷ []) job.subject (some job.body) none
    else (false, [])

pub data NoticeOutcome : Type 0 where
  skipped stored : NoticeOutcome
  mailed : Bool → NoticeOutcome

-- The steps after the first commit.
unfoldable pub deliver :
    MailConfig → (Mail → Bool) → ℕ → NoticeDb → NoticeJob → NoticeOutcome × NoticeDb
deliver config ses now db job =
    let to = address_of (find (is_recipient job.user_id) db.recipients) in
    let answer = mail_for config ses job to in
    if is_email job.channel then (mailed answer.0, with_answer db job now answer) else (stored, db)

-- `process_notification`; the insertion of a row for an unknown user violates the foreign key.
unfoldable pub process_notification :
    MailConfig → (Mail → Bool) → ℕ → NoticeDb → NoticeJob → Result (NoticeOutcome × NoticeDb)
process_notification config ses now db job =
    if any (has_dedup_key job.dedup_key) db.notices
    then ok (skipped, db)
    else if any (is_recipient job.user_id) db.recipients
    then ok (deliver config ses now (with_notice db job now) job)
    else err integrity_error

-- One run of the worker: a job, the time, and SES as it is then.
pub record Run : Type 0 where
  pub job : NoticeJob
  pub now : ℕ
  pub ses : Mail → Bool

-- The tables after a run; a run that raises is rolled back.
unfoldable pub after : MailConfig → NoticeDb → Run → NoticeDb
after config db r = (value_or (process_notification config r.ses r.now db r.job) (skipped, db)).1

-- The runs of the worker, one after the other; the queue may give it a job again.
unfoldable pub process_all : MailConfig → NoticeDb → List Run → NoticeDb
process_all config db [] = db
process_all config db (r ∷ rs) = process_all config (after config db r) rs
