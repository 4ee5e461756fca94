-- ===== src/Notification/Tests.antt =====
-- A mail that SES does not take at first, an invitation, a complete map and a list of notifications.
use project_main.Prelude.{
  keep, ℕ, ◌≡◌, ◌≢◌, refl, String, Bool, true, false, Option, none, some, List, [], ◌∷◌, map, inl,
  arith,
}
use project_main.SupplyChain.Gaps.{GapNode, get_validation_summary}
use project_main.Notification.{
  MailConfig, Mail, email, in_app, reminder, pending, Notice, NoticeJob, NoticeDb, Run, process_all,
}
use project_main.Notification.Runs.{IsOnce, process_all-IsOnce}
use project_main.Notification.Again.{process_all_again}
use project_main.Notification.Read.{
  list_notifications, mark_notification_read, mark_notification_read-list, seen,
}
use project_main.Notification.Handlers.{
  InviteKey, InviteDb, InviteRun, send_invitations, send_supplier_invitation_email, MapScope,
  SummaryDb, ScopeDb, scope_of,
}
use project_main.Notification.Invite.{
  for_invite, send_invitations_same_day, run_of, final_jobs, final_jobs_again,
}

abbrev mail_on : MailConfig
mail_on = record { mail_enabled = true; mail_from = "kira" }

abbrev reminder_job : NoticeJob
reminder_job = record {
  user_id = 4;
  channel = email;
  notification_type = reminder;
  subject = "due";
  body = "due today";
  dedup_key = "sla:1";
}

abbrev no_notices : NoticeDb
no_notices = record {
  notices = [];
  recipients = record { user_id = 4; email_address = some "a" } ∷ [];
  outbox = [];
  next_id = 1;
}

abbrev takes : Mail → Bool
takes m = true

abbrev refuses : Mail → Bool
refuses m = false

abbrev two_runs : List Run
two_runs = run_of 10 refuses reminder_job ∷ run_of 20 takes reminder_job ∷ []

process_all-IsOnce_example : IsOnce "sla:1" (process_all mail_on no_notices two_runs)
process_all-IsOnce_example =
    process_all-IsOnce mail_on "sla:1" two_runs no_notices (omega arith, omega arith)

process_all_again_example :
    process_all mail_on
      (process_all mail_on no_notices (run_of 10 refuses reminder_job ∷ []))
      (run_of 20 takes reminder_job ∷ [])
    ≡ process_all mail_on no_notices (run_of 10 refuses reminder_job ∷ [])
process_all_again_example =
    process_all_again mail_on (run_of 10 refuses reminder_job ∷ [])
      (run_of 20 takes reminder_job ∷ []) no_notices
      ((run_of 10 refuses reminder_job, inl refl, refl, refl), tt)

abbrev invited : InviteRun
invited = record {
  payload = record { supplier_id = some 3; inviter_supplier_id = none; email_address = some "s" };
  day = 7;
  ses = refuses;
}

abbrev invited_again : InviteRun
invited_again = record {
  payload = record { supplier_id = some 3; inviter_supplier_id = some 2; email_address = some "t" };
  day = 7;
  ses = takes;
}

abbrev no_invites : InviteDb
no_invites = record { claimed = []; outbox = [] }

abbrev invitation : ℕ → String
invitation n = "join"

abbrev key : InviteKey
key = record { supplier_id = 3; day = 7 }

send_invitations_same_day_example :
    keep
      (for_invite key)
      (send_invitations mail_on "invitation" invitation no_invites
        (invited ∷ invited_again ∷ [])).outbox
    ≡ keep
        (for_invite key)
        (send_supplier_invitation_email mail_on "invitation" invitation no_invites invited).outbox
send_invitations_same_day_example =
    send_invitations_same_day mail_on "invitation" invitation no_invites invited 3 "s"
      (invited_again ∷ []) refl refl refl

abbrev supplier_node : GapNode
supplier_node = record {
  supplier_id = 3;
  company_name = "mine";
  provider_type = "mine";
  depth = 1;
  is_root_anchor = false;
  missing_fields = [];
  gap_count = 0;
}

abbrev complete_map : SummaryDb
complete_map = record {
  nodes_of = λ product. supplier_node ∷ [];
  all_valid = λ product tenant version. true;
}

abbrev one_map : ScopeDb
one_map = record {
  batches =
      record { batch_id = 1; product_id = some 5; bom_version_id = none; tenant_id = none }
      ∷ record { batch_id = 2; product_id = some 5; bom_version_id = none; tenant_id = some 1 }
      ∷ [];
  products = record { product_id = 5; tenant_id = some 1 } ∷ [];
  users = record { user_id = 4; tenant_id = some 1; role = "admin"; is_active = true } ∷ [];
}

abbrev key_text : ℕ → Option ℕ → ℕ → String
key_text product version user = "final"

abbrev ready_body : ℕ → ℕ → String
ready_body count tier = "ready"

abbrev map_scope : MapScope
map_scope = record { product_id = 5; bom_version_id = none; tenant_id = 1 }

final_jobs_again_example :
    process_all mail_on
      (process_all mail_on no_notices (
        map
          (run_of 1 takes)
          (final_jobs key_text "ready" ready_body complete_map one_map (some 1))))
      (map (run_of 2 takes) (final_jobs key_text "ready" ready_body complete_map one_map (some 2)))
    ≡ process_all mail_on no_notices (
        map (run_of 1 takes) (final_jobs key_text "ready" ready_body complete_map one_map (some 1)))
unfolding scope_of get_validation_summary
final_jobs_again_example =
    final_jobs_again key_text "ready" ready_body complete_map complete_map 1 2 takes takes map_scope
      mail_on no_notices one_map one_map (some 1) (some 2) refl refl (λ u i. i) refl

abbrev notice : ℕ → Notice
notice n = record {
  notification_id = n;
  user_id = 4;
  channel = in_app;
  notification_type = reminder;
  subject = "due";
  body = "due today";
  status = pending;
  dedup_key = "k";
  sent_at = none;
  read_at = none;
  created_at = n;
}

abbrev two_notices : NoticeDb
two_notices = record {
  notices = notice 1 ∷ notice 2 ∷ [];
  recipients = [];
  outbox = [];
  next_id = 3;
}

mark_notification_read-list_example :
    (list_notifications (mark_notification_read two_notices 9 2 4) 4
      ≡ map (seen 2) (list_notifications two_notices 4))
    × ((other : ℕ)
        → other ≢ 4
        → list_notifications (mark_notification_read two_notices 9 2 4) other
          ≡ list_notifications two_notices other)
mark_notification_read-list_example =
    mark_notification_read-list 9 2 4 two_notices (refl, (refl, tt))
