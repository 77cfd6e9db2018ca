-- ===== src/Inbox/Routes/Reach.antt =====
-- The inbox after any sequence of requests.
use gctrl.Prelude.{ℕ, []}
use gctrl.Inbox.{Inbox}
use gctrl.Inbox.Laws.{Counted, Unused}
use gctrl.Inbox.Routes.{
  Fresh, InboxCreateMessageBody, InboxCreateActionBody, InboxBatchActionBody, inbox_create_message,
  inbox_create_action, inbox_batch_action,
}
use gctrl.Inbox.Routes.Laws.{
  inbox_create_message-Counted, inbox_create_action-Counted, inbox_batch_action-Counted,
}

abbrev pub no_inbox : Inbox
no_inbox = record { messages = []; threads = []; actions = [] }

-- The inboxes that requests lead to; the identifier made for a thread is one that no pending message
-- names.
pub data InboxReach : Inbox → Type 0 where
  starts : InboxReach no_inbox
  posts_message :
      (s : Inbox) (fresh : Fresh) (body : InboxCreateMessageBody)
      → InboxReach s
      → Unused fresh.new_thread_id s
      → InboxReach (inbox_create_message s fresh body).0
  posts_action :
      (s : Inbox) (fresh : Fresh) (body : InboxCreateActionBody)
      → InboxReach s
      → InboxReach (inbox_create_action s fresh body).0
  posts_batch :
      (s : Inbox) (fresh : ℕ → Fresh) (body : InboxBatchActionBody)
      → InboxReach s
      → InboxReach (inbox_batch_action s fresh body).0

-- After any sequence of posted messages, actions and batches, whatever they ask and answer, each thread shows the
-- number of its pending messages and the urgency computed from them, and no two messages have one
-- identifier, if the identifier made for a thread is one that no pending message names.
pub InboxReach-Counted : (s : Inbox) → InboxReach s → Counted s
InboxReach-Counted s starts = (tt, tt)
InboxReach-Counted s (posts_message s0 fresh body r unused) =
    inbox_create_message-Counted s0 fresh body (InboxReach-Counted s0 r) unused
InboxReach-Counted s (posts_action s0 fresh body r) =
    inbox_create_action-Counted s0 fresh body (InboxReach-Counted s0 r)
InboxReach-Counted s (posts_batch s0 fresh body r) =
    inbox_batch_action-Counted s0 fresh body (InboxReach-Counted s0 r)
