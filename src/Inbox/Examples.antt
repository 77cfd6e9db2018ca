-- ===== src/Inbox/Examples.antt =====
-- An inbox with one thread: a question is posted, then answered.
use gctrl.Prelude.{ℕ, List, ◌≡◌, refl, true, [], ◌∷◌, none, some, String, map}
use gctrl.Prelude.Text.{byte_len}
use gctrl.Inbox.{
  urgency_position, get_or_create_inbox_thread, create_inbox_message, create_inbox_action,
  get_inbox_message, InboxMessage, Inbox, latest_urgency_of,
}
use gctrl.Inbox.Laws.{Counted}
use gctrl.Inbox.Urgency.{Shows, latest_urgency_of-Shows}
use gctrl.Inbox.Routes.{
  Fresh, InboxCreateMessageBody, InboxCreateActionBody, Reply, inbox_create_message,
  inbox_create_action, message_of,
}
use gctrl.Inbox.Routes.Reach.{
  no_inbox, InboxReach, starts, posts_message, posts_action, InboxReach-Counted,
}

abbrev question : String → InboxCreateMessageBody
question urgency = record {
  thread_id = none;
  source = "agent";
  kind = "agent_question";
  urgency = urgency;
  title = "Which branch?";
  body = none;
  context = "{}";
  requires_action = true;
  payload = none;
  expires_at = none;
  context_type = some "issue";
  context_ref = some "CORE-1";
  thread_title = none;
  project_key = some "CORE";
}

abbrev answer : InboxCreateActionBody
answer = record {
  message_id = "m1";
  action_type = "reply";
  reason = some "main";
  metadata = none;
  actor_id = "default";
  actor_name = "human";
}

abbrev fresh : String → ℕ → Fresh
fresh id now = record { new_thread_id = "t1"; new_id = id; now = now }

abbrev asked : Inbox
asked = (inbox_create_message no_inbox (fresh "m1" 1) (question "high")).0

abbrev answered : Inbox
answered = (inbox_create_action asked (fresh "a1" 2) answer).0

-- The thread of the question counts it, and no longer after the answer.
asked_counts : map (λ t. t.pending_count) asked.threads ≡ 1 ∷ []
unfolding asked get_or_create_inbox_thread create_inbox_message inbox_create_message
asked_counts = refl

asked_urgency : map (λ t. t.latest_urgency) asked.threads ≡ "high" ∷ []
unfolding asked get_or_create_inbox_thread create_inbox_message latest_urgency_of urgency_position
    inbox_create_message
asked_urgency = refl

answered_counts : map (λ t. t.pending_count) answered.threads ≡ 0 ∷ []
unfolding answered byte_len get_inbox_message asked get_or_create_inbox_thread create_inbox_message
    create_inbox_action inbox_create_message inbox_create_action
answered_counts = refl

-- An answered message takes no second action.
answered_once : (inbox_create_action answered (fresh "a2" 3) answer).1 ≡ Reply.conflict
unfolding inbox_create_action answered byte_len get_inbox_message asked get_or_create_inbox_thread
    create_inbox_message create_inbox_action inbox_create_message
answered_once = refl

abbrev answered_reach : InboxReach answered
answered_reach =
    posts_action asked (fresh "a1" 2) answer
      (posts_message no_inbox (fresh "m1" 1) (question "high") starts refl)

InboxReach-Counted_example : Counted answered
InboxReach-Counted_example = InboxReach-Counted answered answered_reach

abbrev two : List InboxMessage
two =
    message_of (fresh "m1" 1) (question "low") "t1"
    ∷ message_of (fresh "m2" 2) (question "high") "t1"
    ∷ []

latest_urgency_of-Shows_example : Shows (latest_urgency_of two) two
latest_urgency_of-Shows_example = latest_urgency_of-Shows two
