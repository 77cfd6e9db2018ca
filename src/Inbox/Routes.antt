-- ===== src/Inbox/Routes.antt =====
-- The handlers of the inbox: kernel/crates/gctrl-otel/src/receiver.rs. Each is one step here; the
-- identifiers and the time that a handler makes are arguments, and a batch takes a new identifier and a
-- time for each of its messages.
pub mod Laws
pub mod Reach
use gctrl.Prelude.{
  ℕ, suc, Bool, true, false, not, List, [], ◌∷◌, Option, none, some, String, ◌==◌, String_eq, any,
  ltb, length, if◌then◌else◌,
}
use gctrl.Prelude.Result.{Result, ok, err}
use gctrl.Prelude.Text.{byte_len}
use gctrl.Inbox.{
  InboxMessage, InboxThread, InboxAction, Inbox, InboxError, message_missing, cannot_act, key_taken,
  create_inbox_message, create_inbox_action, get_or_create_inbox_thread, get_inbox_message,
}

pub record InboxCreateMessageBody : Type 0 where
  pub thread_id : Option String
  pub source : String
  pub kind : String
  pub urgency : String
  pub title : String
  pub body : Option String
  pub context : String
  pub requires_action : Bool
  pub payload : Option String
  pub expires_at : Option ℕ
  pub context_type : Option String
  pub context_ref : Option String
  pub thread_title : Option String
  pub project_key : Option String

pub record InboxCreateActionBody : Type 0 where
  pub message_id : String
  pub action_type : String
  pub reason : Option String
  pub metadata : Option String
  pub actor_id : String
  pub actor_name : String

pub record InboxBatchActionBody : Type 0 where
  pub message_ids : List String
  pub action_type : String
  pub reason : Option String
  pub actor_id : String
  pub actor_name : String

-- The status codes of the replies.
pub data Reply : Type 0 where
  created : Reply
  bad_request : Reply
  not_found : Reply
  conflict : Reply
  internal_server_error : Reply

abbrev pub contains : List String → String → Bool
contains texts x = any (λ y. y == x) texts

abbrev pub valid_kinds : List String
valid_kinds =
    "permission_request" ∷ "budget_warning" ∷ "budget_exceeded" ∷ "agent_question" ∷ "clarification"
    ∷ "review_request" ∷ "eval_request" ∷ "status_update" ∷ "custom" ∷ []

abbrev pub valid_urgencies : List String
valid_urgencies = "critical" ∷ "high" ∷ "medium" ∷ "low" ∷ "info" ∷ []

abbrev pub valid_actions : List String
valid_actions =
    "approve" ∷ "deny" ∷ "acknowledge" ∷ "defer" ∷ "delegate" ∷ "escalate" ∷ "reply" ∷ []

-- What a handler makes: the identifiers of a thread and of a row, and the time.
pub record Fresh : Type 0 where
  pub new_thread_id : String
  pub new_id : String
  pub now : ℕ

abbrev pub title_or : String → Option String → String
title_or other none = other
title_or other (some title) = title

-- `unresolved` is the answer to a body that names neither a thread nor a context.
pub data Resolved : Type 0 where
  in_thread : Inbox → String → Resolved
  thread_error : InboxError → Resolved
  unresolved : Resolved

abbrev pub resolved_of : Result InboxError (Inbox × InboxThread) → Resolved
resolved_of (ok (s, t)) = in_thread s t.id
resolved_of (err e) = thread_error e

unfoldable pub resolve_context :
    Inbox → Fresh → InboxCreateMessageBody → Option String → Option String → Resolved
resolve_context s fresh body (some ct) (some cr) = resolved_of (
    get_or_create_inbox_thread s fresh.new_thread_id fresh.now ct cr (title_or cr body.thread_title)
      body.project_key)
resolve_context s fresh body (some ct) none = unresolved
resolve_context s fresh body none cr = unresolved

unfoldable pub resolve_thread : Inbox → Fresh → InboxCreateMessageBody → Option String → Resolved
unfolding resolve_context
resolve_thread s fresh body (some tid) = in_thread s tid
resolve_thread s fresh body none = resolve_context s fresh body body.context_type body.context_ref

abbrev pub message_of : Fresh → InboxCreateMessageBody → String → InboxMessage
message_of fresh body thread_id = record {
  id = fresh.new_id;
  thread_id = thread_id;
  source = body.source;
  kind = body.kind;
  urgency = body.urgency;
  title = body.title;
  body = body.body;
  context = body.context;
  status = "pending";
  requires_action = body.requires_action;
  payload = body.payload;
  duplicate_count = 0;
  snoozed_until = none;
  expires_at = body.expires_at;
  created_at = fresh.now;
  updated_at = fresh.now;
}

abbrev pub message_reply : Inbox → Result InboxError Inbox → Inbox × Reply
message_reply s (ok s') = (s', created)
message_reply s (err e) = (s, internal_server_error)

unfoldable pub post_resolved : Inbox → Fresh → InboxCreateMessageBody → Resolved → Inbox × Reply
post_resolved s fresh body unresolved = (s, bad_request)
post_resolved s fresh body (thread_error e) = (s, internal_server_error)
post_resolved s fresh body (in_thread s' thread_id) =
    message_reply s' (create_inbox_message s' fresh.now (message_of fresh body thread_id))

unfoldable pub inbox_create_message : Inbox → Fresh → InboxCreateMessageBody → Inbox × Reply
unfolding post_resolved resolve_thread
inbox_create_message s fresh body =
    if not (contains valid_kinds body.kind)
    then (s, bad_request)
    else if not (contains valid_urgencies body.urgency)
    then (s, bad_request)
    else post_resolved s fresh body (resolve_thread s fresh body body.thread_id)

abbrev pub is_too_long : Option String → Bool
is_too_long none = false
is_too_long (some reason) = ltb 2000 (byte_len reason)

-- A refusal whose text has `expected 'pending'` is a conflict.
abbrev pub action_reply : Inbox → Result InboxError Inbox → Inbox × Reply
action_reply s (ok s') = (s', created)
action_reply s (err (cannot_act status)) = (s, conflict)
action_reply s (err message_missing) = (s, internal_server_error)
action_reply s (err key_taken) = (s, internal_server_error)

abbrev pub action_of : Fresh → InboxCreateActionBody → InboxMessage → InboxAction
action_of fresh body msg = record {
  id = fresh.new_id;
  message_id = body.message_id;
  thread_id = msg.thread_id;
  actor_id = body.actor_id;
  actor_name = body.actor_name;
  action_type = body.action_type;
  reason = body.reason;
  metadata = body.metadata;
  created_at = fresh.now;
}

abbrev pub act_on : Inbox → Fresh → InboxCreateActionBody → Option InboxMessage → Inbox × Reply
act_on s fresh body none = (s, not_found)
act_on s fresh body (some msg) =
    action_reply s (create_inbox_action s fresh.now (action_of fresh body msg))

unfoldable pub inbox_create_action : Inbox → Fresh → InboxCreateActionBody → Inbox × Reply
inbox_create_action s fresh body =
    if not (contains valid_actions body.action_type)
    then (s, bad_request)
    else if is_too_long body.reason
    then (s, bad_request)
    else act_on s fresh body (get_inbox_message s body.message_id)

-- What a batch answers for one message; the reason for a skip is the error, if an operation gave one.
pub data BatchResult : Type 0 where
  success : (message_id : String) → BatchResult
  skipped : (message_id : String) → InboxError → BatchResult

abbrev pub batch_action_of : Fresh → InboxBatchActionBody → String → InboxMessage → InboxAction
batch_action_of fresh body mid msg = record {
  id = fresh.new_id;
  message_id = mid;
  thread_id = msg.thread_id;
  actor_id = body.actor_id;
  actor_name = body.actor_name;
  action_type = body.action_type;
  reason = body.reason;
  metadata = none;
  created_at = fresh.now;
}

abbrev pub batch_result : Inbox → String → Result InboxError Inbox → Inbox × BatchResult
batch_result s mid (ok s') = (s', success mid)
batch_result s mid (err e) = (s, skipped mid e)

abbrev pub act_in_batch :
    Inbox → Fresh → InboxBatchActionBody → String → Option InboxMessage → Inbox × BatchResult
act_in_batch s fresh body mid none = (s, skipped mid message_missing)
act_in_batch s fresh body mid (some msg) =
    if not (msg.status == "pending")
    then (s, skipped mid (cannot_act msg.status))
    else batch_result s mid (create_inbox_action s fresh.now (batch_action_of fresh body mid msg))

unfoldable pub batch_loop :
    (ℕ → Fresh) → InboxBatchActionBody → Inbox → List String → Inbox × List BatchResult
batch_loop fresh body s [] = (s, [])
batch_loop fresh body s (mid ∷ mids) =
    let (s', result) = act_in_batch s (fresh 0) body mid (get_inbox_message s mid) in
    let (s'', results) = batch_loop (λ n. fresh (suc n)) body s' mids in (s'', result ∷ results)

unfoldable pub inbox_batch_action :
    Inbox → (ℕ → Fresh) → InboxBatchActionBody → Inbox × Option (List BatchResult)
unfolding batch_loop
inbox_batch_action s fresh body =
    if ltb 100 (length body.message_ids)
    then (s, none)
    else if not (contains valid_actions body.action_type)
    then (s, none)
    else if is_too_long body.reason
    then (s, none)
    else let (s', results) = batch_loop fresh body s body.message_ids in (s', some results)
