-- ===== src/Inbox/Routes/Laws.antt =====
-- Each request to the inbox keeps the counts of the threads.
use gctrl.Prelude.{
  ℕ, suc, ltb, length, ◌≡◌, refl, Bool, true, false, not, List, [], ◌∷◌, Option, none, some, String,
  ◌==◌, String_eq, find, if◌then◌else◌,
}
use gctrl.Prelude.Result.{Result, ok, err}
use gctrl.Inbox.{
  InboxMessage, InboxThread, Inbox, InboxError, message_missing, cannot_act, key_taken, is_message,
  create_inbox_message, create_inbox_action, get_inbox_message,
}
use gctrl.Inbox.Laws.{
  Counted, CountedOk, CountedFound, Unused, create_inbox_message-Counted,
  create_inbox_action-Counted, get_or_create_inbox_thread-Counted,
}
use gctrl.Inbox.Routes.{
  InboxBatchActionBody, BatchResult, skipped, batch_action_of, batch_result, act_in_batch,
  batch_loop, inbox_batch_action, InboxCreateMessageBody, InboxCreateActionBody, Reply, Fresh,
  Resolved, in_thread, thread_error, unresolved, resolved_of, resolve_context, resolve_thread,
  message_of, message_reply, post_resolved, inbox_create_message, action_reply, action_of, act_on,
  inbox_create_action, is_too_long, contains, valid_kinds, valid_urgencies, valid_actions, title_or,
}

message_reply-Counted :
    (s : Inbox) (r : Result InboxError Inbox)
    → Counted s
    → CountedOk r
    → Counted (message_reply s r).0
message_reply-Counted s (ok s') h h' = h'
message_reply-Counted s (err e) h h' = h

action_reply-Counted :
    (s : Inbox) (r : Result InboxError Inbox)
    → Counted s
    → CountedOk r
    → Counted (action_reply s r).0
action_reply-Counted s (ok s') h h' = h'
action_reply-Counted s (err (cannot_act status)) h h' = h
action_reply-Counted s (err message_missing) h h' = h
action_reply-Counted s (err key_taken) h h' = h

abbrev CountedResolved : Resolved → Type 0
CountedResolved (in_thread s id) = Counted s
CountedResolved (thread_error e) = Unit {0}
CountedResolved unresolved = Unit {0}

resolved_of-Counted :
    (r : Result InboxError (Inbox × InboxThread)) → CountedFound r → CountedResolved (resolved_of r)
resolved_of-Counted (ok (s, t)) h = h
resolved_of-Counted (err e) h = tt

resolve_context-Counted :
    (s : Inbox) (fresh : Fresh) (body : InboxCreateMessageBody) (ct cr : Option String)
    → Counted s
    → Unused fresh.new_thread_id s
    → CountedResolved (resolve_context s fresh body ct cr)
unfolding resolve_context
resolve_context-Counted s fresh body (some ct) (some cr) h unused = resolved_of-Counted _ (
    get_or_create_inbox_thread-Counted s fresh.new_thread_id fresh.now ct cr
      (title_or cr body.thread_title) body.project_key h unused)
resolve_context-Counted s fresh body (some ct) none h unused = tt
resolve_context-Counted s fresh body none cr h unused = tt

resolve_thread-Counted :
    (s : Inbox) (fresh : Fresh) (body : InboxCreateMessageBody) (thread_id : Option String)
    → Counted s
    → Unused fresh.new_thread_id s
    → CountedResolved (resolve_thread s fresh body thread_id)
unfolding resolve_thread
resolve_thread-Counted s fresh body (some tid) h unused = h
resolve_thread-Counted s fresh body none h unused =
    resolve_context-Counted s fresh body body.context_type body.context_ref h unused

post_resolved-Counted :
    (s : Inbox) (fresh : Fresh) (body : InboxCreateMessageBody) (r : Resolved)
    → Counted s
    → CountedResolved r
    → Counted (post_resolved s fresh body r).0
unfolding post_resolved
post_resolved-Counted s fresh body unresolved h h' = h
post_resolved-Counted s fresh body (thread_error e) h h' = h
post_resolved-Counted s fresh body (in_thread s' id) h h' =
    message_reply-Counted s' (create_inbox_message s' fresh.now (message_of fresh body id)) h'
      (create_inbox_message-Counted s' fresh.now (message_of fresh body id) h')

pub inbox_create_message-Counted :
    (s : Inbox) (fresh : Fresh) (body : InboxCreateMessageBody)
    → Counted s
    → Unused fresh.new_thread_id s
    → Counted (inbox_create_message s fresh body).0
unfolding inbox_create_message
inbox_create_message-Counted s fresh body h unused =
    go (contains valid_kinds body.kind) (contains valid_urgencies body.urgency)
  where
    go :
        (kind urgency : Bool)
        → Counted
            (if not kind
              then (s, Reply.bad_request)
              else if not urgency
              then (s, Reply.bad_request)
              else post_resolved s fresh body (resolve_thread s fresh body body.thread_id)).0
    go false urgency = h
    go true false = h
    go true true =
        post_resolved-Counted s fresh body (resolve_thread s fresh body body.thread_id) h
          (resolve_thread-Counted s fresh body body.thread_id h unused)

act_on-Counted :
    (s : Inbox) (fresh : Fresh) (body : InboxCreateActionBody) (found : Option InboxMessage)
    → Counted s
    → find (is_message body.message_id) s.messages ≡ found
    → Counted (act_on s fresh body found).0
act_on-Counted s fresh body none h e = h
act_on-Counted s fresh body (some msg) h e =
    action_reply-Counted s (create_inbox_action s fresh.now (action_of fresh body msg)) h
      (create_inbox_action-Counted s fresh.now (action_of fresh body msg) msg h e refl)

pub inbox_create_action-Counted :
    (s : Inbox) (fresh : Fresh) (body : InboxCreateActionBody)
    → Counted s
    → Counted (inbox_create_action s fresh body).0
unfolding inbox_create_action get_inbox_message
inbox_create_action-Counted s fresh body h =
    go (contains valid_actions body.action_type) (is_too_long body.reason)
  where
    go :
        (action too_long : Bool)
        → Counted
            (if not action
              then (s, Reply.bad_request)
              else if too_long
              then (s, Reply.bad_request)
              else act_on s fresh body (find (is_message body.message_id) s.messages)).0
    go false too_long = h
    go true true = h
    go true false =
        act_on-Counted s fresh body (find (is_message body.message_id) s.messages) h refl

batch_result-Counted :
    (s : Inbox) (mid : String) (r : Result InboxError Inbox)
    → Counted s
    → CountedOk r
    → Counted (batch_result s mid r).0
batch_result-Counted s mid (ok s') h h' = h'
batch_result-Counted s mid (err e) h h' = h

act_in_batch-Counted :
    (s : Inbox) (fresh : Fresh) (body : InboxBatchActionBody) (mid : String)
    (found : Option InboxMessage)
    → Counted s
    → find (is_message mid) s.messages ≡ found
    → Counted (act_in_batch s fresh body mid found).0
act_in_batch-Counted s fresh body mid none h e = h
act_in_batch-Counted s fresh body mid (some msg) h e = go (not (msg.status == "pending"))
  where
    go :
        (settled : Bool)
        → Counted
            (if settled
              then (s, skipped mid (cannot_act msg.status))
              else batch_result s mid
                  (create_inbox_action s fresh.now (batch_action_of fresh body mid msg))).0
    go true = h
    go false =
        batch_result-Counted s mid
          (create_inbox_action s fresh.now (batch_action_of fresh body mid msg)) h
          (create_inbox_action-Counted s fresh.now (batch_action_of fresh body mid msg) msg h e
            refl)

batch_loop-Counted :
    (fresh : ℕ → Fresh) (body : InboxBatchActionBody) (s : Inbox) (mids : List String)
    → Counted s
    → Counted (batch_loop fresh body s mids).0
unfolding batch_loop get_inbox_message
batch_loop-Counted fresh body s [] h = h
batch_loop-Counted fresh body s (mid ∷ mids) h =
    batch_loop-Counted (λ n. fresh (suc n)) body
      (act_in_batch s (fresh 0) body mid (find (is_message mid) s.messages)).0 mids
      (act_in_batch-Counted s (fresh 0) body mid (find (is_message mid) s.messages) h refl)

abbrev state_of : Inbox × Option (List BatchResult) → Inbox
state_of r = r.0

pub inbox_batch_action-Counted :
    (s : Inbox) (fresh : ℕ → Fresh) (body : InboxBatchActionBody)
    → Counted s
    → Counted (inbox_batch_action s fresh body).0
unfolding inbox_batch_action
inbox_batch_action-Counted s fresh body h =
    go (ltb 100 (length body.message_ids)) (contains valid_actions body.action_type)
      (is_too_long body.reason)
  where
    go :
        (too_many action too_long : Bool)
        → Counted (
            state_of (
              if too_many
              then (s, none)
              else if not action
              then (s, none)
              else if too_long
              then (s, none)
              else (
                (batch_loop fresh body s body.message_ids).0,
                some (batch_loop fresh body s body.message_ids).1,
              )))
    go true action too_long = h
    go false false too_long = h
    go false true true = h
    go false true false = batch_loop-Counted fresh body s body.message_ids h
