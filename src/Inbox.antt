-- ===== src/Inbox.antt =====
-- The inbox: InboxMessage, InboxThread and InboxAction of kernel/crates/gctrl-core/src/types.rs, and
-- their statements in kernel/crates/gctrl-storage/src/sqlite_store.rs. A JSON value is its text. The
-- identifier and the time that an operation makes are arguments.
pub mod Routes
pub mod Laws
pub mod Urgency
mod Examples
use gctrl.Prelude.{
  ℕ, Bool, ◌&&◌, List, [], ◌∷◌, ◌++◌, map, Option, none, some, String, ◌==◌, String_eq, ltb, any,
  find, position, retain, update_where, length, if◌then◌else◌, not, suc, zero,
}
use gctrl.Prelude.Result.{Result, ok, err}

pub record InboxMessage : Type 0 where
  pub id : String
  pub thread_id : String
  pub source : String
  pub kind : String
  pub urgency : String
  pub title : String
  pub body : Option String
  pub context : String
  pub status : String
  pub requires_action : Bool
  pub payload : Option String
  pub duplicate_count : ℕ
  pub snoozed_until : Option ℕ
  pub expires_at : Option ℕ
  pub created_at : ℕ
  pub updated_at : ℕ

pub record InboxThread : Type 0 where
  pub id : String
  pub context_type : String
  pub context_ref : String
  pub title : String
  pub project_key : Option String
  pub pending_count : ℕ
  pub latest_urgency : String
  pub created_at : ℕ
  pub updated_at : ℕ

pub record InboxAction : Type 0 where
  pub id : String
  pub message_id : String
  pub thread_id : String
  pub actor_id : String
  pub actor_name : String
  pub action_type : String
  pub reason : Option String
  pub metadata : Option String
  pub created_at : ℕ

-- The tables `inbox_messages`, `inbox_threads` and `inbox_actions`.
pub record Inbox : Type 0 where
  pub messages : List InboxMessage
  pub threads : List InboxThread
  pub actions : List InboxAction

pub data InboxError : Type 0 where
  message_missing : InboxError
  cannot_act : (status : String) → InboxError
  key_taken : InboxError

abbrev pub is_message : String → InboxMessage → Bool
is_message id m = m.id == id

abbrev pub is_thread : String → InboxThread → Bool
is_thread id t = t.id == id

-- `WHERE thread_id = ?1 AND status = 'pending'`.
abbrev pub is_pending_in : String → InboxMessage → Bool
is_pending_in thread_id m = m.thread_id == thread_id && m.status == "pending"

abbrev pub pending_of : String → List InboxMessage → List InboxMessage
pending_of thread_id messages = retain (is_pending_in thread_id) messages

abbrev pub urgency_order : List String
urgency_order = "critical" ∷ "high" ∷ "medium" ∷ "low" ∷ "info" ∷ []

-- `urgency_order.iter().position(..).unwrap_or(4)`.
abbrev pub or_four : Option ℕ → ℕ
or_four none = 4
or_four (some n) = n

unfoldable pub urgency_position : String → ℕ
urgency_position u = or_four (position (λ x. x == u) urgency_order)

-- `urgency_order[n]`; the loop asks for a position that is below another one, so it is in range.
abbrev pub nth_or : String → ℕ → List String → String
nth_or other n [] = other
nth_or other zero (u ∷ us) = u
nth_or other (suc n) (u ∷ us) = nth_or other n us

unfoldable pub best_urgency : String → List String → String
best_urgency best [] = best
best_urgency best (u ∷ us) =
    best_urgency
      (if ltb (urgency_position u) (urgency_position best)
        then nth_or best (urgency_position u) urgency_order
        else best)
      us

-- `SELECT DISTINCT`, which keeps the first of each.
unfoldable pub distinct : List String → List String
distinct [] = []
distinct (u ∷ us) = u ∷ retain (λ x. not (x == u)) (distinct us)

unfoldable pub latest_urgency_of : List InboxMessage → String
unfolding best_urgency distinct
latest_urgency_of pending =
    if ltb 0 (length pending)
    then best_urgency "info" (distinct (map (λ m. m.urgency) pending))
    else "info"

abbrev pub with_counts : List InboxMessage → ℕ → InboxThread → InboxThread
with_counts pending now t = record t {
  pending_count = length pending;
  latest_urgency = latest_urgency_of pending;
  updated_at = now;
}

unfoldable pub recalc_thread_counts : Inbox → ℕ → String → Inbox
recalc_thread_counts s now thread_id = record s {
  threads =
      update_where (is_thread thread_id) (with_counts (pending_of thread_id s.messages) now)
        s.threads;
}

abbrev pub is_context : String → String → InboxThread → Bool
is_context context_type context_ref t =
    t.context_type == context_type && t.context_ref == context_ref

abbrev pub new_thread : String → ℕ → String → String → String → Option String → InboxThread
new_thread id now context_type context_ref title project_key = record {
  id = id;
  context_type = context_type;
  context_ref = context_ref;
  title = title;
  project_key = project_key;
  pending_count = 0;
  latest_urgency = "info";
  created_at = now;
  updated_at = now;
}

abbrev pub insert_thread : Inbox → InboxThread → Result InboxError (Inbox × InboxThread)
insert_thread s t =
    if any (is_thread t.id) s.threads
    then err key_taken
    else ok (record s { threads = s.threads ++ t ∷ [] }, t)

unfoldable pub get_or_create_inbox_thread :
    Inbox
    → (id : String) (now : ℕ) (context_type context_ref title : String)
      (project_key : Option String)
    → Result InboxError (Inbox × InboxThread)
get_or_create_inbox_thread s id now context_type context_ref title project_key =
    elim (find (is_context context_type context_ref) s.threads) [
      | some t ↦ ok (s, t)
      | none ↦ insert_thread s (new_thread id now context_type context_ref title project_key)
    ]

abbrev pub insert_message : Inbox → InboxMessage → Inbox
insert_message s msg = record s { messages = s.messages ++ msg ∷ [] }

unfoldable pub create_inbox_message : Inbox → (now : ℕ) → InboxMessage → Result InboxError Inbox
unfolding recalc_thread_counts
create_inbox_message s now msg =
    if any (is_message msg.id) s.messages
    then err key_taken
    else if msg.status == "pending"
    then ok (recalc_thread_counts (insert_message s msg) now msg.thread_id)
    else ok (insert_message s msg)

unfoldable pub get_inbox_message : Inbox → String → Option InboxMessage
get_inbox_message s id = find (is_message id) s.messages

unfoldable pub get_inbox_thread : Inbox → String → Option InboxThread
get_inbox_thread s id = find (is_thread id) s.threads

abbrev pub acted : ℕ → InboxMessage → InboxMessage
acted now m = record m { status = "acted"; updated_at = now }

-- The insertion of the action and the change of the message.
abbrev pub insert_action : Inbox → ℕ → InboxAction → Inbox
insert_action s now action = record s {
  actions = s.actions ++ action ∷ [];
  messages = update_where (is_message action.message_id) (acted now) s.messages;
}

unfoldable pub create_inbox_action : Inbox → (now : ℕ) → InboxAction → Result InboxError Inbox
unfolding recalc_thread_counts
create_inbox_action s now action = elim (find (is_message action.message_id) s.messages) [
  | none ↦ err message_missing
  | some m ↦
      if not (m.status == "pending")
      then err (cannot_act m.status)
      else if any (λ a. a.id == action.id) s.actions
      then err key_taken
      else ok (recalc_thread_counts (insert_action s now action) now action.thread_id)
]
