-- ===== src/Inbox/Laws.antt =====
-- The counts of the threads, under the operations on the tables.
use gctrl.Prelude.{
  ℕ, ◌≡◌, refl, ap, sym, true, false, List, [], ◌∷◌, ◌++◌, Option, some, String, ◌==◌, String_eq,
  eq_iff, any, find, update_where, length, All, All-map, All-append, if◌then◌else◌, arith,
  Bool-cases, Option-cases, inl, inr, ◌⊎◌,
}
use gctrl.Prelude.Result.{Result, ok, err}
use gctrl.Inbox.{
  InboxMessage, InboxThread, InboxAction, Inbox, is_message, is_thread, is_pending_in, pending_of,
  with_counts, latest_urgency_of, recalc_thread_counts, acted, create_inbox_message,
  create_inbox_action, get_or_create_inbox_thread, is_context, InboxError,
}

-- A thread shows the number of its pending messages and the urgency among them.
abbrev pub CountedIn : List InboxMessage → InboxThread → Type 0
CountedIn messages t =
    (t.pending_count ≡ length (pending_of t.id messages))
    × (t.latest_urgency ≡ latest_urgency_of (pending_of t.id messages))

abbrev pub DistinctIds : List InboxMessage → Type 0
DistinctIds [] = Unit {0}
DistinctIds (m ∷ ms) = (any (is_message m.id) ms ≡ false) × DistinctIds ms

-- Each thread is counted, and no two messages have one identifier.
abbrev pub Counted : Inbox → Type 0
Counted s = All (CountedIn s.messages) s.threads × DistinctIds s.messages

recalc-CountedIn :
    (old new : List InboxMessage) (now : ℕ) (thread_id : String) (ts : List InboxThread)
    → ((id : String) → (id == thread_id) ≡ false → pending_of id new ≡ pending_of id old)
    → All (CountedIn old) ts
    → All
        (CountedIn new)
        (update_where (is_thread thread_id) (with_counts (pending_of thread_id new) now) ts)
recalc-CountedIn old new now thread_id [] same h = tt
recalc-CountedIn old new now thread_id (t ∷ ts) same (h, hs) =
    (go (Bool-cases (t.id == thread_id)), recalc-CountedIn old new now thread_id ts same hs)
  where
    go :
        ((t.id == thread_id) ≡ true) ⊎ ((t.id == thread_id) ≡ false)
        → CountedIn new
            (if t.id == thread_id then with_counts (pending_of thread_id new) now t else t)
    go (inl e) =
        let same_id = sym ((eq_iff t.id thread_id).0 e) in
        rw e (
          ap (λ k. length (pending_of k new)) same_id,
          ap (λ k. latest_urgency_of (pending_of k new)) same_id,
        )
    go (inr e) = rw (e, same t.id e) h

pending_append :
    (id : String) (ms : List InboxMessage) (m : InboxMessage)
    → is_pending_in id m ≡ false
    → pending_of id (ms ++ m ∷ []) ≡ pending_of id ms
pending_append id [] m h = ground arith
pending_append id (x ∷ ms) m h = ground (arith, pending_append id ms m h)

any_append :
    (i : String) (ms : List InboxMessage) (m : InboxMessage)
    → any (is_message i) ms ≡ false
    → is_message i m ≡ false
    → any (is_message i) (ms ++ m ∷ []) ≡ false
any_append i [] m h hm = ground arith
any_append i (x ∷ ms) m h hm = ground (arith, any_append i ms m)

DistinctIds-append :
    (ms : List InboxMessage) (m : InboxMessage)
    → any (is_message m.id) ms ≡ false
    → DistinctIds ms
    → DistinctIds (ms ++ m ∷ [])
DistinctIds-append [] m h hs = (refl, tt)
DistinctIds-append (x ∷ ms) m h (hx, hs) = (
  any_append x.id ms m hx (ground (arith, eq_iff x.id m.id, eq_iff m.id x.id)),
  DistinctIds-append ms m (ground arith) hs,
)

any-acted :
    (i id : String) (now : ℕ) (ms : List InboxMessage)
    → any (is_message i) (update_where (is_message id) (acted now) ms) ≡ any (is_message i) ms
any-acted i id now [] = refl
any-acted i id now (x ∷ ms) = ground (arith, any-acted i id now ms)

DistinctIds-acted :
    (id : String) (now : ℕ) (ms : List InboxMessage)
    → DistinctIds ms
    → DistinctIds (update_where (is_message id) (acted now) ms)
DistinctIds-acted id now [] h = tt
DistinctIds-acted id now (x ∷ ms) (h, hs) =
    (ground (arith, any-acted x.id id now ms), DistinctIds-acted id now ms hs)

acted_none :
    (id : String) (now : ℕ) (ms : List InboxMessage)
    → any (is_message id) ms ≡ false
    → update_where (is_message id) (acted now) ms ≡ ms
acted_none id now [] h = refl
acted_none id now (x ∷ ms) h = ground (arith, acted_none id now ms)

-- An action leaves the pending messages of the other threads alone.
acted_other :
    (thread_id id : String) (now : ℕ) (ms : List InboxMessage) (m : InboxMessage)
    → DistinctIds ms
    → find (is_message id) ms ≡ some m
    → (m.thread_id == thread_id) ≡ false
    → pending_of thread_id (update_where (is_message id) (acted now) ms) ≡ pending_of thread_id ms
acted_other thread_id id now [] m h e other = refl
acted_other thread_id id now (x ∷ ms) m (h, hs) e other = elim (Bool-cases (x.id == id)) [
  | inl hit ↦ ground (arith, eq_iff x.id id, acted_none id now ms)
  | inr miss ↦ ground (arith, acted_other thread_id id now ms m)
]

-- The state of a result that is no error.
abbrev pub CountedOk : Result InboxError Inbox → Type 0
CountedOk (ok s) = Counted s
CountedOk (err e) = Unit {0}

not_pending_in :
    (id : String) (m : InboxMessage) → (m.status == "pending") ≡ false → is_pending_in id m ≡ false
not_pending_in id m h = ground arith

other_thread :
    (id : String) (m : InboxMessage) → (id == m.thread_id) ≡ false → is_pending_in id m ≡ false
other_thread id m h = ground (arith, eq_iff id m.thread_id, eq_iff m.thread_id id)

-- A message of a new identifier keeps the counts.
pub create_inbox_message-Counted :
    (s : Inbox) (now : ℕ) (msg : InboxMessage)
    → Counted s
    → CountedOk (create_inbox_message s now msg)
unfolding create_inbox_message recalc_thread_counts
create_inbox_message-Counted s now msg (h, hs) =
    elim (Bool-cases (any (is_message msg.id) s.messages)) [
      | inl taken ↦ rw taken tt
      | inr free ↦ elim (Bool-cases (msg.status == "pending")) [
        | inl pending ↦
            rw (free, pending)
              (
                recalc-CountedIn s.messages (s.messages ++ msg ∷ []) now msg.thread_id s.threads
                    (λ id other. pending_append id s.messages msg (other_thread id msg other)) h,
                DistinctIds-append s.messages msg free hs,
              )
        | inr settled ↦
            rw (free, settled)
              (
                All-map _ _
                    (λ (t : InboxThread) counted.
                      rw (pending_append t.id s.messages msg (not_pending_in t.id msg settled))
                        counted)
                    s.threads h,
                DistinctIds-append s.messages msg free hs,
              )
      ]
    ]

-- An action that names the thread of its message keeps the counts.
pub create_inbox_action-Counted :
    (s : Inbox) (now : ℕ) (action : InboxAction) (m : InboxMessage)
    → Counted s
    → find (is_message action.message_id) s.messages ≡ some m
    → m.thread_id ≡ action.thread_id
    → CountedOk (create_inbox_action s now action)
unfolding create_inbox_action recalc_thread_counts
create_inbox_action-Counted s now action m (h, hs) found same =
    rw (found, CountedOk)
      (elim (Bool-cases (m.status == "pending")) [
        | inr settled ↦ rw settled tt
        | inl pending ↦ elim (Bool-cases (any (λ a. a.id == action.id) s.actions)) [
          | inl taken ↦ rw (pending, taken) tt
          | inr free ↦
              rw (pending, free)
                (
                  recalc-CountedIn s.messages
                      (update_where (is_message action.message_id) (acted now) s.messages) now
                      action.thread_id s.threads
                      (λ id other.
                        acted_other id action.message_id now s.messages m hs found
                          (ground (arith, eq_iff m.thread_id id, eq_iff id action.thread_id)))
                      h,
                  DistinctIds-acted action.message_id now s.messages hs,
                )
        ]
      ])

-- No message stands in the thread.
abbrev pub Unused : String → Inbox → Type 0
Unused id s = pending_of id s.messages ≡ []

abbrev pub CountedFound : Result InboxError (Inbox × InboxThread) → Type 0
CountedFound (ok (s, t)) = Counted s
CountedFound (err e) = Unit {0}

-- The thread of a context keeps the counts, if it is not new or no pending message names it.
pub get_or_create_inbox_thread-Counted :
    (s : Inbox) (id : String) (now : ℕ) (context_type context_ref title : String)
    (project_key : Option String)
    → Counted s
    → Unused id s
    → CountedFound (get_or_create_inbox_thread s id now context_type context_ref title project_key)
unfolding get_or_create_inbox_thread latest_urgency_of
get_or_create_inbox_thread-Counted s id now context_type context_ref title project_key (h, hs)
      unused =
    elim (Option-cases (find (is_context context_type context_ref) s.threads)) [
      | inr (t, found) ↦ rw (found, CountedFound) (h, hs)
      | inl missing ↦
          rw (missing, CountedFound)
            (elim (Bool-cases (any (is_thread id) s.threads)) [
              | inl taken ↦ rw taken tt
              | inr free ↦ rw free (All-append _ s.threads _ h (rw unused (refl, refl), tt), hs)
            ])
    ]
