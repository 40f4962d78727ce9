-- ===== src/Signing/Queue.antt =====
-- The class `ApprovalQueue` of packages/identity/src/signing/queue.ts. A promise that `track` returns
-- is a ticket; its end, the aborts and the calls of `onCancel` are recorded in the state. What happens
-- outside, the work's end and the timer, are operations of their own.
pub mod Bounds
pub mod Tickets
pub mod Ends
pub mod Disposal
mod Examples
use nostr_wot_sdk.Prelude.{
  ℕ, zero, suc, Bool, true, false, not, ◌&&◌, ◌||◌, Option, none, some, List, [], ◌∷◌, ◌++◌, Text,
  text, text_eq, nat_eq, ◌==◌, leb, if◌then◌else◌, length, keep, values, count_if, lookup, put,
  remove,
}

pub data PendingKind : Type 0 where
  approval unlock remote : PendingKind

pub record PendingEntry : Type 0 where
  pub id : Text
  pub kind : PendingKind
  pub origin : Text
  pub account_id : Option Text
  pub queued_at : ℕ

-- The codes of `SignerError`.
pub data Code : Type 0 where
  invalid_request rejected permission_denied author_mismatch vault_locked too_many_pending timeout :
      Code
  account_switched no_account unsupported operation_failed internal shutdown : Code

-- How a promise ends: the work resolved it or threw, or the queue rejected it with a code.
pub data Settlement : Type 0 where
  resolved thrown : Settlement
  failed : Code → Settlement

-- An entry with its `fail`, which stands for the promise of the ticket.
pub record Tracked : Type 0 where
  pub entry : PendingEntry
  pub ticket : ℕ

-- The variables that a promise's closures share: the entry, its key and whether it has settled.
pub record Promise : Type 0 where
  pub key : Text
  pub entry : PendingEntry
  pub settlement : Option Settlement

pub record Queue : Type 0 where
  pub max_pending_per_origin : ℕ
  pub max_in_flight_per_origin : ℕ
  pub max_in_flight_global : ℕ
  pub disposed : Bool
  pub entries : List (Text × Tracked)
  pub promises : List (ℕ × Promise)
  pub issued : ℕ
  pub aborted : List ℕ
  pub cancelled : List (PendingEntry × Text)

-- The limits with the defaults of constants.ts.
abbrev or_limit : Option ℕ → ℕ → ℕ
or_limit none n = n
or_limit (some m) n = m

pub create : Option ℕ → Option ℕ → Option ℕ → Queue
create pending per_origin global = record {
  max_pending_per_origin = or_limit pending 5;
  max_in_flight_per_origin = or_limit per_origin 64;
  max_in_flight_global = or_limit global 256;
  disposed = false;
  entries = [];
  promises = [];
  issued = 0;
  aborted = [];
  cancelled = [];
}

abbrev kind_text : PendingKind → Text
kind_text approval = text "approval"
kind_text unlock = text "unlock"
kind_text remote = text "remote"

abbrev pub is_approval : PendingKind → Bool
is_approval approval = true
is_approval _ = false

-- `key`
pub entry_key : Text → Text → PendingKind → Text
entry_key origin id kind = origin ++ (0 ∷ kind_text kind) ++ (0 ∷ id)

abbrev pub is_actionable : Text → Text × Tracked → Bool
is_actionable origin (_, tracked) = is_approval tracked.entry.kind && tracked.entry.origin == origin

abbrev pub is_of_origin : Text → Text × Tracked → Bool
is_of_origin origin (_, tracked) = tracked.entry.origin == origin

abbrev pub actionable_count : Queue → Text → ℕ
actionable_count q origin = count_if (is_actionable origin) q.entries

abbrev pub origin_count : Queue → Text → ℕ
origin_count q origin = count_if (is_of_origin origin) q.entries

-- The guards of `track`, in order.
pub refusal : Queue → PendingEntry → Option Code
refusal q e =
    if q.disposed then some shutdown else elim (lookup (entry_key e.origin e.id e.kind) q.entries) [
      | some _ ↦ some invalid_request
      | none ↦
          if is_approval e.kind && leb q.max_pending_per_origin (actionable_count q e.origin)
          then some too_many_pending
          else if leb q.max_in_flight_global (length q.entries)
              || leb q.max_in_flight_per_origin (origin_count q e.origin)
          then some too_many_pending
          else none
    ]

-- `settle`: the first one ends the promise and takes its entry from the map.
pub settle_promise : Queue → ℕ → Settlement → Promise → Queue
settle_promise q ticket end p = elim p.settlement [
  | some _ ↦ q
  | none ↦ record q {
    entries = remove p.key q.entries;
    promises = put ticket (record p { settlement = some end }) q.promises;
  }
]

pub settle : Queue → ℕ → Settlement → Queue
settle q ticket end = elim (lookup ticket q.promises) [
  | none ↦ q
  | some p ↦ settle_promise q ticket end p
]

pub fail_promise : Queue → ℕ → Code → Text → Promise → Queue
fail_promise q ticket code reason p = elim p.settlement [
  | some _ ↦ q
  | none ↦ record (settle_promise q ticket (failed code) p) {
    aborted = ticket ∷ q.aborted;
    cancelled = (p.entry, reason) ∷ q.cancelled;
  }
]

pub fail : Queue → ℕ → Code → Text → Queue
fail q ticket code reason = elim (lookup ticket q.promises) [
  | none ↦ q
  | some p ↦ fail_promise q ticket code reason p
]

-- The promise and its entry, before the work starts.
pub admit : Queue → PendingEntry → Queue
admit q e = record q {
  entries =
      put (entry_key e.origin e.id e.kind) (record { entry = e; ticket = q.issued }) q.entries;
  promises =
      put q.issued (record { key = entry_key e.origin e.id e.kind; entry = e; settlement = none })
        q.promises;
  issued = suc q.issued;
}

-- `track`; `started` says whether the work was started or threw at once. The result is the ticket, or
-- the code of the refusal.
pub track : Queue → PendingEntry → Bool → Queue × (Option ℕ × Option Code)
track q e started = elim (refusal q e) [
  | some code ↦ (q, (none, some code))
  | none ↦
      if started
      then (admit q e, (some q.issued, none))
      else (settle (admit q e) q.issued thrown, (some q.issued, none))
]

-- The loop of `#rejectWhere` over its snapshot.
pub fail_all : List Tracked → Code → Text → Queue → Queue
fail_all [] code reason q = q
fail_all (t ∷ ts) code reason q = fail_all ts code reason (fail q t.ticket code reason)

pub reject_where : (PendingEntry → Bool) → Code → Text → Queue → Queue × ℕ
reject_where matches code reason q =
    let matching : List Tracked = keep (λ t. matches t.entry) (values q.entries) in
    (fail_all matching code reason q, length matching)

pub reject : Queue → Text → Text → Text → Queue × Bool
reject q origin request_id reason =
    let (next, n) =
      reject_where (λ e. e.origin == origin && e.id == request_id) rejected reason q in
    (next, not (leb n 0))

abbrev is_account : Text → Option Text → Bool
is_account account_id none = false
is_account account_id (some a) = a == account_id

pub reject_pending_for_account : Queue → Text → Text → Queue × ℕ
reject_pending_for_account q [] reason = (q, 0)
reject_pending_for_account q (c ∷ s) reason =
    reject_where (λ e. is_account (c ∷ s) e.account_id) account_switched reason q

pub reject_pending_for_origin : Queue → Text → Text → Queue × ℕ
reject_pending_for_origin q [] reason = (q, 0)
reject_pending_for_origin q (c ∷ s) reason = reject_where (λ e. e.origin == c ∷ s) rejected reason q

pub dispose : Queue → Queue
dispose q =
    (reject_where (λ _. true) shutdown (text "Signer shut down") (record q { disposed = true })).0

-- One call, the end of a work, or a timer that fires.
pub data Event : Type 0 where
  track_event : PendingEntry → Bool → Event
  work_event : ℕ → Bool → Event
  timer_event : ℕ → Event
  reject_event : Text → Text → Text → Event
  account_event origin_event : Text → Text → Event
  dispose_event : Event

pub step : Queue → Event → Queue
step q (track_event e started) = (track q e started).0
step q (work_event ticket ok) = settle q ticket (if ok then resolved else thrown)
step q (timer_event ticket) = fail q ticket timeout (text "Request timed out")
step q (reject_event origin id reason) = (reject q origin id reason).0
step q (account_event account reason) = (reject_pending_for_account q account reason).0
step q (origin_event origin reason) = (reject_pending_for_origin q origin reason).0
step q dispose_event = dispose q

pub run : Queue → List Event → Queue
run q [] = q
run q (e ∷ es) = run (step q e) es
