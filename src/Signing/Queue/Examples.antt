-- ===== src/Signing/Queue/Examples.antt =====
-- `ApprovalQueue` on a short history: two prompts of one site, of which one is answered and one is
-- rejected.
use nostr_wot_sdk.Prelude.{
  ◌≡◌, ◌≢◌, refl, none, some, List, [], ◌∷◌, Text, text, text_eq, text_beq, lookup, put, remove,
  true, false, ℕ, nat_eq,
}
use nostr_wot_sdk.Signing.Queue.{
  PendingEntry, approval, resolved, Promise, Queue, Event, create, entry_key, refusal,
  settle_promise, settle, fail_promise, fail, admit, track, fail_all, reject_where, reject, dispose,
  track_event, work_event, timer_event, reject_event, step, run, shutdown, too_many_pending,
  invalid_request,
}
use nostr_wot_sdk.Signing.Queue.Bounds.{Bounded, run-create-Bounded}
use nostr_wot_sdk.Signing.Queue.Tickets.{Linked, run-create-Linked}
use nostr_wot_sdk.Signing.Queue.Ends.{Ended, run-Ended}
use nostr_wot_sdk.Signing.Queue.Disposal.{dispose_lem}

program : Unit {0}
unfolding create entry_key refusal settle_promise settle fail_promise fail admit track fail_all
    reject_where reject dispose step run lookup put remove text_beq
program = tt

abbrev prompt : Text → PendingEntry
prompt id = record {
  id = id;
  kind = approval;
  origin = text "https://shop.example";
  account_id = some (text "a1");
  queued_at = 7;
}

-- The first prompt's work ends; a timer of it fires too late.
abbrev answered : List Event
answered =
    track_event (prompt (text "r1")) true
    ∷ track_event (prompt (text "r2")) true
    ∷ work_event 0 true
    ∷ timer_event 0
    ∷ []

abbrev history : List Event
history =
    track_event (prompt (text "r1")) true
    ∷ track_event (prompt (text "r1")) true
    ∷ reject_event (text "https://shop.example") (text "r1") (text "no")
    ∷ []

abbrev small : Queue
small = create (some 1) none none

second_refused :
    refusal (run small (track_event (prompt (text "r1")) true ∷ [])) (prompt (text "r2"))
    ≡ some too_many_pending
unfolding program
second_refused = refl

repeat_refused :
    refusal (run small (track_event (prompt (text "r1")) true ∷ [])) (prompt (text "r1"))
    ≡ some invalid_request
unfolding program
repeat_refused = refl

run-create-Bounded_example : Bounded (run small history)
run-create-Bounded_example = run-create-Bounded (some 1) none none history

run-create-Linked_example : Linked (run small history)
run-create-Linked_example = run-create-Linked (some 1) none none history

abbrev answered_promise : Promise
answered_promise = record {
  key = entry_key (text "https://shop.example") (text "r1") approval;
  entry = prompt (text "r1");
  settlement = some resolved;
}

run-Ended_example :
    Ended
      (run (run (create none none none) answered) (timer_event 0 ∷ work_event 0 false ∷ []))
      0
      resolved
unfolding program
run-Ended_example =
    run-Ended (run (create none none none) answered) (timer_event 0 ∷ work_event 0 false ∷ []) 0
      resolved (run-create-Linked none none none answered) (answered_promise, refl, refl)

dispose_lem_example :
    ((dispose (run (create none none none) answered)).entries ≡ [])
    × ((t : ℕ) (p : Promise)
        → lookup t (dispose (run (create none none none) answered)).promises ≡ some p
        → p.settlement ≢ none)
    × ((e : PendingEntry)
        → refusal (dispose (run (create none none none) answered)) e ≡ some shutdown)
dispose_lem_example =
    dispose_lem (run (create none none none) answered) (run-create-Linked none none none answered)
