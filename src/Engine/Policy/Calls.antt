-- ===== src/Engine/Policy/Calls.antt =====
-- Any calls on the queue of src/engine/ingest-policy.ts, one after the other.
use notestr.Prelude.{ℕ, ◌≡◌, Text, some, List, [], ◌∷◌}
use notestr.Engine.Types.{RawProtocolFact, DeferredReason}
use notestr.Engine.Policy.{
  IngestPolicy, IngestPolicyOptions, create_ingest_policy, mark_processed, enqueue_deferred,
  remove_deferred, record_attempt, refund_attempt, prune_deferred,
}
use notestr.Engine.Policy.Queue.{
  IsQueue, enqueue_deferred-IsQueue, remove_deferred-IsQueue, record_attempt-IsQueue,
  refund_attempt-IsQueue, mark_processed-IsQueue, prune_deferred-IsQueue,
  create_ingest_policy-IsQueue,
}

-- The calls that change the queue.
pub data QueueCall : Type 0 where
  enqueues : Text → RawProtocolFact → DeferredReason → (now : ℕ) → QueueCall
  removes records refunds marks : Text → QueueCall
  prunes : (now : ℕ) → QueueCall

abbrev pub run_call : IngestPolicy → QueueCall → IngestPolicy
run_call p (enqueues id fact reason now) = (enqueue_deferred p id fact reason now).1
run_call p (removes id) = remove_deferred p id
run_call p (records id) = record_attempt p id
run_call p (refunds id) = refund_attempt p id
run_call p (marks id) = mark_processed p id
run_call p (prunes now) = (prune_deferred p now).1

pub run_calls : IngestPolicy → List QueueCall → IngestPolicy
run_calls p [] = p
run_calls p (c ∷ cs) = run_calls (run_call p c) cs

run_call-IsQueue : (p : IngestPolicy) (c : QueueCall) → IsQueue p → IsQueue (run_call p c)
run_call-IsQueue p (enqueues id fact reason now) h = enqueue_deferred-IsQueue p id fact reason now h
run_call-IsQueue p (removes id) h = remove_deferred-IsQueue p id h
run_call-IsQueue p (records id) h = record_attempt-IsQueue p id h
run_call-IsQueue p (refunds id) h = refund_attempt-IsQueue p id h
run_call-IsQueue p (marks id) h = mark_processed-IsQueue p id h
run_call-IsQueue p (prunes now) h = prune_deferred-IsQueue p now h

run_calls-IsQueue' : (p : IngestPolicy) (cs : List QueueCall) → IsQueue p → IsQueue (run_calls p cs)
unfolding run_calls
run_calls-IsQueue' p [] h = h
run_calls-IsQueue' p (c ∷ cs) h = run_calls-IsQueue' (run_call p c) cs (run_call-IsQueue p c h)

-- After any calls on a policy that was created, no fact is parked twice, the queue is within its
-- cap, and each entry stands under its fact's id.
pub run_calls-IsQueue :
    (o : IngestPolicyOptions) (p : IngestPolicy) (cs : List QueueCall)
    → create_ingest_policy o ≡ some p
    → IsQueue (run_calls p cs)
run_calls-IsQueue o p cs e = run_calls-IsQueue' p cs (create_ingest_policy-IsQueue o p e)
