-- ===== src/Ipc/Removal.antt =====
-- A queue of extension/sysvipc/sysvipc_msg.c that is removed while a receiver is about to retry.
use re_terminal.Prelude.{
  ℕ, zero, suc, ◌≡◌, refl, ◌^◌, ◌%◌, none, some, List, [], ◌∷◌, get_elem?, set, ==_iff,
  Option-cases, inl, inr, ◌⊎◌, sym, ◌∙◌, Gives, Gives-none, Gives-some,
}
use re_terminal.Prelude.Int.{pos, minus_eagain}
use re_terminal.Ipc.{Config, msgrcv_retry, Namespace, Args, Env, MsgQueue}
use re_terminal.Ipc.Object.{lookup_object}
use re_terminal.Ipc.Object.Ids.{lookup_object_sound}
use re_terminal.Ipc.Msg.{Reply, queue_header}
use re_terminal.Ipc.Receive.{wake_all, removed, rmid, msgctl, msgctl_on, retry_msgrcv, retry_at}

get_elem?-set :
    (queues : List MsgQueue) (i : ℕ) (q v : MsgQueue)
    → get_elem? queues i ≡ some q
    → get_elem? (set queues i v) i ≡ some v
get_elem?-set [] i q v e = cc
get_elem?-set (x ∷ xs) zero q v e = refl
get_elem?-set (x ∷ xs) (suc i) q v e = get_elem?-set xs i q v e

rmid-queue :
    (ns : Namespace) (i : ℕ) (q : MsgQueue) (reply : Reply)
    → get_elem? ns.queues i ≡ some q
    → rmid ns i q ≡ some reply
    → get_elem? reply.1.queues i ≡ some (removed q)
unfolding rmid
rmid-queue ns i q reply at e = (by_wake (Option-cases (wake_all i ns.tracees))).holds reply e
  where
    Holds : Reply → Type 0
    Holds r = get_elem? r.1.queues i ≡ some (removed q)

    by_wake :
        (wake_all i ns.tracees ≡ none) ⊎ ((t : List Config) × (wake_all i ns.tracees ≡ some t))
        → Gives Holds (rmid ns i q)
    by_wake (inl w) = rw (w, rmid) (Gives-none Holds)
    by_wake (inr (t, w)) =
        rw (w, rmid)
          (Gives-some Holds (pos 0, record ns { queues = set ns.queues i (removed q); tracees = t })
            (get_elem?-set ns.queues i q (removed q) at))

msgctl-rmid :
    (env : Env) (args : Args) (ns : Namespace) (i : ℕ) (q : MsgQueue)
    → lookup_object queue_header args.arg1 ns.queues ≡ some (i, q)
    → args.arg2 % 2 ^ 32 ≡ 0
    → msgctl env args ns ≡ rmid ns i q
unfolding msgctl msgctl_on
msgctl-rmid env args ns i q l z = rw (l, (==_iff (args.arg2 % 2 ^ 32) 0).1 z) refl

retry-none :
    (env : Env) (config : Config) (ns : Namespace) (q : MsgQueue)
    → get_elem? ns.queues config.waiting_object_index ≡ some (removed q)
    → config.chain_state ≡ msgrcv_retry
    → config.status_after_wait ≡ minus_eagain
    → retry_msgrcv env config ns ≡ none
unfolding retry_msgrcv retry_at removed
retry-none env config ns q at c s = rw (c, s, at) refl

-- For a receiver that has been told to retry its msgrcv on a queue that a lookup finds: after a
-- msgctl with IPC_RMID of that queue that returns, the retry fails an assertion.
pub removal-retry :
    (env : Env) (args : Args) (ns : Namespace) (config : Config) (q : MsgQueue) (reply : Reply)
    → lookup_object queue_header args.arg1 ns.queues ≡ some (config.waiting_object_index, q)
    → args.arg2 % 2 ^ 32 ≡ 0
    → config.chain_state ≡ msgrcv_retry
    → config.status_after_wait ≡ minus_eagain
    → msgctl env args ns ≡ some reply
    → retry_msgrcv env config reply.1 ≡ none
removal-retry env args ns config q reply l z c s e =
    let i = config.waiting_object_index in
    let at = (lookup_object_sound queue_header args.arg1 ns.queues i q l).0 in
    let removal : rmid ns i q ≡ some reply = sym (msgctl-rmid env args ns i q l z) ∙ e in
    retry-none env config reply.1 q (rmid-queue ns i q reply at removal) c s
