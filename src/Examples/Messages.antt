-- ===== src/Examples/Messages.antt =====
-- Message queues of extension/sysvipc at work: one queue with one message.
use re_terminal.Prelude.{none, ℕ, ◌≡◌, refl, inl, inr, true, some, [], ◌∷◌, arith}
use re_terminal.Prelude.Int.{minus_eagain, pos}
use re_terminal.Ipc.{
  Item, MsgQueue, Namespace, Args, Env, Config, not_waiting, wait_queue_recv, idle, entered_ppoll,
  not_chained, msgrcv_retry,
}
use re_terminal.Ipc.Object.{object_id, lookup_object}
use re_terminal.Ipc.Object.Ids.{lookup-object_id}
use re_terminal.Ipc.Msg.{queue_header, zero_stats, msg_match, msgsnd, Reply}
use re_terminal.Ipc.Msg.Counts.{AllCounts, Counts, total_length}
use re_terminal.Ipc.Removal.{removal-retry}
use re_terminal.Ipc.Returns.{msgsnd-returns, msgctl-returns}
use re_terminal.Ipc.Receive.{removed, retry_msgrcv, msgrcv, msgctl, find_item}
use re_terminal.Ipc.Receive.Counts.{msgrcv-AllCounts}

-- Memory that reads as zeros, but for the type 1 of a message, and takes every write.
abbrev env : Env
env = record {
  read_long = λ a. (pos 0, 1);
  read_bytes = λ a n. (pos 0, 7 ∷ []);
  read_sembufs = λ a n. (pos 0, []);
  write_long = λ a v. pos 0;
  write_bytes = λ a v. pos 0;
  write_stats = λ a v. pos 0;
  write_shorts = λ a v. pos 0;
  write_ints = λ a v. pos 0;
  time = 5;
}

abbrev item : Item
item = record { mtype = 1; mtext = 7 ∷ []; mtext_length = 1 }

abbrev queue : MsgQueue
queue = record {
  key = 9;
  generation = 2;
  valid = true;
  items = item ∷ [];
  stats = record zero_stats { msg_qnum = 1; msg_cbytes = 1; msg_qbytes = 65536 };
}

abbrev ns : Namespace
ns = record { queues = queue ∷ []; semaphores = []; tracees = [] }

abbrev config : Config
config = record {
  pid = 3;
  wait_reason = not_waiting;
  wait_state = idle;
  chain_state = not_chained;
  status_after_wait = pos 0;
  waiting_object_index = 0;
  msgrcv_msgp = 0;
  msgrcv_msgsz = 8;
  msgrcv_msgtyp = pos 0;
  msgrcv_msgflg = 0;
  semop_sops = [];
}

-- The id of the queue: slot 0, generation 2.
abbrev id : ℕ
id = 8193

abbrev args : ℕ → ℕ → ℕ → Args
args a b c = record { arg1 = a; arg2 = b; arg3 = c; arg4 = 0; arg5 = 0 }

queue-Counts : Counts queue
unfolding total_length
queue-Counts = record { number = refl; bytes = refl; sized = (omega arith, tt) }

ns-AllCounts : AllCounts ns
ns-AllCounts = ((λ v. queue-Counts), tt)

found_queue : lookup_object queue_header id ns.queues ≡ some (0, queue)
unfolding lookup_object
found_queue = refl

lookup-object_id_example :
    (n : ℕ) × (object_id 0 2 ≡ pos n) × (lookup_object queue_header n ns.queues ≡ some (0, queue))
lookup-object_id_example =
    lookup-object_id queue_header 0 queue ns.queues refl refl (omega arith) (omega arith)
      (omega arith)

msgrcv-AllCounts_example : AllCounts (msgrcv env config (args id 0 8) ns).1
msgrcv-AllCounts_example = msgrcv-AllCounts env config (args id 0 8) ns ns-AllCounts

found_item : find_item config 0 (item ∷ []) ≡ some (0, item)
unfolding find_item msg_match
found_item = refl

-- A receiver waits in its ppoll for a message of any type.
abbrev waiting : Namespace
waiting = record ns {
  tracees = record config { wait_reason = wait_queue_recv; wait_state = entered_ppoll } ∷ [];
}

msgsnd-returns_example :
    (reply : Reply) × (msgsnd env 4 (args id 0 1) waiting ≡ some reply) × AllCounts reply.1
msgsnd-returns_example =
    msgsnd-returns env 4 (args id 0 1) waiting ns-AllCounts (inr (inl refl), tt)

msgctl-returns_example :
    (reply : Reply) × (msgctl env (args id 0 0) waiting ≡ some reply) × AllCounts reply.1
msgctl-returns_example = msgctl-returns env (args id 0 0) waiting ns-AllCounts (inr (inl refl), tt)

-- A receiver that is about to retry.
abbrev retrying : Config
retrying = record config { chain_state = msgrcv_retry; status_after_wait = minus_eagain }

abbrev after_removal : Reply
after_removal = (pos 0, record ns { queues = removed queue ∷ [] })

removal_done : msgctl env (args id 0 0) ns ≡ some after_removal
unfolding msgctl removed
removal_done = refl

removal-retry_example : retry_msgrcv env retrying after_removal.1 ≡ none
removal-retry_example =
    removal-retry env (args id 0 0) ns retrying queue after_removal found_queue refl refl refl
      removal_done
