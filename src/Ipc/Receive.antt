-- ===== src/Ipc/Receive.antt =====
-- sysvipc_msg.c: msgrcv, its retry after a wait, and msgctl.
pub mod Counts
use re_terminal.Prelude.{
  ℕ, zero, suc, ◌+◌, ◌-◌, ◌/◌, ◌%◌, ◌^◌, Bool, true, false, not, ◌&&◌, ◌||◌, Option, none, some,
  List, [], ◌∷◌, ◌++◌, ltb, leb, ◌==◌, length, set, get_elem?, if◌then◌else◌,
}
use re_terminal.Prelude.Int.{
  ℤ, pos, negsuc, is_negative, eqb_ℤ, to_int, has_flag, minus_eintr, minus_eagain, minus_einval,
  minus_enomsg, minus_eidrm,
}
use re_terminal.Ipc.{
  Item, QueueStats, MsgQueue, Config, Namespace, Args, Env, Write, not_waiting, wait_queue_recv,
  WaitReason, ChainState, msgrcv_retry, not_chained,
}
use re_terminal.Ipc.Object.{lookup_object}
use re_terminal.Ipc.Wake.{is_waiting, wake_tracee, prepend}
use re_terminal.Ipc.Msg.{
  ipc_nowait, msg_noerror, msg_except, msg_copy, word, queue_header, queue_at, Reply, msg_match,
  Delivery, msg_deliver,
}

-- Any bit but IPC_NOWAIT, MSG_NOERROR, MSG_EXCEPT and MSG_COPY, which are bits 11 to 14.
abbrev pub has_other_flags : ℕ → Bool
has_other_flags flags = not (flags % 2 ^ 11 == 0 && flags / 2 ^ 15 == 0)

-- The first item that matches, with its position.
unfoldable pub find_item : Config → ℕ → List Item → Option (ℕ × Item)
find_item config index [] = none
find_item config index (item ∷ rest) =
    if msg_match (to_int item.mtype) config.msgrcv_msgtyp config.msgrcv_msgflg
    then some (index, item)
    else find_item config (index + 1) rest

-- The item at a position given as an int.
unfoldable pub find_copy : ℤ → ℕ → List Item → Option (ℕ × Item)
find_copy wanted index [] = none
find_copy wanted index (item ∷ rest) =
    if eqb_ℤ (pos index) wanted then some (index, item) else find_copy wanted (index + 1) rest

unfoldable pub remove_at : ℕ → List Item → List Item
remove_at i [] = []
remove_at zero (x ∷ xs) = xs
remove_at (suc i) (x ∷ xs) = x ∷ remove_at i xs

-- STAILQ_REMOVE with the statistics.
unfoldable pub take_item : MsgQueue → ℕ → Item → MsgQueue
unfolding remove_at
take_item q index item = record q {
  items = remove_at index q.items;
  stats = record q.stats {
    msg_qnum = (q.stats.msg_qnum + word - 1) % word;
    msg_cbytes = (q.stats.msg_cbytes + word - item.mtext_length) % word;
  };
}

pub record Received : Type 0 where
  pub status : ℤ
  pub config : Config
  pub queue : MsgQueue
  pub written : List Write

receive_item : Env → Config → MsgQueue → Bool → ℕ × Item → Received
unfolding take_item
receive_item env config q copy (index, item) =
    let d = msg_deliver env config q.stats item in
    let delivered = record q { stats = d.stats } in
    record {
      status = d.status;
      config = config;
      queue =
          if not (is_negative d.status) && not copy
          then take_item delivered index item
          else delivered;
      written = d.written;
    }

receive_found : Env → Config → ℕ → MsgQueue → Bool → Option (ℕ × Item) → Received
unfolding receive_item
receive_found env config queue_index q copy (some hit) = receive_item env config q copy hit
receive_found env config queue_index q copy none =
    if has_flag config.msgrcv_msgflg ipc_nowait
    then record { status = minus_enomsg; config = config; queue = q; written = [] }
    else record {
      status = pos 0;
      config = record config { wait_reason = wait_queue_recv; waiting_object_index = queue_index };
      queue = q;
      written = [];
    }

-- The arguments that msgrcv refuses.
unfoldable pub refused : Config → Bool
refused config =
    is_negative (to_int config.msgrcv_msgsz)
    || has_other_flags config.msgrcv_msgflg
    || has_flag config.msgrcv_msgflg msg_copy
      && (not (has_flag config.msgrcv_msgflg ipc_nowait)
          || has_flag config.msgrcv_msgflg msg_except)

unfoldable pub do_msgrcv : Env → Config → ℕ → MsgQueue → Received
unfolding refused receive_found find_item find_copy
do_msgrcv env config queue_index q =
    let copy = has_flag config.msgrcv_msgflg msg_copy in
    if refused config
    then record { status = minus_einval; config = config; queue = q; written = [] }
    else receive_found env config queue_index q copy
        (if copy then find_copy config.msgrcv_msgtyp 0 q.items else find_item config 0 q.items)

-- The config of a tracee takes the place of the one with its pid.
unfoldable pub put_config : Config → List Config → List Config
put_config config [] = []
put_config config (c ∷ rest) =
    if c.pid == config.pid then config ∷ rest else c ∷ put_config config rest

unfoldable pub put_received : Namespace → ℕ → Received → ℤ × Namespace × List Write
unfolding put_config
put_received ns queue_index r = (
  r.status,
  record ns {
    queues = set ns.queues queue_index r.queue;
    tracees = put_config r.config ns.tracees;
  },
  r.written,
)

msgrcv_from : Env → Config → Args → Namespace → Option (ℕ × MsgQueue) → ℤ × Namespace × List Write
unfolding do_msgrcv put_received
msgrcv_from env config args ns none = (minus_einval, ns, [])
msgrcv_from env config args ns (some (queue_index, q)) = put_received ns queue_index (
    do_msgrcv env
      (record config {
        msgrcv_msgp = args.arg2;
        msgrcv_msgsz = args.arg3;
        msgrcv_msgtyp = to_int args.arg4;
        msgrcv_msgflg = args.arg5 % 2 ^ 32;
      })
      queue_index q)

-- `config` is that of the tracee that calls.
unfoldable pub msgrcv : Env → Config → Args → Namespace → ℤ × Namespace × List Write
unfolding msgrcv_from lookup_object
msgrcv env config args ns =
    msgrcv_from env config args ns (lookup_object queue_header args.arg1 ns.queues)

-- A retry that would wait again is a spurious wakeup.
no_second_wait : Received → Received
no_second_wait r =
    let ended = record r.config { wait_reason = not_waiting; chain_state = not_chained } in
    if is_waiting r.config.wait_reason
    then record r { status = minus_eintr; config = ended }
    else record r { config = record r.config { chain_state = not_chained } }

unfoldable pub retry_at :
    Env → Config → Namespace → ℕ → Option MsgQueue → Option (ℤ × Namespace × List Write)
unfolding no_second_wait put_received
retry_at env config ns index none = none
retry_at env config ns index (some q) =
    if q.valid
    then some (put_received ns index (no_second_wait (do_msgrcv env config index q)))
    else none

-- `none` is a failed assertion.
unfoldable pub retry_msgrcv : Env → Config → Namespace → Option (ℤ × Namespace × List Write)
unfolding retry_at do_msgrcv
retry_msgrcv env config ns =
    if not (elim config.chain_state [ msgrcv_retry ↦ true | _ ↦ false ])
    then none
    else if eqb_ℤ config.status_after_wait minus_eagain
    then retry_at env config ns config.waiting_object_index
        (get_elem? ns.queues config.waiting_object_index)
    else some (
      config.status_after_wait,
      record ns { tracees = put_config (record config { chain_state = not_chained }) ns.tracees },
      [],
    )

-- The loop of IPC_RMID: all that wait for the queue are woken.
unfoldable pub waits_on : ℕ → Config → Bool
waits_on queue_index c =
    (elim c.wait_reason [ wait_queue_recv ↦ true | _ ↦ false ])
    && c.waiting_object_index == queue_index

unfoldable pub wake_all : ℕ → List Config → Option (List Config)
unfolding waits_on wake_tracee prepend
wake_all queue_index [] = some []
wake_all queue_index (c ∷ rest) =
    prepend (if waits_on queue_index c then wake_tracee c minus_eidrm else some c)
      (wake_all queue_index rest)

-- generation++ on an int16_t.
unfoldable pub removed : MsgQueue → MsgQueue
removed q = record q { valid = false; generation = (q.generation + 1) % 2 ^ 16; items = [] }

unfoldable pub rmid : Namespace → ℕ → MsgQueue → Option Reply
unfolding wake_all removed
rmid ns index q = elim (wake_all index ns.tracees) [
  | none ↦ none
  | some tracees ↦
      some (pos 0, record ns { queues = set ns.queues index (removed q); tracees = tracees })
]

unfoldable pub stat : Env → Args → Namespace → MsgQueue → Reply
stat env args ns q =
    let status = env.write_stats args.arg3 q.stats in
    (if is_negative status then status else pos 0, ns)

abbrev pub ipc_64 : ℕ
ipc_64 = 0x100

-- IPC_RMID is 0 and IPC_STAT is 2.
unfoldable pub msgctl_on : Env → Args → Namespace → Option (ℕ × MsgQueue) → Option Reply
unfolding rmid stat
msgctl_on env args ns none = some (minus_einval, ns)
msgctl_on env args ns (some (index, q)) =
    let cmd = args.arg2 % 2 ^ 32 in
    if cmd == 0 || cmd == ipc_64
    then rmid ns index q
    else if cmd == 2 || cmd == 2 + ipc_64
    then some (stat env args ns q)
    else some (minus_einval, ns)

unfoldable pub msgctl : Env → Args → Namespace → Option Reply
unfolding msgctl_on lookup_object
msgctl env args ns = msgctl_on env args ns (lookup_object queue_header args.arg1 ns.queues)
