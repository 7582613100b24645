-- ===== src/Ipc/Msg.antt =====
-- sysvipc_msg.c: message queues. A handler gives the value that it returns, with what it has
-- changed; `none` is a failed assertion. The pid of the tracee that calls is `self`.
pub mod Counts
use re_terminal.Prelude.{
  ℕ, zero, suc, ◌+◌, ◌-◌, ◌/◌, ◌%◌, ◌^◌, Bool, true, false, not, ◌&&◌, ◌||◌, Option, none, some,
  List, [], ◌∷◌, ◌++◌, ltb, leb, ◌==◌, length, set, take, get_elem?, if◌then◌else◌,
}
use re_terminal.Prelude.Int.{
  ℤ, pos, negsuc, is_negative, eqb_ℤ, leb_ℤ, to_int, has_flag, minus_eintr, minus_enoent,
  minus_e2big, minus_eagain, minus_eexist, minus_einval, minus_enomsg, minus_eidrm,
}
use re_terminal.Ipc.{
  Item, QueueStats, MsgQueue, Config, Namespace, Args, Env, Write, not_waiting, wait_queue_recv,
  WaitReason, ChainState, msgrcv_retry, not_chained,
}
use re_terminal.Ipc.Object.{Header, object_id, lookup_object, Search, found, missing, find_slot}
use re_terminal.Ipc.Wake.{is_waiting, wake_tracee, prepend}

abbrev pub ipc_creat : ℕ
ipc_creat = 512

abbrev pub ipc_excl : ℕ
ipc_excl = 1024

abbrev pub ipc_nowait : ℕ
ipc_nowait = 2048

abbrev pub msg_noerror : ℕ
msg_noerror = 4096

abbrev pub msg_except : ℕ
msg_except = 8192

abbrev pub msg_copy : ℕ
msg_copy = 16384

abbrev pub max_msg_size : ℕ
max_msg_size = 0xffff

abbrev pub word : ℕ
word = 2 ^ 64

abbrev pub queue_header : MsgQueue → Header
queue_header q = record { key = q.key; generation = q.generation; valid = q.valid }

abbrev pub zero_stats : QueueStats
zero_stats = record {
  msg_lspid = 0;
  msg_lrpid = 0;
  msg_stime = 0;
  msg_rtime = 0;
  msg_qnum = 0;
  msg_cbytes = 0;
  msg_qbytes = 0;
}

-- A slot as memset leaves it.
abbrev pub zero_queue : MsgQueue
zero_queue = record { key = 0; generation = 0; valid = false; items = []; stats = zero_stats }

unfoldable pub create_queue : MsgQueue → ℕ → MsgQueue
create_queue q queue_id = record q {
  key = queue_id % 2 ^ 32;
  valid = true;
  items = [];
  stats = record zero_stats { msg_qbytes = 65536 };
}

-- The queue at an index, or a zeroed one.
abbrev pub queue_at : List MsgQueue → ℕ → MsgQueue
queue_at queues i = elim (get_elem? queues i) [ none ↦ zero_queue | some q ↦ q ]

abbrev pub Reply : Type 0
Reply = ℤ × Namespace

with_queues : Namespace → List MsgQueue → Namespace
with_queues ns queues = record ns { queues = queues }

msgget_new : Namespace → ℕ → Option ℕ → Reply
unfolding create_queue with_queues
msgget_new ns queue_id (some slot) =
    let queue = create_queue (queue_at ns.queues slot) queue_id in
    (object_id slot queue.generation, with_queues ns (set ns.queues slot queue))
msgget_new ns queue_id none =
    let queue = create_queue zero_queue queue_id in
    (object_id (length ns.queues) queue.generation, with_queues ns (ns.queues ++ queue ∷ []))

msgget_from : Namespace → ℕ → ℕ → Search MsgQueue → Reply
unfolding msgget_new
msgget_from ns queue_id msgflg (found index queue) =
    if has_flag msgflg ipc_creat && has_flag msgflg ipc_excl
    then (minus_eexist, ns)
    else (object_id index queue.generation, ns)
msgget_from ns queue_id msgflg (missing unused) =
    if not (has_flag msgflg ipc_creat) then (minus_enoent, ns) else msgget_new ns queue_id unused

unfoldable pub msgget : Args → Namespace → Reply
unfolding msgget_from find_slot object_id
msgget args ns =
    msgget_from ns args.arg1 args.arg2 (find_slot queue_header args.arg1 0 none ns.queues)

unfoldable pub msg_match : ℤ → ℤ → ℕ → Bool
msg_match sender_type receiver_filter receiver_flag =
    let matched =
      eqb_ℤ receiver_filter (pos 0)
      || eqb_ℤ sender_type receiver_filter
      || (elim receiver_filter [ pos n ↦ false | negsuc n ↦ leb_ℤ sender_type (pos (suc n)) ]) in
    if has_flag receiver_flag msg_except then not matched else matched

-- The receiver, the queue's statistics and what is written to the receiver.
pub record Delivery : Type 0 where
  pub status : ℤ
  pub stats : QueueStats
  pub written : List Write

deliver_size : Env → Config → QueueStats → Item → ℕ → Delivery
deliver_size env config stats msg msgsz =
    let status1 = env.write_long config.msgrcv_msgp msg.mtype in
    let text = take msgsz msg.mtext in
    let status2 = env.write_bytes (config.msgrcv_msgp + 8) text in
    if is_negative status1
    then record { status = status1; stats = stats; written = [] }
    else if is_negative status2
    then record { status = status2; stats = stats; written = [] }
    else record {
      status = to_int msgsz;
      stats = record stats { msg_lrpid = config.pid; msg_rtime = env.time };
      written = record { address = config.msgrcv_msgp + 8; bytes = text } ∷ [];
    }

unfoldable pub msg_deliver : Env → Config → QueueStats → Item → Delivery
unfolding deliver_size
msg_deliver env config stats msg =
    if ltb config.msgrcv_msgsz msg.mtext_length
    then if not (has_flag config.msgrcv_msgflg msg_noerror)
      then record { status = minus_e2big; stats = stats; written = [] }
      else deliver_size env config stats msg config.msgrcv_msgsz
    else deliver_size env config stats msg msg.mtext_length

-- SYSVIPC_FOREACH_TRACEE of msgsnd: the first tracee that waits for such a message is woken.
unfoldable pub awaits : ℕ → Item → Config → Bool
awaits queue_index item c =
    (elim c.wait_reason [ wait_queue_recv ↦ true | _ ↦ false ])
    && c.waiting_object_index == queue_index
    && msg_match (to_int item.mtype) c.msgrcv_msgtyp c.msgrcv_msgflg

unfoldable pub wake_receiver : ℕ → Item → List Config → Option (List Config)
unfolding awaits msg_match wake_tracee prepend
wake_receiver queue_index item [] = some []
wake_receiver queue_index item (c ∷ rest) =
    let woken = wake_tracee (record c { chain_state = msgrcv_retry }) minus_eagain in
    if awaits queue_index item c
    then prepend woken (some rest)
    else prepend (some c) (wake_receiver queue_index item rest)

unfoldable pub append_item : MsgQueue → Item → MsgQueue
append_item q item = record q {
  items = q.items ++ item ∷ [];
  stats = record q.stats {
    msg_qnum = (q.stats.msg_qnum + 1) % word;
    msg_cbytes = (q.stats.msg_cbytes + item.mtext_length) % word;
  };
}

unfoldable pub msgsnd_item : Env → ℕ → Namespace → ℕ → MsgQueue → Item → Option Reply
unfolding wake_receiver append_item with_queues
msgsnd_item env self ns index q item =
    let stamped = record q { stats = record q.stats { msg_lspid = self; msg_stime = env.time } } in
    elim (wake_receiver index item ns.tracees) [
      | none ↦ none
      | some tracees ↦ some (
        pos 0,
        record (with_queues ns (set ns.queues index (append_item stamped item))) {
          tracees = tracees;
        },
      )
    ]

unfoldable pub msgsnd_text : Env → ℕ → Namespace → ℕ → MsgQueue → ℕ → ℕ → ℤ × List ℕ → Option Reply
unfolding msgsnd_item
msgsnd_text env self ns index q mtype msgsz (status, text) =
    if is_negative status
    then some (status, ns)
    else msgsnd_item env self ns index q
        (record { mtype = mtype; mtext = text; mtext_length = msgsz })

unfoldable pub msgsnd_type : Env → ℕ → Args → Namespace → ℕ → MsgQueue → ℤ × ℕ → Option Reply
unfolding msgsnd_text
msgsnd_type env self args ns index q (status, mtype) =
    if is_negative status
    then some (status, ns)
    else if mtype == 0 || leb (2 ^ 63) mtype
    then some (minus_einval, ns)
    else msgsnd_text env self ns index q mtype args.arg3 (env.read_bytes (args.arg2 + 8) args.arg3)

unfoldable pub msgsnd_to : Env → ℕ → Args → Namespace → Option (ℕ × MsgQueue) → Option Reply
unfolding msgsnd_type
msgsnd_to env self args ns none = some (minus_einval, ns)
msgsnd_to env self args ns (some (index, q)) =
    if ltb max_msg_size args.arg3
    then some (minus_einval, ns)
    else msgsnd_type env self args ns index q (env.read_long args.arg2)

unfoldable pub msgsnd : Env → ℕ → Args → Namespace → Option Reply
unfolding msgsnd_to lookup_object
msgsnd env self args ns =
    msgsnd_to env self args ns (lookup_object queue_header args.arg1 ns.queues)
