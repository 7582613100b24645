-- ===== src/Ipc/Msg/Counts.antt =====
-- The counters of a queue, msg_qnum and msg_cbytes, through msgget and msgsnd of
-- extension/sysvipc/sysvipc_msg.c.
use re_terminal.Prelude.{
  ltb, false, true, ◌≤◌, ℕ, ◌+◌, ◌%◌, ◌≡◌, refl, Option, none, some, List, [], ◌∷◌, ◌++◌, arith,
  length, length-append, set, All, All-set, All-append, All-get_elem?, if_both, Gives, Gives-none,
  Gives-if, Gives-some,
}
use re_terminal.Ipc.{Item, MsgQueue, Config, Namespace, Args, Env}
use re_terminal.Ipc.Object.{Search, found, missing, find_slot, lookup_object}
use re_terminal.Ipc.Object.Ids.{lookup_object_sound}
use re_terminal.Ipc.Msg.{
  max_msg_size, word, queue_header, queue_at, zero_queue, create_queue, with_queues, msgget_new,
  msgget_from, msgget, append_item, wake_receiver, msgsnd_item, msgsnd_text, msgsnd_type, msgsnd_to,
  msgsnd, Reply, pos, minus_einval,
}

unfoldable pub total_length : List Item → ℕ
total_length [] = 0
total_length (item ∷ rest) = item.mtext_length + total_length rest

-- The counters are the number and the bytes of the items, as unsigned longs.
pub record Counts (q : MsgQueue) : Type 0 where
  pub number : q.stats.msg_qnum ≡ length q.items % word
  pub bytes : q.stats.msg_cbytes ≡ total_length q.items % word
  pub sized : All (λ item. item.mtext_length ≤ max_msg_size) q.items

-- A removed queue keeps its counters, and they say nothing.
abbrev pub CountsIfValid : MsgQueue → Type 0
CountsIfValid q = q.valid ≡ true → Counts q

abbrev pub AllCounts : Namespace → Type 0
AllCounts ns = All CountsIfValid ns.queues

total_length-append :
    (xs ys : List Item) → total_length (xs ++ ys) ≡ total_length xs + total_length ys
unfolding total_length
total_length-append [] ys = omega arith
total_length-append (x ∷ xs) ys = omega (arith, total_length-append xs ys)

append_item-Counts :
    (q : MsgQueue) (item : Item)
    → item.mtext_length ≤ max_msg_size
    → Counts q
    → Counts (append_item q item)
unfolding append_item total_length
append_item-Counts q item fits c = record {
  sized = All-append (λ x. x.mtext_length ≤ max_msg_size) q.items (item ∷ []) c.sized (fits, tt);
  number = omega (arith, length-append q.items (item ∷ []), c.number);
  bytes = omega (arith, total_length-append q.items (item ∷ []), c.bytes);
}

create_queue-Counts : (q : MsgQueue) (id : ℕ) → Counts (create_queue q id)
unfolding create_queue total_length
create_queue-Counts q id = record { sized = tt; number = refl; bytes = refl }

-- A namespace with one more or another queue.
with_queues-AllCounts :
    (ns : Namespace) (queues : List MsgQueue)
    → All CountsIfValid queues
    → AllCounts (with_queues ns queues)
unfolding with_queues
with_queues-AllCounts ns queues h = h

abbrev pub CountsIn : Reply → Type 0
CountsIn r = AllCounts r.1

msgget_new-AllCounts :
    (ns : Namespace) (id : ℕ) (unused : Option ℕ)
    → AllCounts ns
    → CountsIn (msgget_new ns id unused)
unfolding msgget_new
msgget_new-AllCounts ns id none h =
    All-append CountsIfValid ns.queues (create_queue zero_queue id ∷ []) h
      ((λ _. create_queue-Counts zero_queue id), tt)
msgget_new-AllCounts ns id (some slot) h =
    All-set CountsIfValid ns.queues slot (create_queue (queue_at ns.queues slot) id)
      (λ _. create_queue-Counts (queue_at ns.queues slot) id) h

-- Where every counter is right, msgget leaves every counter of a valid queue right, whether it
-- creates a queue, finds one or refuses.
pub msgget-AllCounts : (args : Args) (ns : Namespace) → AllCounts ns → AllCounts (msgget args ns).1
unfolding msgget
msgget-AllCounts args ns h = from (find_slot queue_header args.arg1 0 none ns.queues)
  where
    from : (s : Search MsgQueue) → AllCounts (msgget_from ns args.arg1 args.arg2 s).1
    from (found i q) = if_both CountsIn _ _ _ h h
    from (missing unused) = if_both CountsIn _ _ _ h (msgget_new-AllCounts ns args.arg1 unused h)

msgsnd_item-Gives :
    (env : Env) (self : ℕ) (ns : Namespace) (index : ℕ) (q : MsgQueue) (item : Item)
    → ltb max_msg_size item.mtext_length ≡ false
    → Counts q
    → AllCounts ns
    → Gives CountsIn (msgsnd_item env self ns index q item)
unfolding msgsnd_item with_queues
msgsnd_item-Gives env self ns index q item fits c h = by_wake (wake_receiver index item ns.tracees)
  where
    stamped : MsgQueue
    stamped = record q { stats = record q.stats { msg_lspid = self; msg_stime = env.time } }

    queues : List MsgQueue
    queues = set ns.queues index (append_item stamped item)

    by_wake :
        (w : Option (List Config))
        → Gives CountsIn (elim w [
          | none ↦ none
          | some tracees ↦ some (pos 0, record ns { queues = queues; tracees = tracees })
        ])
    by_wake none = Gives-none CountsIn
    by_wake (some tracees) =
        Gives-some CountsIn (pos 0, record ns { queues = queues; tracees = tracees })
          (All-set CountsIfValid ns.queues index (append_item stamped item)
            (λ _.
              append_item-Counts stamped item (ground arith)
                (record { sized = c.sized; number = c.number; bytes = c.bytes }))
            h)

msgsnd_to-Gives :
    (env : Env) (self : ℕ) (args : Args) (ns : Namespace) (index : ℕ) (q : MsgQueue)
    → Counts q
    → AllCounts ns
    → Gives CountsIn (msgsnd_to env self args ns (some (index, q)))
unfolding msgsnd_to msgsnd_type msgsnd_text
msgsnd_to-Gives env self args ns index q c h =
    search (Gives-if CountsIn, Gives-some CountsIn, msgsnd_item-Gives) depth 7

-- msgsnd, accepted or refused, leaves every counter right.
pub msgsnd-AllCounts :
    (env : Env) (self : ℕ) (args : Args) (ns : Namespace) (reply : Reply)
    → AllCounts ns
    → msgsnd env self args ns ≡ some reply
    → AllCounts reply.1
unfolding msgsnd
msgsnd-AllCounts env self args ns reply h =
    (to_queue (lookup_object queue_header args.arg1 ns.queues) refl).holds reply
  where
    to_queue :
        (o : Option (ℕ × MsgQueue))
        → lookup_object queue_header args.arg1 ns.queues ≡ o
        → Gives CountsIn (msgsnd_to env self args ns o)
    to_queue none k = unfold msgsnd_to in Gives-some CountsIn (minus_einval, ns) h
    to_queue (some (index, q)) k =
        let slot = lookup_object_sound queue_header args.arg1 ns.queues index q k in
        msgsnd_to-Gives env self args ns index q
          (All-get_elem? CountsIfValid ns.queues index q slot.0 h slot.1) h
