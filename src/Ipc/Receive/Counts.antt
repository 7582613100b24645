-- ===== src/Ipc/Receive/Counts.antt =====
-- The counters of a queue through msgrcv and msgctl of extension/sysvipc/sysvipc_msg.c.
use re_terminal.Prelude.{
  ◌%◌, ◌^◌, ◌<◌, ◌≤◌, if◌then◌else◌, ℕ, zero, suc, ◌+◌, ◌≡◌, refl, ◌∙◌, Bool, true, false, Option,
  none, some, List, [], ◌∷◌, arith, length, get_elem?, All, All-get_elem?, if_both, Bool-cases,
  take, inl, inr, not, ◌&&◌, Gives, Gives-if, Gives-some, Gives-none, All-set,
}
use re_terminal.Prelude.Int.{minus_einval, ℤ, pos, is_negative, eqb_ℤ, to_int, has_flag}
use re_terminal.Ipc.{Item, MsgQueue, Config, Env, QueueStats, Namespace, Args}
use re_terminal.Ipc.Object.{lookup_object}
use re_terminal.Ipc.Object.Ids.{lookup_object_sound}
use re_terminal.Ipc.Msg.{
  max_msg_size, msg_copy, word, Delivery, msg_deliver, msg_match, Reply, queue_header,
}
use re_terminal.Ipc.Msg.Counts.{total_length, Counts, AllCounts, CountsIn, CountsIfValid}
use re_terminal.Ipc.Receive.{
  wake_all, removed, rmid, stat, msgctl_on, msgctl, msgrcv_from, msgrcv, put_received, find_item,
  find_copy, remove_at, take_item, receive_item, receive_found, do_msgrcv, Received, refused,
  lookup_object, set,
}

-- What the search has found: the first item that matches, at its position.
pub record IsFirst (config : Config) (items : List Item) (j : ℕ) (item : Item) : Type 0 where
  pub at_position : get_elem? items j ≡ some item
  pub matching : msg_match (to_int item.mtype) config.msgrcv_msgtyp config.msgrcv_msgflg ≡ true
  pub none_before :
      All
        (λ x. msg_match (to_int x.mtype) config.msgrcv_msgtyp config.msgrcv_msgflg ≡ false)
        (take j items)

-- An item that find_item gives, counting from k, is the first of the list that matches the
-- receiver, at its position.
pub find_item-IsFirst :
    (config : Config) (k : ℕ) (items : List Item) (i : ℕ) (item : Item)
    → find_item config k items ≡ some (i, item)
    → (j : ℕ) × (i ≡ k + j) × IsFirst config items j item
unfolding find_item
find_item-IsFirst config k [] i item h = cc
find_item-IsFirst config k (x ∷ xs) i item h =
    elim (Bool-cases (msg_match (to_int x.mtype) config.msgrcv_msgtyp config.msgrcv_msgflg)) [
      | inl e ↦ (
        0,
        ground arith,
        record { at_position = ground arith; matching = ground arith; none_before = tt },
      )
      | inr e ↦
          let (j, p, f) = find_item-IsFirst config (k + 1) xs i item (ground arith) in
          (
            suc j,
            omega arith,
            record {
              at_position = f.at_position;
              matching = f.matching;
              none_before = (e, f.none_before);
            },
          )
    ]

module _ where
  length-remove_at :
      (items : List Item) (i : ℕ) (item : Item)
      → get_elem? items i ≡ some item
      → length items ≡ suc (length (remove_at i items))
  unfolding remove_at
  length-remove_at [] i item h = cc
  length-remove_at (x ∷ xs) zero item h = refl
  length-remove_at (x ∷ xs) (suc i) item h = omega (arith, length-remove_at xs i item h)

  total_length-remove_at :
      (items : List Item) (i : ℕ) (item : Item)
      → get_elem? items i ≡ some item
      → total_length items ≡ item.mtext_length + total_length (remove_at i items)
  unfolding remove_at total_length
  total_length-remove_at [] i item h = cc
  total_length-remove_at (x ∷ xs) zero item h = ground arith
  total_length-remove_at (x ∷ xs) (suc i) item h = omega (arith, total_length-remove_at xs i item h)

All-remove_at :
    (P : Item → Type 0) (items : List Item) (i : ℕ) → All P items → All P (remove_at i items)
unfolding remove_at
All-remove_at P [] i h = tt
All-remove_at P (x ∷ xs) zero h = h.1
All-remove_at P (x ∷ xs) (suc i) h = (h.0, All-remove_at P xs i h.1)

take_item-Counts :
    (q : MsgQueue) (i : ℕ) (item : Item)
    → get_elem? q.items i ≡ some item
    → item.mtext_length < word
    → Counts q
    → Counts (take_item q i item)
unfolding take_item
take_item-Counts q i item e fits c = record {
  sized = All-remove_at (λ x. x.mtext_length ≤ max_msg_size) q.items i c.sized;
  number = omega (arith, length-remove_at q.items i item e, c.number);
  bytes = omega (arith, total_length-remove_at q.items i item e, c.bytes);
}

-- A delivery leaves the counters.
abbrev SameCounters : QueueStats → Delivery → Type 0
SameCounters stats d = (d.stats.msg_qnum ≡ stats.msg_qnum) × (d.stats.msg_cbytes ≡ stats.msg_cbytes)

msg_deliver-counters :
    (env : Env) (config : Config) (stats : QueueStats) (item : Item)
    → SameCounters stats (msg_deliver env config stats item)
unfolding msg_deliver
msg_deliver-counters env config stats item = ground arith

receive_item-Counts :
    (env : Env) (config : Config) (q : MsgQueue) (copy : Bool) (i : ℕ) (item : Item)
    → get_elem? q.items i ≡ some item
    → Counts q
    → Counts (receive_item env config q copy (i, item)).queue
unfolding receive_item
receive_item-Counts env config q copy i item e c =
    let d = msg_deliver env config q.stats item in
    let (n, b) = msg_deliver-counters env config q.stats item in
    let delivered = record q { stats = d.stats } in
    let counts : Counts delivered = record {
      number = n ∙ c.number;
      bytes = b ∙ c.bytes;
      sized = c.sized;
    } in
    let fits = All-get_elem? (λ x. x.mtext_length ≤ max_msg_size) q.items i item e c.sized in
    if_both Counts (not (is_negative d.status) && not copy) (take_item delivered i item) delivered
      (take_item-Counts delivered i item e (omega arith) counts) counts

-- The copy found stands at its position.
find_copy-at :
    (wanted : ℤ) (k : ℕ) (items : List Item) (i : ℕ) (item : Item)
    → find_copy wanted k items ≡ some (i, item)
    → (j : ℕ) × (i ≡ k + j) × (get_elem? items j ≡ some item)
unfolding find_copy
find_copy-at wanted k [] i item h = cc
find_copy-at wanted k (x ∷ xs) i item h = elim (Bool-cases (eqb_ℤ (pos k) wanted)) [
  | inl e ↦ (0, ground arith, ground arith)
  | inr e ↦
      let (j, p, f) = find_copy-at wanted (k + 1) xs i item (ground arith) in
      (suc j, omega arith, f)
]

receive_found-Counts :
    (env : Env) (config : Config) (index : ℕ) (q : MsgQueue) (copy : Bool) (hit : Option (ℕ × Item))
    → ((i : ℕ) (item : Item) → hit ≡ some (i, item) → get_elem? q.items i ≡ some item)
    → Counts q
    → Counts (receive_found env config index q copy hit).queue
unfolding receive_found
receive_found-Counts env config index q copy (some (i, item)) f c =
    receive_item-Counts env config q copy i item (f i item refl) c
receive_found-Counts env config index q copy none f c =
    if_both (λ (r : Received). Counts r.queue) _ _ _ c c

found_at :
    (config : Config) (items : List Item) (copy : Bool) (i : ℕ) (item : Item)
    → (if copy then find_copy config.msgrcv_msgtyp 0 items else find_item config 0 items)
      ≡ some (i, item)
    → get_elem? items i ≡ some item
found_at config items true i item e =
    let (j, p, f) = find_copy-at config.msgrcv_msgtyp 0 items i item e in
    let q : i ≡ j = omega arith in rw q f
found_at config items false i item e =
    let (j, p, f) = find_item-IsFirst config 0 items i item e in
    let q : i ≡ j = omega arith in rw q f.at_position

pub do_msgrcv-Counts :
    (env : Env) (config : Config) (index : ℕ) (q : MsgQueue)
    → Counts q
    → Counts (do_msgrcv env config index q).queue
unfolding do_msgrcv
do_msgrcv-Counts env config index q c =
    let copy = has_flag config.msgrcv_msgflg msg_copy in
    if_both (λ (r : Received). Counts r.queue) (refused config) _ _ c
      (receive_found-Counts env config index q copy
        (if copy then find_copy config.msgrcv_msgtyp 0 q.items else find_item config 0 q.items)
        (found_at config q.items copy) c)

-- Where every counter is right, msgrcv leaves every counter of a valid queue right, whatever it
-- returns.
pub msgrcv-AllCounts :
    (env : Env) (config : Config) (args : Args) (ns : Namespace)
    → AllCounts ns
    → AllCounts (msgrcv env config args ns).1
unfolding msgrcv
msgrcv-AllCounts env config args ns h = from (lookup_object queue_header args.arg1 ns.queues) refl
  where
    from :
        (o : Option (ℕ × MsgQueue))
        → lookup_object queue_header args.arg1 ns.queues ≡ o
        → AllCounts (msgrcv_from env config args ns o).1
    from none e = unfold msgrcv_from in h
    from (some (i, q)) e =
        let slot = lookup_object_sound queue_header args.arg1 ns.queues i q e in
        let c = All-get_elem? CountsIfValid ns.queues i q slot.0 h slot.1 in
        let called = record config {
          msgrcv_msgp = args.arg2;
          msgrcv_msgsz = args.arg3;
          msgrcv_msgtyp = to_int args.arg4;
          msgrcv_msgflg = args.arg5 % 2 ^ 32;
        } in
        unfold msgrcv_from put_received in
        All-set CountsIfValid ns.queues i (do_msgrcv env called i q).queue
          (λ _. do_msgrcv-Counts env called i q c) h

rmid-Gives : (ns : Namespace) (i : ℕ) (q : MsgQueue) → AllCounts ns → Gives CountsIn (rmid ns i q)
unfolding rmid
rmid-Gives ns i q h = by_wake (wake_all i ns.tracees)
  where
    by_wake :
        (w : Option (List Config))
        → Gives CountsIn (elim w [
          | none ↦ none
          | some tracees ↦
              some (pos 0, record ns { queues = set ns.queues i (removed q); tracees = tracees })
        ])
    by_wake none = Gives-none CountsIn
    by_wake (some tracees) =
        Gives-some CountsIn
          (pos 0, record ns { queues = set ns.queues i (removed q); tracees = tracees })
          (All-set CountsIfValid ns.queues i (removed q) (unfold removed in λ e. cc) h)

stat-AllCounts :
    (env : Env) (args : Args) (ns : Namespace) (q : MsgQueue)
    → AllCounts ns
    → CountsIn (stat env args ns q)
unfolding stat
stat-AllCounts env args ns q h = h

msgctl_on-Gives :
    (env : Env) (args : Args) (ns : Namespace) (i : ℕ) (q : MsgQueue)
    → AllCounts ns
    → Gives CountsIn (msgctl_on env args ns (some (i, q)))
unfolding msgctl_on
msgctl_on-Gives env args ns i q h =
    search (Gives-if CountsIn, Gives-some CountsIn, rmid-Gives) depth 7

-- msgctl, a removal included, leaves every counter of a valid queue right.
pub msgctl-AllCounts :
    (env : Env) (args : Args) (ns : Namespace) (reply : Reply)
    → AllCounts ns
    → msgctl env args ns ≡ some reply
    → AllCounts reply.1
unfolding msgctl
msgctl-AllCounts env args ns reply h =
    (from (lookup_object queue_header args.arg1 ns.queues)).holds reply
  where
    from : (o : Option (ℕ × MsgQueue)) → Gives CountsIn (msgctl_on env args ns o)
    from none = unfold msgctl_on in Gives-some CountsIn (minus_einval, ns) h
    from (some (i, q)) = msgctl_on-Gives env args ns i q h
