-- ===== src/Ipc/Returns.antt =====
-- The assertions of the handlers of extension/sysvipc/sysvipc_msg.c that wake tracees.
use re_terminal.Prelude.{
  ℕ, ◌≡◌, refl, arith, ◌⊎◌, inl, inr, Bool, true, false, Option, none, some, List, [], ◌∷◌, All,
  if◌then◌else◌,
}
use re_terminal.Prelude.Int.{ℤ, minus_eagain, minus_eidrm}
use re_terminal.Ipc.{
  Config, not_waiting, msgrcv_retry, restarted_into_ppoll, entered_ppoll, Namespace, Args, Env,
  MsgQueue, Item,
}
use re_terminal.Ipc.Object.{lookup_object}
use re_terminal.Ipc.Wake.{is_waiting, wake_tracee, woken, woken_state, prepend}
use re_terminal.Ipc.Msg.{
  Reply, queue_header, awaits, wake_receiver, msgsnd, msgsnd_item, msgsnd_text, msgsnd_type,
  msgsnd_to,
}
use re_terminal.Ipc.Msg.Counts.{AllCounts, msgsnd-AllCounts}
use re_terminal.Ipc.Receive.{waits_on, wake_all, rmid, msgctl, msgctl_on}
use re_terminal.Ipc.Receive.Counts.{msgctl-AllCounts}

-- A tracee does not wait, or it is in its ppoll or about to enter it.
abbrev pub CanWake : Config → Type 0
CanWake c =
    (c.wait_reason ≡ not_waiting)
    ⊎ (c.wait_state ≡ entered_ppoll)
    ⊎ (c.wait_state ≡ restarted_into_ppoll)

-- A partial computation gives a value.
abbrev Returns {ℓ} : {A : Type ℓ} → Option A → Type ℓ
Returns {A} o = (a : A) × (o ≡ some a)

Returns-some {ℓ} : {A : Type ℓ} (a : A) → Returns (some a)
Returns-some a = (a, refl)

Returns-prepend :
    (c : Option Config) (rest : Option (List Config))
    → Returns c
    → Returns rest
    → Returns (prepend c rest)
unfolding prepend
Returns-prepend none rest (a, e) r = cc
Returns-prepend (some c) none p (a, e) = cc
Returns-prepend (some c) (some rest) p r = Returns-some (c ∷ rest)

wake-Returns :
    (c : Config) (status : ℤ)
    → is_waiting c.wait_reason ≡ true
    → CanWake c
    → Returns (wake_tracee c status)
unfolding wake_tracee woken woken_state is_waiting
wake-Returns c status w (inl e) = absurd_wait (rw e at w)
  where
    absurd_wait : false ≡ true → Returns (wake_tracee c status)
    absurd_wait p = cc
wake-Returns c status w (inr (inl e)) = rw (w, e) (Returns-some _)
wake-Returns c status w (inr (inr e)) = rw (w, e) (Returns-some _)

Returns-if {ℓ} :
    {A : Type ℓ} (b : Bool) (m n : Option A)
    → (b ≡ true → Returns m)
    → (b ≡ false → Returns n)
    → Returns (if b then m else n)
Returns-if true m n p q = p refl
Returns-if false m n p q = q refl

awaits-is_waiting :
    (index : ℕ) (item : Item) (c : Config)
    → awaits index item c ≡ true
    → is_waiting c.wait_reason ≡ true
unfolding awaits is_waiting
awaits-is_waiting index item c e = ground (arith, e)

wake_receiver-Returns :
    (index : ℕ) (item : Item) (tracees : List Config)
    → All CanWake tracees
    → Returns (wake_receiver index item tracees)
unfolding wake_receiver
wake_receiver-Returns index item [] h = Returns-some []
wake_receiver-Returns index item (c ∷ rest) h =
    Returns-if (awaits index item c) _ _
      (λ e.
        Returns-prepend (wake_tracee (record c { chain_state = msgrcv_retry }) minus_eagain)
          (some rest)
          (wake-Returns (record c { chain_state = msgrcv_retry }) minus_eagain
            (awaits-is_waiting index item c e) h.0)
          (Returns-some rest))
      (λ e.
        Returns-prepend (some c) (wake_receiver index item rest) (Returns-some c)
          (wake_receiver-Returns index item rest h.1))

waits_on-is_waiting :
    (index : ℕ) (c : Config) → waits_on index c ≡ true → is_waiting c.wait_reason ≡ true
unfolding waits_on is_waiting
waits_on-is_waiting index c e = ground (arith, e)

wake_all-Returns :
    (index : ℕ) (tracees : List Config) → All CanWake tracees → Returns (wake_all index tracees)
unfolding wake_all
wake_all-Returns index [] h = Returns-some []
wake_all-Returns index (c ∷ rest) h =
    Returns-prepend (if waits_on index c then wake_tracee c minus_eidrm else some c)
      (wake_all index rest)
      (Returns-if (waits_on index c) _ _
        (λ e. wake-Returns c minus_eidrm (waits_on-is_waiting index c e) h.0) (λ e. Returns-some c))
      (wake_all-Returns index rest h.1)

msgsnd_item-Returns :
    (env : Env) (self : ℕ) (ns : Namespace) (index : ℕ) (q : MsgQueue) (item : Item)
    → All CanWake ns.tracees
    → Returns (msgsnd_item env self ns index q item)
unfolding msgsnd_item
msgsnd_item-Returns env self ns index q item h =
    let (tracees, e) = wake_receiver-Returns index item ns.tracees h in
    rw (e, msgsnd_item) (Returns-some _)

rmid-Returns :
    (ns : Namespace) (index : ℕ) (q : MsgQueue) → All CanWake ns.tracees → Returns (rmid ns index q)
unfolding rmid
rmid-Returns ns index q h =
    let (tracees, e) = wake_all-Returns index ns.tracees h in rw (e, rmid) (Returns-some _)

msgsnd_to-Returns :
    (env : Env) (self : ℕ) (args : Args) (ns : Namespace) (o : Option (ℕ × MsgQueue))
    → All CanWake ns.tracees
    → Returns (msgsnd_to env self args ns o)
unfolding msgsnd_to msgsnd_type msgsnd_text
msgsnd_to-Returns env self args ns none h = Returns-some _
msgsnd_to-Returns env self args ns (some (index, q)) h =
    search (Returns-if, Returns-some, msgsnd_item-Returns) depth 7

msgctl_on-Returns :
    (env : Env) (args : Args) (ns : Namespace) (o : Option (ℕ × MsgQueue))
    → All CanWake ns.tracees
    → Returns (msgctl_on env args ns o)
unfolding msgctl_on
msgctl_on-Returns env args ns none h = Returns-some _
msgctl_on-Returns env args ns (some (index, q)) h =
    search (Returns-if, Returns-some, rmid-Returns) depth 7

-- Where every counter is right and every tracee that waits can be woken, msgsnd fails no
-- assertion, and whether it accepts or refuses the message, every counter of a valid queue stays
-- right.
pub msgsnd-returns :
    (env : Env) (self : ℕ) (args : Args) (ns : Namespace)
    → AllCounts ns
    → All CanWake ns.tracees
    → (reply : Reply) × (msgsnd env self args ns ≡ some reply) × AllCounts reply.1
unfolding msgsnd
msgsnd-returns env self args ns c h =
    let (reply, e) =
      msgsnd_to-Returns env self args ns (lookup_object queue_header args.arg1 ns.queues) h in
    (reply, e, msgsnd-AllCounts env self args ns reply c e)

-- Where every counter is right and every tracee that waits can be woken, msgctl fails no
-- assertion, and every counter of a valid queue stays right, when a queue is removed as well.
pub msgctl-returns :
    (env : Env) (args : Args) (ns : Namespace)
    → AllCounts ns
    → All CanWake ns.tracees
    → (reply : Reply) × (msgctl env args ns ≡ some reply) × AllCounts reply.1
unfolding msgctl
msgctl-returns env args ns c h =
    let (reply, e) =
      msgctl_on-Returns env args ns (lookup_object queue_header args.arg1 ns.queues) h in
    (reply, e, msgctl-AllCounts env args ns reply c e)
