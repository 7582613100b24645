-- ===== src/Ipc.antt =====
-- core/proot/src/main/cpp/extension/sysvipc: System V message queues and semaphores, emulated for
-- the tracees of one IPC namespace, and the mechanism by which a tracee waits.
-- This file has the state: sysvipc_internal.h. A word is a number; an int is kept as the integer
-- that it is. `semop_sops` is empty where the code has NULL.
pub mod Object
pub mod Wake
pub mod Msg
pub mod Receive
pub mod Sem
pub mod Semctl
pub mod Wait
pub mod Returns
pub mod Removal
use re_terminal.Prelude.{ℕ, Bool, List}
use re_terminal.Prelude.Int.{ℤ}

-- struct SysVIpcMsgQueueItem; `mtype` is the bit pattern of a long.
pub record Item : Type 0 where
  pub mtype : ℕ
  pub mtext : List ℕ
  pub mtext_length : ℕ

-- The fields of struct msqid_ds that the code sets.
pub record QueueStats : Type 0 where
  pub msg_lspid : ℕ
  pub msg_lrpid : ℕ
  pub msg_stime : ℕ
  pub msg_rtime : ℕ
  pub msg_qnum : ℕ
  pub msg_cbytes : ℕ
  pub msg_qbytes : ℕ

-- `key` is the bit pattern of an int32_t and `generation` that of an int16_t, here and below.
pub record MsgQueue : Type 0 where
  pub key : ℕ
  pub generation : ℕ
  pub valid : Bool
  pub items : List Item
  pub stats : QueueStats

pub record Semaphore : Type 0 where
  pub key : ℕ
  pub generation : ℕ
  pub valid : Bool
  pub sems : List ℕ
  pub nsems : ℕ

-- struct SysVIpcSembuf, with the values of its int16_t fields.
pub record Sembuf : Type 0 where
  pub sem_num : ℕ
  pub sem_op : ℤ
  pub sem_flg : ℕ

pub data WaitReason : Type 0 where
  not_waiting wait_queue_recv wait_semop wait_shmat_helper_busy : WaitReason

pub data WaitState : Type 0 where
  idle restarted_into_ppoll_canceled restarted_into_ppoll : WaitState
  entered_ppoll signaled_ppoll entered_getpid : WaitState

pub data ChainState : Type 0 where
  not_chained single shmat_socket shmat_connect shmat_recvmsg shmat_mmap msgrcv_retry : ChainState

-- struct SysVIpcConfig of a tracee, which its pid stands for.
pub record Config : Type 0 where
  pub pid : ℕ
  pub wait_reason : WaitReason
  pub wait_state : WaitState
  pub chain_state : ChainState
  pub status_after_wait : ℤ
  pub waiting_object_index : ℕ
  pub msgrcv_msgp : ℕ
  pub msgrcv_msgsz : ℕ
  pub msgrcv_msgtyp : ℤ
  pub msgrcv_msgflg : ℕ
  pub semop_sops : List Sembuf

-- struct SysVIpcNamespace without shared memory, and the configs of its tracees in the order of
-- the list of tracees.
pub record Namespace : Type 0 where
  pub queues : List MsgQueue
  pub semaphores : List Semaphore
  pub tracees : List Config

-- SYSARG_1 to SYSARG_5 of the system call.
pub record Args : Type 0 where
  pub arg1 : ℕ
  pub arg2 : ℕ
  pub arg3 : ℕ
  pub arg4 : ℕ
  pub arg5 : ℕ

-- What a handler learns of the memory of the calling tracee, read_data and write_data of
-- tracee/mem.c with their status, and of the clock.
pub record Env : Type 0 where
  pub read_long : ℕ → ℤ × ℕ
  pub read_bytes : ℕ → ℕ → ℤ × List ℕ
  pub read_sembufs : ℕ → ℕ → ℤ × List Sembuf
  pub write_long : ℕ → ℕ → ℤ
  pub write_bytes : ℕ → List ℕ → ℤ
  pub write_stats : ℕ → QueueStats → ℤ
  pub write_shorts : ℕ → List ℕ → ℤ
  pub write_ints : ℕ → List ℕ → ℤ
  pub time : ℕ

pub record Write : Type 0 where
  pub address : ℕ
  pub bytes : List ℕ
