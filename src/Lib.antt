-- ===== src/Lib.antt =====
-- PRoot, as ReTerminal bundles it under core/proot/src/main/cpp: a tracer that shows a guest root
-- file system to its tracees by rewriting their system calls. The library models ten of its parts.
--
-- Path models path/path.c and path/canon.c. A path is the list of its bytes, without the final NUL.
--   Path/Compare: compare_paths2 and compare_paths. Path/Compare/Relation has a relation of two
--   paths byte by byte, and Path/Compare/Order the order of directories that it is.
--   Path/Prefix: substitute_path_prefix, with the path that it leaves and its result; none is
--   -ENAMETOOLONG. Path/Prefix/Rebase says what it does to a directory and what stands behind it.
--   Path/Join: join_paths, chop_finality and pop_component. Path/Component: next_component.
-- Binding models path/binding.c and belongs_to_guestfs of path/path.c. The circular lists of a
-- tracee are lists of bindings, each with its address; a field of a binding that is linked does not
-- change, so a list holds the bindings by value. The empty path stands for the NULL of get_root.
--   Binding/Lookup: get_binding, get_path_binding and substitute_binding.
--   Binding/Insort: insort_binding, insort_binding2, insort_binding3 and the removal.
-- Ipc models extension/sysvipc: the namespace of message queues and semaphore sets, with the
-- configs of its tracees, is passed from step to step.
--   Ipc/Object: LOOKUP_IPC_OBJECT, IPC_OBJECT_ID and the search for a free slot. Ipc/Wake:
--   sysvipc_wake_tracee. Ipc/Msg and Ipc/Receive: sysvipc_msg.c. Ipc/Sem and Ipc/Semctl:
--   sysvipc_sem.c. Ipc/Wait: the dispatch and the events of sysvipc.c.
-- Heap models syscall/heap.c: translate_brk_enter and translate_brk_exit, on 64-bit words, around
-- the answer of the kernel. Heap/Breaks/Backed has the mapping behind the heap.
-- Translate models the translation of paths in path/canon.c, path/path.c and path/proc.c.
--   Translate/Proc: readlink_proc and readlink_proc2. Translate/Detranslate: detranslate_path.
--   Translate/Stat: substitute_binding_stat. Translate/Link and Translate/Canon: canonicalize, with
--   what it does with a link, and with the state of its loop as a Walk. Translate/Whole:
--   translate_path, getcwd2 and readlink_proc_pid_fd.
--   Translate/SafePath says what a path without "." and ".." is.
-- FakeId models the ids of extension/fake_id0/fake_id0.c: the macros SETXID, SETREXID, SETRESXID and
--   SETFSXID as functions of the kind of id, with the privilege that they keep or drop.
-- Execve models execve/shebang.c. Execve/Script: extract_shebang, on the bytes of a file, with
--   BINPRM_BUF_SIZE as `limit`. Execve/Script/Line says what a well formed line is. Execve/Expand:
--   expand_shebang, and translate_and_check_exec of execve/enter.c. Execve/Elf models execve/elf.c:
--   open_elf and iterate_program_headers. Execve/Load: add_mapping, add_interp, extract_load_info and
--   compute_load_addresses of execve/enter.c; Execve/Load/Segment says what a mapping gives for a
--   byte of a segment. Execve/Enter: translate_execve_enter, without QEMU. Execve/Exit:
--   transfer_load_script of execve/exit.c, on a 64-bit AArch64 machine.
-- Chain models syscall/chain.c: the list of chained system calls, and the registers by which they are
--   run.
-- Memory models tracee/mem.c: write_data, writev_data, clear_mem, read_data, read_string, and
--   read_path of tracee/mem.h, over a Kernel, whose laws are IsKernel of Memory/Layout. A word is its
--   eight bytes. Memory/Words: peek_word, poke_word and alloc_mem. The loop of read_string over
--   chunks has a round for each byte of the buffer and one more, which is enough, since each round
--   but the last reads a byte.
-- Loader models loader/loader.c, which runs in the process of a tracee: the interpretation of a load
--   script, with a round for each word, which is enough, since each statement takes a word at least.
--   Loader/Clear: clear. Loader/Plan says what the loader is to do.
-- Prelude has what they share, and Examples has the theorems at concrete inputs.
--
-- Bindings use the comparison and the substitution of Path; the handlers of Ipc use the lookup of
-- objects, and wake tracees whose events Ipc/Wait handles; canonicalize joins paths and substitutes
-- bindings. translate_execve_enter loads the program to which expand_shebang leads,
-- transfer_load_script writes its script with write_data, and the loader interprets it.
--
-- The clock and the kernel are not in these files: a handler takes what it reads as an Env,
-- translate_brk_exit takes the result of the system call as an argument, Translate takes lstat,
-- readlink, get_tracee and the extensions as the functions of a Surroundings, with MAXSYMLINKS of the
-- C library, which differs between libraries, as its max_symlinks, Execve takes open,
-- read, access and the argv[] of the tracee as those of a Host, an ElfFile and a World, Memory takes
-- ptrace, process_vm_readv and process_vm_writev as those of a Kernel, and Loader takes what the
-- kernel answers as a function of what was done before.
-- An assertion that fails is none, or asserts in Translate. Three parts are modelled as they are
-- built without assertions: compare_paths2, where a length 0 gives PATHS_ARE_NOT_COMPARABLE, as its
-- code behind the assertion does; get_binding, which is not tested for a path that starts with a
-- separator; and the two on lengths in substitute_path_prefix. Integers are natural numbers, with the
-- wrap-around of a machine word written out where a value is stored; where the new prefix of
-- substitute_path_prefix is the root and the path is shorter than the old prefix, the length is 0
-- instead of one that wraps around; the theorems on it are about prefixes of the path.
--
-- Loops are structural, but for those of Memory and Loader above, and canonicalize. It takes fuel for
-- its recursion, where MAXSYMLINKS + 2 is enough, since the level of recursion rises with each link,
-- and its loop has a round for each byte of the path and one more, which is enough, since each
-- component takes a byte.
--
-- Not modelled: the initialization of bindings from the command line, and the glue that it builds
-- (glue_type is 0); which, realpath2 and the list of open descriptors; shared memory, and the
-- handling of namespaces in sysvipc.c; the registers of a tracee and the waits on it;
-- translate_execve_exit, QEMU, the load script of programs of 32 bits, the walk of the loader to the
-- auxiliary vectors, and what a call of execve that fails leaves in a tracee; alloc_mem of a negative
-- size; the other extensions; talloc, which is a library.
pub mod Prelude
pub mod Path
pub mod Binding
pub mod Ipc
pub mod Heap
pub mod Translate
pub mod FakeId
pub mod Execve
pub mod Chain
pub mod Memory
pub mod Loader
pub mod Examples
