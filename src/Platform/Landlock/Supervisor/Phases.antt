-- ===== src/Platform/Landlock/Supervisor/Phases.antt =====
-- sandbox/platform/landlock_seccomp_linux.go: the supervisor's state and its loop. A step of the loop is
-- an event: what waiting and receiving returned, and what the processes look like then. The cache of
-- opened memories is a list of entries in which no process occurs twice; its lock is held from the
-- first line of each method to its last.
use pmg.Prelude.{
  ℕ, ◌==◌, Bool, true, false, ◌||◌, Option, none, some, Text, codes, List, [], ◌∷◌, ◌++◌,
  if◌then◌else◌,
}
use pmg.Platform.Landlock.{DenyPathEntry}
use pmg.Platform.Landlock.Supervisor.{
  is_path_denied, is_exec_denied, DirFd, at_fdcwd, dirfd_from_args, Syscalls, Proc, Notification,
  read_path_from_mem, resolve_notif_path, classify_open_flags,
}

pub record Phase : Type 0 where
  pub child_pid : ℕ
  pub deny_paths : List DenyPathEntry
  pub deny_exec : List Text
  pub mem_fd_cache : List (ℕ × ℕ)
  pub has_audit_writer : Bool

pub data Reply : Type 0 where
  continue deny : Reply

-- `auditEvent` of the type `seccomp_deny`, without its time.
pub record SeccompDeny : Type 0 where
  pub syscall : ℕ
  pub path : Text
  pub pid : ℕ

pub record Supervisor : Type 0 where
  pub phase : Option Phase
  pub replies : List (ℕ × Reply)
  pub audited : List SeccompDeny
  pub is_running : Bool

-- The name of a system call that is notified; another one is written with its number.
unfoldable pub syscall_name : Syscalls → ℕ → Option Text
syscall_name sys nr =
    if nr == sys.openat
    then some (codes "openat")
    else if nr == sys.openat2
    then some (codes "openat2")
    else if nr == sys.execve
    then some (codes "execve")
    else if nr == sys.execveat
    then some (codes "execveat")
    else none

unfoldable pub cached : ℕ → List (ℕ × ℕ) → Option ℕ
cached pid [] = none
cached pid ((p, fd) ∷ m) = if p == pid then some fd else cached pid m

unfoldable pub drop_cached : ℕ → List (ℕ × ℕ) → List (ℕ × ℕ)
drop_cached pid [] = []
drop_cached pid ((p, fd) ∷ m) =
    let rest = drop_cached pid m in if p == pid then rest else (p, fd) ∷ rest

-- `memFdFor`: from the cache, else opened and kept.
abbrev pub keep_opened : Phase → ℕ → Option ℕ → Option ℕ × Phase
keep_opened ph pid none = (none, ph)
keep_opened ph pid (some fd) = (some fd, record ph { mem_fd_cache = (pid, fd) ∷ ph.mem_fd_cache })

abbrev pub or_opened : Proc → Phase → ℕ → Option ℕ → Option ℕ × Phase
or_opened w ph pid none = keep_opened ph pid (w.open_mem pid)
or_opened w ph pid (some fd) = (some fd, ph)

unfoldable pub mem_fd_for : Proc → ℕ → Phase → Option ℕ × Phase
unfolding cached
mem_fd_for w pid ph = or_opened w ph pid (cached pid ph.mem_fd_cache)

unfoldable pub invalidate_mem_fd : ℕ → Phase → Phase
unfolding drop_cached
invalidate_mem_fd pid ph = record ph { mem_fd_cache = drop_cached pid ph.mem_fd_cache }

-- `closeDescendantMemFds`
unfoldable pub only_child : ℕ → List (ℕ × ℕ) → List (ℕ × ℕ)
only_child child [] = []
only_child child ((p, fd) ∷ m) =
    let rest = only_child child m in if p == child then (p, fd) ∷ rest else rest

unfoldable pub close_descendant_mem_fds : Phase → Phase
unfolding only_child
close_descendant_mem_fds ph = record ph { mem_fd_cache = only_child ph.child_pid ph.mem_fd_cache }

-- The path of a notification: the memory is opened, the path read and resolved.
unfoldable pub notified_path : Proc → ℕ → ℕ → DirFd → ℕ → Option Text
unfolding read_path_from_mem resolve_notif_path
notified_path w fd addr dirfd pid = elim (read_path_from_mem w fd addr) [
  | none ↦ none
  | some raw ↦ resolve_notif_path w pid dirfd raw
]

abbrev pub denial : Notification → Text → SeccompDeny
denial n path = record { syscall = n.nr; path = path; pid = n.pid }

-- What a handler does: the replies that it sends, whatever sending returns, and the events that it
-- writes to the audit log.
abbrev pub Effects : Type 0
Effects = List Reply × List SeccompDeny

abbrev pub respond_continue : Effects
respond_continue = (continue ∷ [], [])

abbrev pub audit_denial : Phase → Notification → Text → List SeccompDeny
audit_denial ph n path = if ph.has_audit_writer then denial n path ∷ [] else []

-- The reply, with the event of a denial where there is a writer for it.
abbrev pub reply_to : Phase → Notification → (Text → Bool) → Option Text → Effects
reply_to ph n test none = respond_continue
reply_to ph n test (some path) =
    if test path then (deny ∷ [], audit_denial ph n path) else respond_continue

abbrev pub exec_address : Syscalls → Notification → ℕ
exec_address sys n = if n.nr == sys.execve then n.arg0 else n.arg1

unfoldable pub exec_dirfd : Syscalls → Notification → DirFd
unfolding dirfd_from_args
exec_dirfd sys n = if n.nr == sys.execve then at_fdcwd else dirfd_from_args n.arg0

abbrev pub judge_exec : Syscalls → Proc → Phase → Notification → Option ℕ → Effects
judge_exec sys w ph n none = respond_continue
judge_exec sys w ph n (some fd) =
    reply_to ph n (λ path. is_exec_denied path ph.deny_exec)
      (notified_path w fd (exec_address sys n) (exec_dirfd sys n) n.pid)

abbrev pub judge_open : Syscalls → Proc → Phase → Notification → Option ℕ → Effects
judge_open sys w ph n none = respond_continue
judge_open sys w ph n (some fd) =
    reply_to ph n (λ path. is_path_denied path (classify_open_flags sys w n fd) ph.deny_paths)
      (notified_path w fd n.arg1 (dirfd_from_args n.arg0) n.pid)

unfoldable pub handle_exec : Syscalls → Proc → Notification → Phase → Effects × Phase
unfolding mem_fd_for notified_path is_exec_denied exec_dirfd
handle_exec sys w n ph = let (fd, ph') = mem_fd_for w n.pid ph in (judge_exec sys w ph n fd, ph')

unfoldable pub handle_open : Syscalls → Proc → Notification → Phase → Effects × Phase
unfolding mem_fd_for notified_path is_path_denied classify_open_flags dirfd_from_args
handle_open sys w n ph = let (fd, ph') = mem_fd_for w n.pid ph in (judge_open sys w ph n fd, ph')

-- The dispatch on the system call; a process that has been replaced loses its opened memory.
unfoldable pub dispatch : Syscalls → Proc → Notification → Phase → Effects × Phase
unfolding handle_exec handle_open invalidate_mem_fd
dispatch sys w n ph =
    if n.nr == sys.execve || n.nr == sys.execveat
    then ((handle_exec sys w n ph).0, invalidate_mem_fd n.pid (handle_exec sys w n ph).1)
    else if n.nr == sys.openat || n.nr == sys.openat2
    then handle_open sys w n ph
    else (respond_continue, ph)

pub data Event : Type 0 where
  enforce : ℕ → ℕ → List DenyPathEntry → List Text → Bool → Event
  notified : Proc → Notification → Event
  expired recv_failed stop_signalled poll_failed : Event

-- The replies to one notification.
abbrev pub replies_to : ℕ → List Reply → List (ℕ × Reply)
replies_to id [] = []
replies_to id (r ∷ rs) = (id, r) ∷ replies_to id rs

abbrev pub book_reply : Supervisor → ℕ → Effects × Phase → Supervisor
book_reply s id ((sent, events), ph) = record s {
  phase = some ph;
  replies = s.replies ++ replies_to id sent;
  audited = s.audited ++ events;
}

abbrev pub on_notification : Syscalls → Proc → Notification → Option Phase → Supervisor → Supervisor
on_notification sys w n none s = record s { replies = s.replies ++ (n.id, continue) ∷ [] }
on_notification sys w n (some ph) s = book_reply s n.id (dispatch sys w n ph)

abbrev pub child_phase : ℕ → ℕ → List DenyPathEntry → List Text → Bool → Phase
child_phase child fd paths execs writer = record {
  child_pid = child;
  deny_paths = paths;
  deny_exec = execs;
  mem_fd_cache = (child, fd) ∷ [];
  has_audit_writer = writer;
}

-- One event while the loop runs, `Enforce` included.
unfoldable pub on_event : Syscalls → Event → Supervisor → Supervisor
unfolding dispatch
on_event sys (enforce child fd paths execs writer) s = record s {
  phase = some (child_phase child fd paths execs writer);
}
on_event sys (notified w n) s = on_notification sys w n s.phase s
on_event sys expired s = s
on_event sys recv_failed s = record s { is_running = false }
on_event sys stop_signalled s = record s { is_running = false }
on_event sys poll_failed s = record s { is_running = false }

-- `loop`
unfoldable pub supervise : Syscalls → List Event → Supervisor → Supervisor
unfolding on_event
supervise sys [] s = s
supervise sys (e ∷ es) s =
    let next = supervise sys es (on_event sys e s) in if s.is_running then next else s

abbrev pub fresh : Supervisor
fresh = record { phase = none; replies = []; audited = []; is_running = true }
