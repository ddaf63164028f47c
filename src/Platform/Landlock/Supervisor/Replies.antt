-- ===== src/Platform/Landlock/Supervisor/Replies.antt =====
-- sandbox/platform/landlock_seccomp_linux.go: every notification gets one reply, and every denial is
-- written to the audit log.
use pmg.Prelude.{
  ℕ, suc, ◌+◌, ◌==◌, ◌≡◌, refl, sym, ap, ap₂, ◌∙◌, subst, Bool, true, false, ◌||◌, Option, none,
  some, Text, List, [], ◌∷◌, ◌++◌, length, length-append, all, append-nil, append_assoc, arith,
  Bool-cases, Option-cases, inl, inr,
}
use pmg.Platform.Landlock.Supervisor.{
  is_path_denied, is_exec_denied, dirfd_from_args, Syscalls, Proc, Notification,
  classify_open_flags,
}
use pmg.Platform.Landlock.Supervisor.Phases.{
  Phase, Reply, continue, deny, Effects, replies_to, Supervisor, on_notification, notified_path,
  exec_address, exec_dirfd, reply_to, judge_exec, judge_open, mem_fd_for, handle_exec, handle_open,
  cached, invalidate_mem_fd, dispatch, Event, enforce, notified, expired, recv_failed,
  stop_signalled, poll_failed, on_event, supervise,
}

-- The notifications that are received before the loop ends.
abbrev pub received : List Event → List ℕ
received [] = []
received (notified w n ∷ es) = n.id ∷ received es
received (enforce c fd ps xs b ∷ es) = received es
received (expired ∷ es) = received es
received (recv_failed ∷ es) = []
received (stop_signalled ∷ es) = []
received (poll_failed ∷ es) = []

abbrev pub answered : List (ℕ × Reply) → List ℕ
answered [] = []
answered ((id, r) ∷ rs) = id ∷ answered rs

abbrev pub denials : List (ℕ × Reply) → ℕ
denials [] = 0
denials ((id, continue) ∷ rs) = denials rs
denials ((id, deny) ∷ rs) = suc (denials rs)

answered-append : (rs qs : List (ℕ × Reply)) → answered (rs ++ qs) ≡ answered rs ++ answered qs
answered-append [] qs = refl
answered-append ((i, r) ∷ rs) qs = ap (λ t. i ∷ t) (answered-append rs qs)

-- Exactly one reply is sent.
abbrev SendsOne : Effects → Type 0
SendsOne e = (r : Reply) × (e.0 ≡ r ∷ [])

SendsOne-reply_to :
    (ph : Phase) (n : Notification) (test : Text → Bool) (o : Option Text)
    → SendsOne (reply_to ph n test o)
SendsOne-reply_to ph n test none = (continue, refl)
SendsOne-reply_to ph n test (some path) = elim (Bool-cases (test path)) [
  | inl t ↦ (deny, rw t refl)
  | inr t ↦ (continue, rw t refl)
]

SendsOne-judge_exec :
    (sys : Syscalls) (w : Proc) (ph : Phase) (n : Notification) (o : Option ℕ)
    → SendsOne (judge_exec sys w ph n o)
SendsOne-judge_exec sys w ph n none = (continue, refl)
SendsOne-judge_exec sys w ph n (some fd) =
    SendsOne-reply_to ph n (λ path. is_exec_denied path ph.deny_exec)
      (notified_path w fd (exec_address sys n) (exec_dirfd sys n) n.pid)

SendsOne-judge_open :
    (sys : Syscalls) (w : Proc) (ph : Phase) (n : Notification) (o : Option ℕ)
    → SendsOne (judge_open sys w ph n o)
SendsOne-judge_open sys w ph n none = (continue, refl)
SendsOne-judge_open sys w ph n (some fd) =
    SendsOne-reply_to ph n
      (λ path. is_path_denied path (classify_open_flags sys w n fd) ph.deny_paths)
      (notified_path w fd n.arg1 (dirfd_from_args n.arg0) n.pid)

SendsOne-dispatch :
    (sys : Syscalls) (w : Proc) (n : Notification) (ph : Phase) → SendsOne (dispatch sys w n ph).0
unfolding dispatch handle_exec handle_open
SendsOne-dispatch sys w n ph = elim (Bool-cases (n.nr == sys.execve || n.nr == sys.execveat)) [
  | inl x ↦ rw x (SendsOne-judge_exec sys w ph n (mem_fd_for w n.pid ph).0)
  | inr x ↦ elim (Bool-cases (n.nr == sys.openat || n.nr == sys.openat2)) [
    | inl y ↦ rw (x, y) (SendsOne-judge_open sys w ph n (mem_fd_for w n.pid ph).0)
    | inr y ↦ rw (x, y) (continue, refl)
  ]
]

stopped :
    (sys : Syscalls) (es : List Event) (s : Supervisor)
    → s.is_running ≡ false
    → supervise sys es s ≡ s
unfolding supervise
stopped sys [] s h = refl
stopped sys (e ∷ es) s h = rw h refl

running :
    (sys : Syscalls) (e : Event) (es : List Event) (s : Supervisor)
    → s.is_running ≡ true
    → supervise sys (e ∷ es) s ≡ supervise sys es (on_event sys e s)
unfolding supervise
running sys e es s h = rw h refl

-- One notification: it is answered, and the loop goes on.
module _ (sys : Syscalls) (w : Proc) (n : Notification) where
  on_notified :
      (s : Supervisor)
      → (answered (on_event sys (notified w n) s).replies ≡ answered s.replies ++ n.id ∷ [])
        × ((on_event sys (notified w n) s).is_running ≡ s.is_running)
  unfolding on_event
  on_notified s = elim (Option-cases s.phase) [
    | inl m ↦ rw m (answered-append s.replies ((n.id, continue) ∷ []), refl)
    | inr (ph, m) ↦
        let (r, one) = SendsOne-dispatch sys w n ph in
        rw m (
          answered-append s.replies (replies_to n.id (dispatch sys w n ph).0.0)
              ∙ ap (λ rs. answered s.replies ++ answered (replies_to n.id rs)) one,
          refl,
        )
  ]

-- The loop ends at this event.
ends :
    (sys : Syscalls) (e : Event) (es : List Event) (s : Supervisor)
    → s.is_running ≡ true
    → (on_event sys e s).is_running ≡ false
    → (on_event sys e s).replies ≡ s.replies
    → answered (supervise sys (e ∷ es) s).replies ≡ answered s.replies ++ []
ends sys e es s h r k =
    ap (λ (t : Supervisor). answered t.replies) (running sys e es s h)
    ∙ ap (λ (t : Supervisor). answered t.replies) (stopped sys es (on_event sys e s) r)
    ∙ ap answered k
    ∙ sym (append-nil (answered s.replies))

-- From a running supervisor, every notification that is received before the loop ends is sent
-- exactly one reply, in the order of arrival, whatever the processes look like and whether or not
-- enforcement has begun. What the sending returns is ignored, as in the code, so a reply that the
-- kernel does not take is not sent again.
pub supervise-answers :
    (sys : Syscalls) (es : List Event) (s : Supervisor)
    → s.is_running ≡ true
    → answered (supervise sys es s).replies ≡ answered s.replies ++ received es
unfolding supervise
supervise-answers sys [] s h = sym (append-nil (answered s.replies))
supervise-answers sys (notified w n ∷ es) s h =
    ap (λ (t : Supervisor). answered t.replies) (running sys (notified w n) es s h)
    ∙ supervise-answers sys es (on_event sys (notified w n) s) ((on_notified sys w n s).1 ∙ h)
    ∙ ap (λ r. r ++ received es) (on_notified sys w n s).0
    ∙ append_assoc (answered s.replies) (n.id ∷ []) (received es)
supervise-answers sys (enforce c fd ps xs b ∷ es) s h =
    ap (λ (t : Supervisor). answered t.replies) (running sys (enforce c fd ps xs b) es s h)
    ∙ supervise-answers sys es (on_event sys (enforce c fd ps xs b) s) h
supervise-answers sys (expired ∷ es) s h =
    ap (λ (t : Supervisor). answered t.replies) (running sys expired es s h)
    ∙ supervise-answers sys es s h
supervise-answers sys (recv_failed ∷ es) s h = ends sys recv_failed es s h refl refl
supervise-answers sys (stop_signalled ∷ es) s h = ends sys stop_signalled es s h refl refl
supervise-answers sys (poll_failed ∷ es) s h = ends sys poll_failed es s h refl refl

-- As many denials are written to the audit log as are replied.
abbrev pub IsAudited : Supervisor → Type 0
IsAudited s = length s.audited ≡ denials s.replies

denials-append : (rs qs : List (ℕ × Reply)) → denials (rs ++ qs) ≡ denials rs + denials qs
denials-append [] qs = omega arith
denials-append ((i, continue) ∷ rs) qs = denials-append rs qs
denials-append ((i, deny) ∷ rs) qs = omega (arith, denials-append rs qs)

-- There is a writer for the events.
abbrev pub phase_writes : Option Phase → Bool
phase_writes none = true
phase_writes (some ph) = ph.has_audit_writer

abbrev pub writes_audit : Event → Bool
writes_audit (enforce c fd ps xs b) = b
writes_audit _ = true

-- As many events as the replies deny.
abbrev Balances : Effects → Type 0
Balances r = (id : ℕ) → length r.1 ≡ denials (replies_to id r.0)

Balances-reply_to :
    (ph : Phase) (n : Notification) (test : Text → Bool) (o : Option Text)
    → ph.has_audit_writer ≡ true
    → Balances (reply_to ph n test o)
Balances-reply_to ph n test none h id = refl
Balances-reply_to ph n test (some path) h id = elim (Bool-cases (test path)) [
  | inl t ↦ rw (t, h) refl
  | inr t ↦ rw t refl
]

Balances-judge_exec :
    (sys : Syscalls) (w : Proc) (ph : Phase) (n : Notification) (o : Option ℕ)
    → ph.has_audit_writer ≡ true
    → Balances (judge_exec sys w ph n o)
Balances-judge_exec sys w ph n none h id = refl
Balances-judge_exec sys w ph n (some fd) h id =
    Balances-reply_to ph n (λ path. is_exec_denied path ph.deny_exec)
      (notified_path w fd (exec_address sys n) (exec_dirfd sys n) n.pid) h id

Balances-judge_open :
    (sys : Syscalls) (w : Proc) (ph : Phase) (n : Notification) (o : Option ℕ)
    → ph.has_audit_writer ≡ true
    → Balances (judge_open sys w ph n o)
Balances-judge_open sys w ph n none h id = refl
Balances-judge_open sys w ph n (some fd) h id =
    Balances-reply_to ph n
      (λ path. is_path_denied path (classify_open_flags sys w n fd) ph.deny_paths)
      (notified_path w fd n.arg1 (dirfd_from_args n.arg0) n.pid) h id

mem_fd_for_keeps_writer :
    (w : Proc) (pid : ℕ) (ph : Phase)
    → (mem_fd_for w pid ph).1.has_audit_writer ≡ ph.has_audit_writer
unfolding mem_fd_for
mem_fd_for_keeps_writer w pid ph = elim (Option-cases (cached pid ph.mem_fd_cache)) [
  | inr (fd, c) ↦ rw c refl
  | inl c ↦ elim (Option-cases (w.open_mem pid)) [
    | inr (fd, o) ↦ rw (c, o) refl
    | inl o ↦ rw (c, o) refl
  ]
]

dispatch_keeps_writer :
    (sys : Syscalls) (w : Proc) (n : Notification) (ph : Phase)
    → (dispatch sys w n ph).1.has_audit_writer ≡ ph.has_audit_writer
unfolding dispatch handle_exec handle_open invalidate_mem_fd
dispatch_keeps_writer sys w n ph = elim (Bool-cases (n.nr == sys.execve || n.nr == sys.execveat)) [
  | inl x ↦ rw x (mem_fd_for_keeps_writer w n.pid ph)
  | inr x ↦ elim (Bool-cases (n.nr == sys.openat || n.nr == sys.openat2)) [
    | inl y ↦ rw (x, y) (mem_fd_for_keeps_writer w n.pid ph)
    | inr y ↦ rw (x, y) refl
  ]
]

Balances-dispatch :
    (sys : Syscalls) (w : Proc) (n : Notification) (ph : Phase)
    → ph.has_audit_writer ≡ true
    → Balances (dispatch sys w n ph).0
unfolding dispatch handle_exec handle_open
Balances-dispatch sys w n ph h id =
    let opened = mem_fd_for w n.pid ph in
    elim (Bool-cases (n.nr == sys.execve || n.nr == sys.execveat)) [
      | inl x ↦ rw x (Balances-judge_exec sys w ph n opened.0 h id)
      | inr x ↦ elim (Bool-cases (n.nr == sys.openat || n.nr == sys.openat2)) [
        | inl y ↦ rw (x, y) (Balances-judge_open sys w ph n opened.0 h id)
        | inr y ↦ rw (x, y) refl
      ]
    ]

-- The writer stays, and the numbers agree.
abbrev Booked : Supervisor → Type 0
Booked s = (phase_writes s.phase ≡ true) × IsAudited s

on_notification-Booked :
    (sys : Syscalls) (w : Proc) (n : Notification) (o : Option Phase) (s : Supervisor)
    → phase_writes o ≡ true
    → Booked s
    → Booked (on_notification sys w n o s)
on_notification-Booked sys w n none s h (k, a) =
    (k, a ∙ sym (denials-append s.replies ((n.id, continue) ∷ []) ∙ omega arith))
on_notification-Booked sys w n (some ph) s h (k, a) = (
  dispatch_keeps_writer sys w n ph ∙ h,
  length-append s.audited (dispatch sys w n ph).0.1
      ∙ ap₂ (λ (x : ℕ) (y : ℕ). x + y) a (Balances-dispatch sys w n ph h n.id)
      ∙ sym (denials-append s.replies (replies_to n.id (dispatch sys w n ph).0.0)),
)

on_event-Booked :
    (sys : Syscalls) (e : Event) (s : Supervisor)
    → writes_audit e ≡ true
    → Booked s
    → Booked (on_event sys e s)
unfolding on_event
on_event-Booked sys (notified w n) s h (k, a) = on_notification-Booked sys w n s.phase s k (k, a)
on_event-Booked sys (enforce c fd ps xs b) s h (k, a) = (h, a)
on_event-Booked sys expired s h a = a
on_event-Booked sys recv_failed s h a = a
on_event-Booked sys stop_signalled s h a = a
on_event-Booked sys poll_failed s h a = a

-- Where enforcement is always begun with a writer for the events, and the phase the supervisor is
-- in has one, every sequence of events keeps the number of audit events equal to the number of
-- replies that deny.
pub supervise-IsAudited :
    (sys : Syscalls) (es : List Event) (s : Supervisor)
    → all writes_audit es ≡ true
    → phase_writes s.phase ≡ true
    → IsAudited s
    → IsAudited (supervise sys es s)
unfolding supervise
supervise-IsAudited sys [] s h k a = a
supervise-IsAudited sys (e ∷ es) s h k a = elim (Bool-cases s.is_running) [
  | inl r ↦
      let (k', a') = on_event-Booked sys e s (ground (arith, h)) (k, a) in
      subst IsAudited (sym (running sys e es s r))
        (supervise-IsAudited sys es (on_event sys e s) (ground (arith, h)) k' a')
  | inr r ↦ subst IsAudited (sym (stopped sys (e ∷ es) s r)) a
]
