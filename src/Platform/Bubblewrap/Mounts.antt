-- ===== src/Platform/Bubblewrap/Mounts.antt =====
-- What the mounts of bubblewrap come to: they are made in order, and a later one lies over an
-- earlier one. `covers` says which paths a mount decides, `can_write` and `can_read` what the last
-- one that decides a path allows on the host's files.
use pmg.Prelude.{
  ◌≡◌, refl, ap, ◌∙◌, Bool, true, false, ◌||◌, ◌&&◌, Text, codes, ◌=ₜ◌, text_eq_refl, has_prefix,
  List, [], ◌∷◌, ◌++◌, if◌then◌else◌, all, arith, Bool-cases, inl, inr,
}
use pmg.Platform.Bubblewrap.{Flag}

unfoldable pub covers : Text → Text → Bool
covers d p = d =ₜ codes "/" || (p =ₜ d || has_prefix p (d ++ 47 ∷ []))

-- One mount, given what the earlier ones allow.
abbrev pub write_after : Text → Bool → Flag → Bool
write_after p before (Flag.bind_try d) = if covers d p then true else before
write_after p before (Flag.bind d) = if covers d p then true else before
write_after p before (Flag.dev_bind_try d) = if covers d p then true else before
write_after p before (Flag.ro_bind_try d) = if covers d p then false else before
write_after p before (Flag.ro_bind_null d) = if covers d p then false else before
write_after p before (Flag.tmpfs d) = if covers d p then false else before
write_after p before _ = before

abbrev pub read_after : Text → Bool → Flag → Bool
read_after p before (Flag.bind_try d) = if covers d p then true else before
read_after p before (Flag.bind d) = if covers d p then true else before
read_after p before (Flag.dev_bind_try d) = if covers d p then true else before
read_after p before (Flag.ro_bind_try d) = if covers d p then true else before
read_after p before (Flag.ro_bind_null d) = if covers d p then false else before
read_after p before (Flag.tmpfs d) = if covers d p then false else before
read_after p before _ = before

-- A list of mounts, one after the other.
unfoldable pub after : (Bool → Flag → Bool) → Bool → List Flag → Bool
after step before [] = before
after step before (f ∷ fs) = after step (step before f) fs

-- Nothing is there before the first mount.
abbrev pub can_write : List Flag → Text → Bool
can_write fs p = after (write_after p) false fs

abbrev pub can_read : List Flag → Text → Bool
can_read fs p = after (read_after p) false fs

-- The mounts that take writing away.
abbrev pub is_mask : Flag → Bool
is_mask (Flag.ro_bind_try d) = true
is_mask (Flag.ro_bind_null d) = true
is_mask (Flag.tmpfs d) = true
is_mask _ = false

abbrev pub is_read_only : Flag → Bool
is_read_only (Flag.ro_bind_try d) = true
is_read_only _ = false

pub covers_refl : (p : Text) → covers p p ≡ true
unfolding covers
covers_refl p = ground (arith, text_eq_refl p)

pub after-append :
    (step : Bool → Flag → Bool) (b : Bool) (fs gs : List Flag)
    → after step b (fs ++ gs) ≡ after step (after step b fs) gs
unfolding after
after-append step b [] gs = refl
after-append step b (f ∷ fs) gs = after-append step (step b f) fs gs

-- What no mount of a kind changes, a list of them does not change.
pub after_keeps :
    (step : Bool → Flag → Bool) (test : Flag → Bool) (v : Bool)
    → ((f : Flag) → test f ≡ true → step v f ≡ v)
    → (fs : List Flag) → all test fs ≡ true
    → after step v fs ≡ v
unfolding after
after_keeps step test v keep [] h = refl
after_keeps step test v keep (f ∷ fs) h = elim (Bool-cases (test f)) [
  | inl m ↦ ap (λ b. after step b fs) (keep f m) ∙ after_keeps step test v keep fs (ground arith)
  | inr m ↦ ground arith
]

pub write_after-mask : (p : Text) (f : Flag) → is_mask f ≡ true → write_after p false f ≡ false
write_after-mask p (Flag.ro_bind_try d) h = ground arith
write_after-mask p (Flag.ro_bind_null d) h = ground arith
write_after-mask p (Flag.tmpfs d) h = ground arith
write_after-mask p (Flag.bind_try d) h = cc
write_after-mask p (Flag.bind d) h = cc
write_after-mask p (Flag.dev_bind_try d) h = cc
write_after-mask p (Flag.proc d) h = cc
write_after-mask p Flag.unshare_net h = cc
write_after-mask p Flag.unshare_pid h = cc
write_after-mask p Flag.unshare_ipc h = cc
write_after-mask p Flag.new_session h = cc
write_after-mask p Flag.die_with_parent h = cc

pub all-append :
    (test : Flag → Bool) (fs gs : List Flag) → all test (fs ++ gs) ≡ (all test fs && all test gs)
all-append test [] gs = refl
all-append test (f ∷ fs) gs = ground (arith, all-append test fs gs)

mask-read_only : (f : Flag) → is_read_only f ≡ true → is_mask f ≡ true
mask-read_only f h = ground arith

pub read_after-read_only :
    (p : Text) (f : Flag) → is_read_only f ≡ true → read_after p true f ≡ true
read_after-read_only p (Flag.ro_bind_try d) h = ground arith
read_after-read_only p (Flag.ro_bind_null d) h = cc
read_after-read_only p (Flag.tmpfs d) h = cc
read_after-read_only p (Flag.bind_try d) h = cc
read_after-read_only p (Flag.bind d) h = cc
read_after-read_only p (Flag.dev_bind_try d) h = cc
read_after-read_only p (Flag.proc d) h = cc
read_after-read_only p Flag.unshare_net h = cc
read_after-read_only p Flag.unshare_pid h = cc
read_after-read_only p Flag.unshare_ipc h = cc
read_after-read_only p Flag.new_session h = cc
read_after-read_only p Flag.die_with_parent h = cc

pub write_after-read_only :
    (p : Text) (f : Flag) → is_read_only f ≡ true → write_after p false f ≡ false
write_after-read_only p f h = write_after-mask p f (mask-read_only f h)
