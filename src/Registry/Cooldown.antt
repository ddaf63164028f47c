-- ===== src/Registry/Cooldown.antt =====
-- proxy/interceptors/cooldown.go: the window in which a freshly published version is held back.
--
-- Times are nanoseconds since Go's zero time (0), durations nanoseconds; `time.Since` saturates at
-- the greatest int64. The number of whole days is computed exactly here, where the source divides
-- floating-point hours by 24. A map of dates is the list of its entries in the order in which the
-- loop visits them, which Go does not fix.
pub mod Window
pub mod Choice
use pmg.Prelude.{
  ℕ, ◌+◌, ◌-◌, ◌*◌, ◌/◌, Bool, true, false, not, ◌&&◌, ◌||◌, Option, none, some, Text, ◌=ₜ◌,
  is_empty, List, [], ◌∷◌, ◌++◌, ltb, leb, ◌==◌, if◌then◌else◌, length, is_some,
}
use pmg.Analysis.{Ecosystem, PackageVersion, AnalysisResult, Outcome, failed, returned}

abbrev pub day : ℕ
day = 86_400_000_000_000

abbrev pub max_duration : ℕ
max_duration = 9_223_372_036_854_775_807

-- `time.Since(t)` where it is not negative; a negative one is raised to 0 by the callers.
unfoldable pub since : ℕ → ℕ → ℕ
since now t = if ltb max_duration (now - t) then max_duration else now - t

unfoldable pub days_since : ℕ → ℕ → ℕ
unfolding since
days_since now t = since now t / day

-- `cooldownIsWithinWindow`: within the window, whole days since publication, days that remain.
unfoldable pub is_within_window : ℕ → ℕ → ℕ → Bool × ℕ × ℕ
is_within_window now published days =
    let elapsed = days_since now published in (ltb elapsed days, elapsed, days - elapsed)

abbrev pub within : ℕ → ℕ → ℕ → Bool
within now published days = (is_within_window now published days).0

abbrev pub Dates : Type 0
Dates = List (Text × ℕ)

unfoldable pub date_of : Text → Dates → Option ℕ
date_of v [] = none
date_of v ((w, t) ∷ ds) = if w =ₜ v then some t else date_of v ds

-- `cooldownOldestVersion`: the loop with its two variables.
unfoldable pub oldest_loop : Text → ℕ → Dates → Text × ℕ
oldest_loop oldest time [] = (oldest, time)
oldest_loop oldest time ((v, t) ∷ ds) =
    let later = oldest_loop v t ds in
    if time == 0 || ltb t time then later else oldest_loop oldest time ds

unfoldable pub oldest_version : Dates → Text × ℕ
unfolding oldest_loop
oldest_version ds = oldest_loop [] 0 ds

-- The set of versions inside the window, as `stripCooldownVersions` collects it.
unfoldable pub too_new : ℕ → ℕ → Dates → List Text
too_new now days [] = []
too_new now days ((v, t) ∷ ds) =
    let rest = too_new now days ds in if within now t days then v ∷ rest else rest

unfoldable pub is_member : Text → List Text → Bool
is_member v [] = false
is_member v (w ∷ ws) = w =ₜ v || is_member v ws

-- `cooldownLatestEligibleVersion`
unfoldable pub latest_loop : List Text → Text → ℕ → Dates → Text
unfolding is_member
latest_loop new latest time [] = latest
latest_loop new latest time ((v, t) ∷ ds) =
    let taken = latest_loop new v t ds in
    let passed = latest_loop new latest time ds in
    if is_member v new then passed else if ltb time t then taken else passed

unfoldable pub latest_eligible_version : Dates → List Text → Text
unfolding latest_loop
latest_eligible_version ds new = latest_loop new [] 0 ds

-- `malwareInCooldownWindow`: `none` for a nil checker.
unfoldable pub malware_in_window :
    Option (PackageVersion → Outcome)
    → Ecosystem
    → Text
    → ℕ
    → ℕ
    → Dates
    → List (Text × AnalysisResult)
malware_in_window none eco name now days ds = []
malware_in_window (some check) eco name now days [] = []
malware_in_window (some check) eco name now days ((v, t) ∷ ds) =
    let rest = malware_in_window (some check) eco name now days ds in
    if not (within now t days)
    then rest
    else elim (check (record { ecosystem = eco; name = name; version = v })) [
      | failed e ↦ rest
      | returned none ↦ rest
      | returned (some r) ↦ if r.is_malware then (v, r) ∷ rest else rest
    ]
