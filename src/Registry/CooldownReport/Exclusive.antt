-- ===== src/Registry/CooldownReport/Exclusive.antt =====
-- What `recordCooldownStats` of proxy/interceptors/cooldown.go reports: a version is reported as
-- malware or as held back, never as both.
use pmg.Prelude.{
  ℕ, ◌≡◌, refl, ◌⊎◌, inl, inr, Bool, true, false, Option, none, some, Text, is_empty, List, ◌++◌,
  map, if◌then◌else◌, Option-cases, ◌==◌, arith,
}
use pmg.Analysis.{Ecosystem, PackageVersion, AnalysisResult, Outcome}
use pmg.Audit.{Log, report}
use pmg.Registry.Cache.{lookup}
use pmg.Registry.Stats.{StatsCollector}
use pmg.Registry.Cooldown.{Dates, is_within_window, oldest_version, date_of, malware_in_window}
use pmg.Registry.CooldownReport.{
  Books, malware_event, cooldown_event, log_cooldown, log_chosen, log_pinned, record_cooldown_stats,
}

module _ (eco : Ecosystem) (name : Text) (days : ℕ) where
  -- Nothing was added, or one block of the cooldown, of a version that is no known malware.
  abbrev pub IsReport : List (Text × AnalysisResult) → Log → Log → Type 0
  IsReport malware before after =
      (after ≡ before)
      ⊎ ((v : Text) × (date : ℕ) × (ago : ℕ) × (left : ℕ) × (lookup v malware ≡ none)
          × (after ≡ report (cooldown_event eco name days v date ago left) before))

  log_cooldown-IsReport :
      (malware : List (Text × AnalysisResult)) (v : Text) (date ago left : ℕ) (b : Books)
      → IsReport malware (b.1) ((log_cooldown eco name days malware v date ago left b).1)
  unfolding log_cooldown
  log_cooldown-IsReport malware v date ago left (c, l) = elim (Option-cases (lookup v malware)) [
    | inr (r, e) ↦ inl (ground arith)
    | inl e ↦ inr (v, date, ago, left, e, ground arith)
  ]

  -- What both branches satisfy.
  if_both {ℓ} :
      {A : Type ℓ} (P : A → Type 0) (t : Bool) {x y : A} → P x → P y → P (if t then x else y)
  if_both P true p q = p
  if_both P false p q = q

  log_pinned-IsReport :
      (malware : List (Text × AnalysisResult)) (now : ℕ) (pinned : Text) (date : Option ℕ)
      (b : Books)
      → IsReport malware (b.1) ((log_pinned eco name days malware now pinned date b).1)
  unfolding log_pinned
  log_pinned-IsReport malware now pinned none b = inl refl
  log_pinned-IsReport malware now pinned (some date) b =
      let (inside, ago, left) = is_within_window now date days in
      if_both (λ (x : Books). IsReport malware (b.1) (x.1)) inside
        (log_cooldown-IsReport malware pinned date ago left b) (inl refl)

  log_chosen-IsReport :
      (malware : List (Text × AnalysisResult)) (now : ℕ) (pinned : Text) (dates : Dates)
      (remaining : ℕ) (b : Books)
      → IsReport malware (b.1) ((log_chosen eco name days malware now pinned dates remaining b).1)
  unfolding log_chosen
  log_chosen-IsReport malware now pinned dates remaining b =
      let P = λ (x : Books). IsReport malware (b.1) (x.1) in
      let (oldest, date) = oldest_version dates in
      let (_, ago, left) = is_within_window now date days in
      if_both P (remaining == 0)
        (if_both P (is_empty oldest) (inl refl)
          (log_cooldown-IsReport malware oldest date ago left b))
        (if_both P (is_empty pinned) (inl refl)
          (log_pinned-IsReport malware now pinned (date_of pinned dates) b))

  -- With a collector, every version of the window that is known malware is reported as such, and
  -- after them at most one version is reported as held back, which is not among those. Without a
  -- collector nothing is reported.
  pub record_cooldown_stats-IsReport :
      (check : Option (PackageVersion → Outcome)) (now : ℕ) (pinned : Text) (dates : Dates)
      (remaining : ℕ) (c : StatsCollector) (l : Log)
      → let malware = malware_in_window check eco name now days dates in
        IsReport malware
          (l ++ map (malware_event eco name days) malware)
          ((record_cooldown_stats eco name days check now pinned dates remaining (some c) l).1)
        × (record_cooldown_stats eco name days check now pinned dates remaining none l ≡ (none, l))
  unfolding record_cooldown_stats
  record_cooldown_stats-IsReport check now pinned dates remaining c l =
      let malware = malware_in_window check eco name now days dates in
      (
        log_chosen-IsReport malware now pinned dates remaining
            (c, l ++ map (malware_event eco name days) malware),
        refl,
      )
