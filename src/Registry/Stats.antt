-- ===== src/Registry/Stats.antt =====
-- proxy/interceptors/stats.go: the statistics of a proxy run, under one lock.
-- Times are nanoseconds since the zero time of Go (year 1), so the zero time is 0.
pub mod Counts
use pmg.Prelude.{ℕ, ◌+◌, Option, none, some, Text, List, [], ◌∷◌, ◌++◌}
use pmg.Analysis.{AnalysisResult}

pub record CooldownBlock : Type 0 where
  pub block_name : Text
  pub block_version : Text
  pub publish_date : ℕ
  pub days_ago : ℕ
  pub days_left : ℕ
  pub cooldown_days : ℕ

pub record AnalysisStats : Type 0 where
  pub total_analyzed : ℕ
  pub allowed_count : ℕ
  pub confirmed_count : ℕ
  pub blocked_count : ℕ
  pub user_cancelled_count : ℕ
  pub cooldown_blocked_count : ℕ

pub record StatsCollector : Type 0 where
  pub stats : AnalysisStats
  pub blocked_packages : List AnalysisResult
  pub confirmed_packages : List AnalysisResult
  pub cooldown_blocks : List CooldownBlock

abbrev pub new_collector : StatsCollector
new_collector = record {
  stats = record {
    total_analyzed = 0;
    allowed_count = 0;
    confirmed_count = 0;
    blocked_count = 0;
    user_cancelled_count = 0;
    cooldown_blocked_count = 0;
  };
  blocked_packages = [];
  confirmed_packages = [];
  cooldown_blocks = [];
}

-- A nil result is ignored by each of the four.
unfoldable pub record_allowed : Option AnalysisResult → StatsCollector → StatsCollector
record_allowed none c = c
record_allowed (some r) c = record c {
  stats = record (c.stats) {
    total_analyzed = c.stats.total_analyzed + 1;
    allowed_count = c.stats.allowed_count + 1;
  };
}

unfoldable pub record_blocked : Option AnalysisResult → StatsCollector → StatsCollector
record_blocked none c = c
record_blocked (some r) c = record c {
  stats = record (c.stats) {
    total_analyzed = c.stats.total_analyzed + 1;
    blocked_count = c.stats.blocked_count + 1;
  };
  blocked_packages = c.blocked_packages ++ r ∷ [];
}

unfoldable pub record_user_cancelled : Option AnalysisResult → StatsCollector → StatsCollector
record_user_cancelled none c = c
record_user_cancelled (some r) c = record c {
  stats = record (c.stats) {
    total_analyzed = c.stats.total_analyzed + 1;
    user_cancelled_count = c.stats.user_cancelled_count + 1;
    blocked_count = c.stats.blocked_count + 1;
  };
  blocked_packages = c.blocked_packages ++ r ∷ [];
}

unfoldable pub record_confirmed : Option AnalysisResult → StatsCollector → StatsCollector
record_confirmed none c = c
record_confirmed (some r) c = record c {
  stats = record (c.stats) {
    total_analyzed = c.stats.total_analyzed + 1;
    confirmed_count = c.stats.confirmed_count + 1;
  };
  confirmed_packages = c.confirmed_packages ++ r ∷ [];
}

unfoldable pub record_cooldown_blocked : CooldownBlock → StatsCollector → StatsCollector
record_cooldown_blocked b c = record c {
  stats = record (c.stats) {
    total_analyzed = c.stats.total_analyzed + 1;
    blocked_count = c.stats.blocked_count + 1;
    cooldown_blocked_count = c.stats.cooldown_blocked_count + 1;
  };
  cooldown_blocks = c.cooldown_blocks ++ b ∷ [];
}

-- One call of a recording method.
pub data Call : Type 0 where
  allowed blocked user_cancelled confirmed : Option AnalysisResult → Call
  cooldown : CooldownBlock → Call

unfoldable pub perform : Call → StatsCollector → StatsCollector
unfolding record_allowed record_blocked record_user_cancelled record_confirmed
    record_cooldown_blocked
perform (allowed r) = record_allowed r
perform (blocked r) = record_blocked r
perform (user_cancelled r) = record_user_cancelled r
perform (confirmed r) = record_confirmed r
perform (cooldown b) = record_cooldown_blocked b

-- The calls in the order in which they take the lock.
unfoldable pub perform_all : List Call → StatsCollector → StatsCollector
perform_all [] c = c
perform_all (k ∷ ks) c = perform_all ks (perform k c)
