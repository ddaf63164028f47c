-- ===== src/Registry/Stats/Counts.antt =====
-- The counters of proxy/interceptors/stats.go and the lists beside them agree.
use pmg.Prelude.{◌+◌, ◌≤◌, ◌≡◌, none, some, List, [], ◌∷◌, length, length-append, arith}
use pmg.Registry.Stats.{
  StatsCollector, new_collector, Call, perform, perform_all, allowed, blocked, user_cancelled,
  confirmed, cooldown,
}

-- Every analyzed package is allowed, confirmed or blocked; the blocked ones are listed, as packages
-- or as cooldown blocks, and so are the confirmed ones; a cancelled one is listed as blocked.
pub record IsConsistent (c : StatsCollector) : Type 0 where
  pub total :
      c.stats.total_analyzed
      ≡ c.stats.allowed_count + c.stats.confirmed_count + c.stats.blocked_count
  pub blocked_listed : c.stats.blocked_count ≡ length c.blocked_packages + length c.cooldown_blocks
  pub confirmed_listed : c.stats.confirmed_count ≡ length c.confirmed_packages
  pub cooldown_listed : c.stats.cooldown_blocked_count ≡ length c.cooldown_blocks
  pub cancelled_blocked : c.stats.user_cancelled_count ≤ length c.blocked_packages

pub perform-IsConsistent :
    (k : Call) (c : StatsCollector) → IsConsistent c → IsConsistent (perform k c)
unfolding perform
perform-IsConsistent (allowed none) c h = h
perform-IsConsistent (allowed (some r)) c h = ground arith
perform-IsConsistent (blocked none) c h = h
perform-IsConsistent (blocked (some r)) c h =
    ground (arith, length-append c.blocked_packages (r ∷ []))
perform-IsConsistent (user_cancelled none) c h = h
perform-IsConsistent (user_cancelled (some r)) c h =
    ground (arith, length-append c.blocked_packages (r ∷ []))
perform-IsConsistent (confirmed none) c h = h
perform-IsConsistent (confirmed (some r)) c h =
    ground (arith, length-append c.confirmed_packages (r ∷ []))
perform-IsConsistent (cooldown b) c h = ground (arith, length-append c.cooldown_blocks (b ∷ []))

perform_all-keeps :
    (ks : List Call) (c : StatsCollector) → IsConsistent c → IsConsistent (perform_all ks c)
unfolding perform_all
perform_all-keeps [] c h = h
perform_all-keeps (k ∷ ks) c h = perform_all-keeps ks (perform k c) (perform-IsConsistent k c h)

-- In every order of calls, the counters and the lists of a collector that begins empty agree.
pub perform_all-IsConsistent : (ks : List Call) → IsConsistent (perform_all ks new_collector)
perform_all-IsConsistent ks = perform_all-keeps ks new_collector (omega arith)
