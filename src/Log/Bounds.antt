-- ===== src/Log/Bounds.antt =====
-- How long the changelog is after append_changelog_events of app/rabbitmq_consumer.py.
use omnimap_sync.Prelude.{
  ℕ, pos, ◌+◌, ◌-◌, ◌≤◌, String, true, false, List, [], ◌∷◌, ◌++◌, length, length-drop, is_empty,
  ltb, ◌≡◌, arith,
}
use omnimap_sync.Redis.{changelog, changelog_seq, zadd, incrby, Redis, IsLawful}
use omnimap_sync.World.{World, ◌>>=◌, apply_all, write_read}
use omnimap_sync.World.Ensures.{
  Ensures, IsCalm, Ensures-try_except, Ensures-bind, Ensures-write_all, Ensures-write_read,
}
use omnimap_sync.Env.{Env}
use omnimap_sync.Consumer.Changelog.{
  Op, changelog_member, zadd_events, trim_changelog, append_changelog_events,
}
use omnimap_sync.Log.{log_in}
use omnimap_sync.Log.Appends.{log_in-zkeep, append_numbered}

module _ (R : Redis) (L : IsLawful R) (k : ℕ) where
  trim_bound :
      (s : R.State) → ltb 0 k ≡ true → length (log_in R (apply_all R s (trim_changelog k))) ≤ k
  unfolding trim_changelog apply_all
  trim_bound s h =
      rw (h, apply_all)
        (rw (log_in-zkeep R L s k)
          (omega (arith, length-drop (length (log_in R s) - k) (log_in R s))))

  zadds_bound :
      (events : List (String × Op)) (seq : ℕ) (s : R.State)
      → ltb 0 k ≡ true
      → length (log_in R (apply_all R s (zadd_events seq events ++ trim_changelog k))) ≤ k
  unfolding zadd_events apply_all
  zadds_bound [] seq s h = trim_bound s h
  zadds_bound ((b, op) ∷ events) seq s h =
      zadds_bound events (seq + 1) (R.write s changelog (zadd (changelog_member seq op b) seq)) h

module _ (E : Env) (L : IsLawful E.redis) (trims : ltb 0 E.settings.changelog_max_len ≡ true) where
  abbrev Short : World E.redis.State → Type 0
  Short w = length (log_in E.redis w.redis) ≤ E.settings.changelog_max_len

  numbered-Ensures :
      (events : List (String × Op))
      → Ensures IsCalm
          (λ _. Short)
          (write_read E.redis changelog_seq (incrby (pos (length events)))
            >>= append_numbered E L events)
  numbered-Ensures events =
      Ensures-bind (λ _. IsCalm) _ _ (Ensures-write_read E.redis (λ w h. h) _ _ (λ w h. h))
        λ reply.
          Ensures-write_all E.redis (λ w h. h) _
            λ w h. zadds_bound E.redis L E.settings.changelog_max_len events _ w.redis trims

  append-Ensures :
      (events : List (String × Op))
      → E.settings.sync_v2_enabled ≡ true
      → is_empty events ≡ false
      → Ensures IsCalm (λ _. Short) (append_changelog_events E events)
  unfolding append_changelog_events
  append-Ensures events enabled some_events =
      rw (enabled, some_events) (Ensures-try_except _ _ (numbered-Ensures events))

-- If the sync by cursor is enabled, changelogs are trimmed, and no request to Redis fails, then after
-- append_changelog_events of some events the changelog has at most the entries that the settings
-- allow.
pub append_changelog_events-bound :
    (E : Env) (L : IsLawful E.redis) (events : List (String × Op)) (w : World E.redis.State)
    → ltb 0 E.settings.changelog_max_len ≡ true
    → E.settings.sync_v2_enabled ≡ true
    → is_empty events ≡ false
    → IsCalm w
    → length (log_in E.redis (append_changelog_events E events w).1.redis)
      ≤ E.settings.changelog_max_len
append_changelog_events-bound E L events w trims enabled some_events calm =
    (append-Ensures E L trims events enabled some_events).after w calm
