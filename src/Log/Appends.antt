-- ===== src/Log/Appends.antt =====
-- append_changelog_events of app/rabbitmq_consumer.py keeps the changelog in order.
use mathlib.Core.Path.{subst}
use omnimap_sync.Prelude.{
  ℕ, zero, suc, pos, pos_part, ◌+ℤ◌, ◌+◌, ◌-◌, ◌≤◌, String, Bool, true, false, List, [], ◌∷◌, ◌++◌,
  length, drop, ◌≡◌, refl, sym, ap, ◌∙◌, arith, ltb, not, ◌||◌, is_empty,
}
use omnimap_sync.Redis.{
  Key, changelog, changelog_seq, Command, incrby, zadd, zkeep, Entry, same_key, Redis, IsLawful,
  number_or_zero, zinsert, zremove,
}
use omnimap_sync.World.{World, Exec, ◌>>=◌, apply_all, write_all, write_read}
use omnimap_sync.World.Keeps.{Keeps, Keeps-pure, Keeps-if, Keeps-try_except}
use omnimap_sync.World.Replies.{Keeps-write_read_bind, write_all_either}
use omnimap_sync.Env.{Env}
use omnimap_sync.Consumer.Changelog.{
  Op, changelog_member, zadd_events, trim_changelog, append_changelog_events,
}
use omnimap_sync.Mirror.Steps.{Stored, free, KeepsLog}
use omnimap_sync.Sync.Progress.{is_ascending}
use omnimap_sync.Log.{is_bounded, log_in, number_in, IsLogged}
use omnimap_sync.Log.Entries.{
  is_bounded_above, is_ascending-drop, is_bounded-drop, is_ascending-zadd, is_bounded-zadd,
}

-- Keys other than those of the changelog.
abbrev pub is_unlogged : Key → Bool
is_unlogged changelog = false
is_unlogged changelog_seq = false
is_unlogged _ = true

positive : (k : ℕ) → ltb 0 (suc k) ≡ true
positive k = ground arith

pos_add : (m n : ℕ) → pos m +ℤ pos n ≡ pos (m + n)
pos_add m n = ground arith

module _ (R : Redis) (L : IsLawful R) where
  unlogged_changelog : (k : Key) → is_unlogged k ≡ true → same_key k changelog ≡ false
  unlogged_changelog changelog h = cc
  unlogged_changelog _ h = refl

  unlogged_changelog_seq : (k : Key) → is_unlogged k ≡ true → same_key k changelog_seq ≡ false
  unlogged_changelog_seq changelog_seq h = cc
  unlogged_changelog_seq _ h = refl

  log_in-write :
      (s : R.State) (k : Key) (c : Command)
      → same_key k changelog ≡ false
      → log_in R (R.write s k c) ≡ log_in R s
  log_in-write s k c e = ap (λ (x : Entry). x.scored) (rw e at (L.view-write s k c changelog))

  number_in-write :
      (s : R.State) (k : Key) (c : Command)
      → same_key k changelog_seq ≡ false
      → number_in R (R.write s k c) ≡ number_in R s
  number_in-write s k c e =
      ap (λ (x : Entry). number_or_zero x.number) (rw e at (L.view-write s k c changelog_seq))

  pub write_unlogged-IsLogged :
      (s : R.State) (k : Key) (c : Command)
      → is_unlogged k ≡ true
      → IsLogged R s
      → IsLogged R (R.write s k c)
  write_unlogged-IsLogged s k c u h = record {
    number = h.number;
    given = number_in-write s k c (unlogged_changelog_seq k u) ∙ h.given;
    ascending = rw (log_in-write s k c (unlogged_changelog k u)) h.ascending;
    bounded = rw (log_in-write s k c (unlogged_changelog k u)) h.bounded;
  }

  pub log_in-zkeep :
      (s : R.State) (n : ℕ)
      → log_in R (R.write s changelog (zkeep n)) ≡ drop (length (log_in R s) - n) (log_in R s)
  log_in-zkeep s n = ap (λ (x : Entry). x.scored) (L.view-write s changelog (zkeep n) changelog)

  -- The numbers above `low` are given out, and not in the changelog yet.
  record IsReserved (low high : ℕ) (s : R.State) : Type 0 where
    given : number_in R s ≡ pos high
    order : low ≤ high
    ascending : is_ascending 0 (log_in R s) ≡ true
    bounded : is_bounded low (log_in R s) ≡ true

  incrby-IsReserved :
      (s : R.State) (n : ℕ) (h : IsLogged R s)
      → IsReserved h.number (h.number + n) (R.write s changelog_seq (incrby (pos n)))
  incrby-IsReserved s n h = record {
    given =
        ap (λ (x : Entry). number_or_zero x.number)
          (L.view-write s changelog_seq (incrby (pos n)) changelog_seq)
        ∙ ap (λ z. z +ℤ pos n) h.given
        ∙ pos_add h.number n;
    order = omega arith;
    ascending = rw (log_in-write s changelog_seq (incrby (pos n)) refl) h.ascending;
    bounded = rw (log_in-write s changelog_seq (incrby (pos n)) refl) h.bounded;
  }

  IsReserved-IsLogged : (low high : ℕ) (s : R.State) → IsReserved low high s → IsLogged R s
  IsReserved-IsLogged low high s h = record {
    number = high;
    given = h.given;
    ascending = h.ascending;
    bounded = is_bounded_above low high (log_in R s) h.order h.bounded;
  }

  log_in-zadd :
      (s : R.State) (m : String) (n : ℕ)
      → log_in R (R.write s changelog (zadd m n)) ≡ zinsert m n (zremove m (log_in R s))
  log_in-zadd s m n = ap (λ (x : Entry). x.scored) (L.view-write s changelog (zadd m n) changelog)

  add-IsReserved :
      (s : R.State) (m : String) (low high : ℕ)
      → suc low ≤ high
      → IsReserved low high s
      → IsReserved (suc low) high (R.write s changelog (zadd m (suc low)))
  add-IsReserved s m low high l h = record {
    given = number_in-write s changelog (zadd m (suc low)) refl ∙ h.given;
    order = l;
    ascending =
        rw (log_in-zadd s m (suc low))
          (is_ascending-zadd m low (suc low) (log_in R s) h.ascending h.bounded (omega arith));
    bounded =
        rw (log_in-zadd s m (suc low))
          (is_bounded-zadd m low (suc low) (log_in R s) h.bounded (omega arith));
  }

  trim-IsLogged :
      (k : ℕ) (s : R.State) → IsLogged R s → IsLogged R (apply_all R s (trim_changelog k))
  unfolding trim_changelog apply_all
  trim-IsLogged zero s h = h
  trim-IsLogged (suc k) s h = rw (positive k) record {
    number = h.number;
    given = number_in-write s changelog (zkeep (suc k)) refl ∙ h.given;
    ascending = rw (log_in-zkeep s (suc k)) (is_ascending-drop _ 0 (log_in R s) h.ascending);
    bounded = rw (log_in-zkeep s (suc k)) (is_bounded-drop _ h.number (log_in R s) h.bounded);
  }

  zadds-IsLogged :
      (events : List (String × Op)) (seq low high k : ℕ) (s : R.State)
      → seq ≡ suc low
      → low + length events ≤ high
      → IsReserved low high s
      → IsLogged R (apply_all R s (zadd_events seq events ++ trim_changelog k))
  unfolding zadd_events apply_all
  zadds-IsLogged [] seq low high k s e l h = trim-IsLogged k s (IsReserved-IsLogged low high s h)
  zadds-IsLogged ((b, op) ∷ events) seq low high k s e l h =
      zadds-IsLogged events (seq + 1) (suc low) high k
        (R.write s changelog (zadd (changelog_member seq op b) seq)) (omega arith) (omega arith)
        (subst
          (λ n. IsReserved (suc low) high (R.write s changelog (zadd (changelog_member n op b) n)))
          (sym e) (add-IsReserved s (changelog_member (suc low) op b) low high (omega arith) h))

module _ (E : Env) (L : IsLawful E.redis) where
  append_reply-IsLogged :
      (events : List (String × Op)) (v : World E.redis.State)
      → IsLogged E.redis v.redis
      → IsLogged E.redis
          (write_all E.redis
            (zadd_events
                (pos_part (
                    number_in E.redis
                      (E.redis.write v.redis changelog_seq (incrby (pos (length events)))))
                  - length events
                  + 1)
                events
              ++ trim_changelog E.settings.changelog_max_len)
            (record v {
              redis = E.redis.write v.redis changelog_seq (incrby (pos (length events)));
            })).1.redis
  append_reply-IsLogged events v h =
      let r = incrby-IsReserved E.redis L v.redis (length events) h in
      let s' = E.redis.write v.redis changelog_seq (incrby (pos (length events))) in
      write_all_either E.redis (IsLogged E.redis) _ (record v { redis = s' })
        (IsReserved-IsLogged E.redis L h.number (h.number + length events) s' r)
        (zadds-IsLogged E.redis L events _ h.number (h.number + length events)
          E.settings.changelog_max_len s' (rw r.given (omega arith)) (omega arith) r)

  -- The numbers are given out, and the events get them.
  abbrev pub append_numbered : List (String × Op) → Entry → Exec E.redis.State Unit
  append_numbered events reply = write_all E.redis (
      zadd_events (pos_part (number_or_zero reply.number) - length events + 1) events
      ++ trim_changelog E.settings.changelog_max_len)

  numbered-Keeps :
      (events : List (String × Op))
      → Keeps (Stored E.redis (IsLogged E.redis)) (
          write_read E.redis changelog_seq (incrby (pos (length events)))
          >>= append_numbered events)
  numbered-Keeps events =
      Keeps-write_read_bind E.redis (Stored E.redis (IsLogged E.redis))
        (free E.redis (IsLogged E.redis)) changelog_seq (incrby (pos (length events)))
        (append_numbered events) (append_reply-IsLogged events)

  pub append_changelog_events-KeepsLog : KeepsLog E (IsLogged E.redis)
  unfolding append_changelog_events
  append_changelog_events-KeepsLog events =
      Keeps-if (not E.settings.sync_v2_enabled || is_empty events) _ _ (λ _. Keeps-pure tt)
        (λ _. Keeps-try_except _ _ (numbered-Keeps events) (λ _. Keeps-pure tt))
