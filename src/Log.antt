-- ===== src/Log.antt =====
-- The changelog and its sequence numbers, CHANGELOG_KEY and CHANGELOG_SEQ_KEY, which
-- app/rabbitmq_consumer.py writes and app/websockets.py reads.
pub mod Entries
pub mod Appends
pub mod Messages
pub mod Bounds
use omnimap_sync.Prelude.{ℕ, ℤ, pos, ◌≤◌, String, Bool, true, false, List, [], ◌∷◌, ◌≡◌, ◌&&◌, leb}
use omnimap_sync.Redis.{Key, changelog, changelog_seq, Redis, number_or_zero}
use omnimap_sync.Sync.Progress.{is_ascending}

-- No score is above `high`.
abbrev pub is_bounded : ℕ → List (String × ℕ) → Bool
is_bounded high [] = true
is_bounded high ((member, score) ∷ entries) = leb score high && is_bounded high entries

module _ (R : Redis) where
  abbrev pub log_in : R.State → List (String × ℕ)
  log_in s = (R.view s changelog).scored

  abbrev pub number_in : R.State → ℤ
  number_in s = number_or_zero (R.view s changelog_seq).number

  -- The scores increase, and none is above the number that was given out last.
  pub record IsLogged (s : R.State) : Type 0 where
    pub number : ℕ
    pub given : number_in s ≡ pos number
    pub ascending : is_ascending 0 (log_in s) ≡ true
    pub bounded : is_bounded number (log_in s) ≡ true
