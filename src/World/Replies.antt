-- ===== src/World/Replies.antt =====
-- Invariants of coroutines that go on with a reply of Redis.
use omnimap_sync.Prelude.{map, Bool, true, false, List, [], ◌∷◌}
use omnimap_sync.Redis.{Key, Command, Entry, Redis}
use omnimap_sync.World.{
  World, Exec, ◌>>=◌, gets, modify, request, request_with, read_all, write_all, write_read,
  apply_all, continue,
}
use omnimap_sync.World.Keeps.{Keeps, IgnoresFaults}

module _ (R : Redis) (P : World R.State → Type 0) (free : IgnoresFaults P) where
  module _ {B : Type 0} (ks : List Key) (f : List Entry → Exec R.State B) where
    read_all_with :
        (fs : List Bool) (w : World R.State)
        → ((v : World R.State) → P v → P (f (map (R.view v.redis) ks) v).1)
        → P w
        → P
            (continue f
              (continue
                (λ _. gets (λ v. map (R.view v.redis) ks))
                (request_with fs w).0
                (request_with fs w).1).0
              (continue
                (λ _. gets (λ v. map (R.view v.redis) ks))
                (request_with fs w).0
                (request_with fs w).1).1).1
    unfolding gets
    read_all_with [] w k h = k w h
    read_all_with (true ∷ fs) w k h = free w fs h
    read_all_with (false ∷ fs) w k h = k (record w { faults = fs }) (free w fs h)

    -- What is read is what the store holds when the rest goes on.
    pub Keeps-read_all_bind :
        ((v : World R.State) → P v → P (f (map (R.view v.redis) ks) v).1)
        → Keeps P (read_all R ks >>= f)
    unfolding read_all request ◌>>=◌
    Keeps-read_all_bind k = record { at = λ w h. read_all_with w.faults w k h }

module _ (R : Redis) (P : World R.State → Type 0) (free : IgnoresFaults P) where
  module _ {B : Type 0} (key : Key) (c : Command) (f : Entry → Exec R.State B) where
    write_read_with :
        (fs : List Bool) (w : World R.State)
        → ((v : World R.State)
            → P v
            → P
                (f
                  (R.view (R.write v.redis key c) key)
                  (record v { redis = R.write v.redis key c })).1)
        → P w
        → P
            (continue f
              (continue
                (λ _. modify (λ v. record v { redis = R.write v.redis key c }) >>= λ _.
                  gets (λ v. R.view v.redis key))
                (request_with fs w).0
                (request_with fs w).1).0
              (continue
                (λ _. modify (λ v. record v { redis = R.write v.redis key c }) >>= λ _.
                  gets (λ v. R.view v.redis key))
                (request_with fs w).0
                (request_with fs w).1).1).1
    unfolding ◌>>=◌
    write_read_with [] w k h = k w h
    write_read_with (true ∷ fs) w k h = free w fs h
    write_read_with (false ∷ fs) w k h = k (record w { faults = fs }) (free w fs h)

    -- The reply is what the key holds when the rest goes on.
    pub Keeps-write_read_bind :
        ((v : World R.State)
          → P v
          → P
              (f
                (R.view (R.write v.redis key c) key)
                (record v { redis = R.write v.redis key c })).1)
        → Keeps P (write_read R key c >>= f)
    unfolding write_read request ◌>>=◌
    Keeps-write_read_bind k = record { at = λ w h. write_read_with w.faults w k h }

-- A pipeline is applied as a whole or not at all.
module _ (R : Redis) (P : R.State → Type 0) (cs : List (Key × Command)) where
  write_with :
      (fs : List Bool) (w : World R.State)
      → P w.redis
      → P (apply_all R w.redis cs)
      → P
          (continue
            (λ _. modify (λ v. record v { redis = apply_all R v.redis cs }))
            (request_with fs w).0
            (request_with fs w).1).1.redis
  unfolding modify
  write_with [] w before after = after
  write_with (true ∷ fs) w before after = before
  write_with (false ∷ fs) w before after = after

  pub write_all_either :
      (w : World R.State) → P w.redis → P (apply_all R w.redis cs) → P (write_all R cs w).1.redis
  unfolding write_all request ◌>>=◌
  write_all_either w before after = write_with w.faults w before after
