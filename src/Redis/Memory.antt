-- ===== src/Redis/Memory.antt =====
-- A Redis as a function from keys.
use omnimap_sync.Prelude.{refl, if◌then◌else◌}
use omnimap_sync.Redis.{Key, Entry, missing, same_key, effect, Redis, IsLawful}

abbrev pub memory : Redis
memory = record {
  State = Key → Entry;
  view = λ s k. s k;
  write = λ s k c. λ j. if same_key k j then effect c (s k) else s j;
}

abbrev pub empty : memory.State
empty k = missing

pub memory-IsLawful : IsLawful memory
memory-IsLawful = record { view-write = λ s k c j. refl }
