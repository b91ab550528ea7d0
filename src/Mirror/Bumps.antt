-- ===== src/Mirror/Bumps.antt =====
-- What the steps of the handlers in app/rabbitmq_consumer.py leave of the versions of subscriptions.
pub mod Handlers
use omnimap_sync.Prelude.{
  ℕ, ℤ, suc, pos, ◌+◌, lebℤ, String, Bool, true, false, not, ◌&&◌, ◌||◌, ◌==◌, eq_iff, eqb, List,
  [], ◌∷◌, ◌++◌, map, Dict, contains, is_empty, ◌≡◌, refl, ◌∙◌, sym, ap, arith, if◌then◌else◌,
  Bool-cases, inl, inr,
}
use omnimap_sync.Prelude.Assoc
use omnimap_sync.Models.{
  Outgoing, Permission, UpdateAccessMessage, SubscribeMessage, UnsubscribeMessage, id_text,
}
use omnimap_sync.Redis.{
  Key, block, changelog_seq, subscriber, user_online, Command, same_key, Entry, IsLawful,
}
use omnimap_sync.World.{World, Exec, spawn, apply_all, write_all}
use omnimap_sync.World.Keeps.{Leads, Keeps-pure}
use omnimap_sync.World.Ensures.{
  Ensures, IsCalm, Ensures-pure, Ensures-if, Ensures-try_except, Ensures-bind, Ensures-for_each,
  Ensures-weaken, Ensures-write_all, Ensures-write_read, Ensures-read_all, Leads-after,
  Leads-try_except,
}
use omnimap_sync.Consumer.Pipelines.{AllKeys, zadd_events-AllKeys, bumps}
use omnimap_sync.Env.{Env}
use omnimap_sync.Consumer.Access.{
  chunks, access_commands, subscribe_commands, user_blocks_of, all_subscribers_of, srem_commands,
  delete_commands, for_chunks, subscribe, update_access, clear_chunk, tell_and_clear,
  unsubscribe_chunk, unsubscribe,
}
use omnimap_sync.Consumer.Changelog.{
  Op, zadd_events, trim_changelog, unique, append_changelog_events, bump_subscription_versions,
}
use omnimap_sync.Mirror.{blocks_of}
use omnimap_sync.Mirror.Steps.{Stored, IgnoresPlain, is_plain}
use omnimap_sync.Mirror.Rows.{send_message_update_access-Keeps}
use omnimap_sync.Mirror.Effects.{positive}
use omnimap_sync.Mirror.Versions.{
  is_unversioned, is_other, touches_of_others, touches, touches-append, version_of, IsNoted,
  IsNoted-weaken, apply_unversioned, write_unversioned, bumps_noted,
}
use omnimap_sync.Mirror.Touches.{contains-unique}

contains_of_empty :
    (users : List String) (u : String) → is_empty users ≡ true → contains users u ≡ false
contains_of_empty [] u h = refl
contains_of_empty (v ∷ users) u h = cc

module _ (E : Env) (L : IsLawful E.redis) (enabled : E.settings.sync_v2_enabled ≡ true) (u : String)
    (start : ℤ) (before : String → Bool) where
  abbrev pub Noted : Bool → World E.redis.State → Type 0
  Noted p w = IsCalm w × IsNoted E.redis L u start before p w.redis

  abbrev pub Turns : Bool → Bool → Exec E.redis.State Unit → Type 0
  Turns p q m = Ensures (Noted p) (λ _. Noted q) m

  pub write-Ensures :
      (p q : Bool) (cs : List (Key × Command))
      → AllKeys is_unversioned cs
      → (q ≡ false → (p || touches u cs) ≡ false)
      → Turns p q (write_all E.redis cs)
  write-Ensures p q cs n k =
      Ensures-write_all E.redis (λ w h. h.0) cs
        (λ w h. (
          h.0,
          IsNoted-weaken E.redis L u start before (p || touches u cs) q _ k
              (apply_unversioned E.redis L u start before p w.redis cs n h.1),
        ))

  pub bump-Ensures :
      (users : List String) → Turns (contains users u) false (bump_subscription_versions E users)
  unfolding bump_subscription_versions
  bump-Ensures users =
      Ensures-if (not E.settings.sync_v2_enabled || is_empty users) _ _
        (λ e. Ensures-pure tt (λ w h. (
          h.0,
          IsNoted-weaken E.redis L u start before (contains users u) false _
              (λ _. ground (arith, contains_of_empty users u)) h.1,
        )))
        (λ _. Ensures-try_except _ _ (
          Ensures-write_all E.redis (λ w h. h.0) (bumps (unique [] users))
            (λ w h. (
              h.0,
              IsNoted-weaken E.redis L u start before
                  (contains users u && not (contains (unique [] users) u)) false _
                  (λ _. ground (arith, contains-unique [] users u))
                  (bumps_noted E.redis L u start before (contains users u) w.redis (unique [] users)
                    h.1),
            ))))

  zadds-Ensures :
      (p : Bool) (seq : ℕ) (events : List (String × Op)) (n : ℕ)
      → Turns p p (write_all E.redis (zadd_events seq events ++ trim_changelog n))
  zadds-Ensures p seq events n =
      write-Ensures p p _ (zadd_events-AllKeys is_unversioned seq events n refl) (λ e. ground (
        arith,
        touches_of_others u (zadd_events seq events ++ trim_changelog n)
            (zadd_events-AllKeys (is_other u) seq events n refl),
      ))

  pub append-Ensures :
      (p : Bool) (events : List (String × Op)) → Turns p p (append_changelog_events E events)
  unfolding append_changelog_events
  append-Ensures p events =
      Ensures-if (not E.settings.sync_v2_enabled || is_empty events) _ _
        (λ _. Ensures-pure tt (λ w h. h))
        (λ _. Ensures-try_except _ _ (
          Ensures-bind (λ _. Noted p) _ _
            (Ensures-write_read E.redis (λ w h. h.0) changelog_seq _
              (λ w h. (
                h.0,
                IsNoted-weaken E.redis L u start before (p || false) p _ (λ e. ground arith)
                    (write_unversioned E.redis L u start before p w.redis changelog_seq _ refl h.1),
              )))
            (λ reply. zadds-Ensures p _ events _)))

  pub for_chunks-Ensures :
      (n : ℕ) (p : Bool) (xs : List String) (body : List String → Exec E.redis.State Unit)
      → E.settings.block_portion ≡ suc n
      → ((chunk : List String) → Turns p p (body chunk))
      → Turns p p (for_chunks E xs body)
  unfolding for_chunks
  for_chunks-Ensures n p xs body h k =
      rw (h, positive n)
        (Ensures-for_each (λ _. Noted p) (chunks (suc n) xs) body (λ chunk rest. k chunk))

  pub bump_one-Ensures :
      (user : String) → Turns (user == u) false (bump_subscription_versions E (user ∷ []))
  bump_one-Ensures user =
      Ensures-weaken _ (bump-Ensures (user ∷ []))
        (λ w h. (
          h.0,
          IsNoted-weaken E.redis L u start before (user == u) (contains (user ∷ []) u) _
              (λ e. ground arith) h.1,
        ))
        (λ _ w h. h)
