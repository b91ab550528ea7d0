-- ===== src/Tests/Consumer.antt =====
-- The theorems on app/rabbitmq_consumer.py at concrete inputs.
use omnimap_sync.Prelude.{true, false, none, some, [], ◌∷◌, ◌≡◌, refl, contains}
use omnimap_sync.Value.{str, truthy, to_str}
use omnimap_sync.Models.{text}
use omnimap_sync.Redis.Memory.{memory, memory-IsLawful}
use omnimap_sync.Consumer.Blocks.{authorized, group_updates}
use omnimap_sync.Consumer.Private.{contains-authorized, updates_for, updates_for-group_updates}
use omnimap_sync.Manager.Sandbox.{str_or_empty}
use omnimap_sync.Consumer.Handle.{readable, acked, fields_dict, handle_message}
use omnimap_sync.Consumer.Settles.{settled_as, handle_message-acks}
use omnimap_sync.Mirror.{IsMirrored}
use omnimap_sync.Mirror.Messages.{handle_message-IsMirrored}
use omnimap_sync.Models.{Permission, id_text}
use omnimap_sync.Consumer.Access.{update_access, subscribe}
use omnimap_sync.Consumer.Blocks.{update_block}
use omnimap_sync.Consumer.Secrecy.{AllDiscreet, update_block-AllDiscreet}
use omnimap_sync.Mirror.{subscribers_of}
use omnimap_sync.Mirror.Effects.{update_access-subscribers_of, subscribe-subscribers_of}
use omnimap_sync.Models.{block_update}
use omnimap_sync.Manager.Sandbox.{filter_subscribers_for_private_sandbox}
use omnimap_sync.Consumer.Blocks.{context_info}
use omnimap_sync.Mirror.Delivery.{update_block-spawned}
use omnimap_sync.Models.{id_truthy}
use omnimap_sync.Tests.Inputs.{
  message, subscribe_fields, env, world, private_sandbox, reply, calm, private_context,
  private_update, subscribed,
}

handle_message-IsMirrored_example :
    IsMirrored memory (handle_message env (message (readable "subscribe")) world).1.redis
handle_message-IsMirrored_example =
    handle_message-IsMirrored env memory-IsLawful (message (readable "subscribe")) world
      (λ u b. refl)

handle_message-acks_example :
    settled_as env (handle_message env (message (readable "subscribe")) world).0 ≡ some acked
unfolding fields_dict
handle_message-acks_example =
    handle_message-acks env (message (readable "subscribe")) "subscribe" subscribe_fields world refl
      refl refl

updates_for-group_updates_example :
    updates_for env
      (group_updates env
        (("p", private_sandbox) ∷ [])
        (("a", ("parent_id", str "p") ∷ ("creator_id", str "7") ∷ [])
          ∷ ("b", ("parent_id", str "p") ∷ [])
          ∷ [])
        (reply ("7" ∷ "8" ∷ []) ∷ reply ("7" ∷ "9" ∷ []) ∷ [])
        [])
      "7"
    ≡ record { block_uuid = "a"; content = ("parent_id", str "p") ∷ ("creator_id", str "7") ∷ [] }
      ∷ []
unfolding truthy to_str str_or_empty
updates_for-group_updates_example =
    updates_for-group_updates env (("p", private_sandbox) ∷ [])
      (("a", ("parent_id", str "p") ∷ ("creator_id", str "7") ∷ [])
        ∷ ("b", ("parent_id", str "p") ∷ [])
        ∷ [])
      (reply ("7" ∷ "8" ∷ []) ∷ reply ("7" ∷ "9" ∷ []) ∷ []) "7" (refl, (refl, tt))

contains-authorized_example :
    contains
      (authorized env (some private_sandbox) (("creator_id", str "7") ∷ []) ("7" ∷ "8" ∷ []))
      "8"
    ≡ false
unfolding str_or_empty truthy to_str
contains-authorized_example =
    contains-authorized env (some private_sandbox) (("creator_id", str "7") ∷ []) ("7" ∷ "8" ∷ [])
      "8"

update_access-subscribers_of_example :
    contains
      (subscribers_of memory
        (update_access env
          (record {
            user_id = text "7";
            permission = Permission.edit;
            start_block_ids = "a" ∷ [];
            block_uuids = "b" ∷ "c" ∷ [];
            block_data = none;
          })
          calm).1.redis
        "a")
      "7"
    ≡ true
unfolding id_text
update_access-subscribers_of_example =
    update_access-subscribers_of env memory-IsLawful 1
      (record {
        user_id = text "7";
        permission = Permission.edit;
        start_block_ids = "a" ∷ [];
        block_uuids = "b" ∷ "c" ∷ [];
        block_data = none;
      })
      calm "a" "7" refl refl

subscribe-subscribers_of_example :
    contains
      (subscribers_of memory
        (subscribe env
          (record { user_id = text "7"; block_uuids = "a" ∷ "b" ∷ "c" ∷ [] })
          calm).1.redis
        "c")
      "7"
    ≡ true
unfolding id_text
subscribe-subscribers_of_example =
    subscribe-subscribers_of env memory-IsLawful 1
      (record { user_id = text "7"; block_uuids = "a" ∷ "b" ∷ "c" ∷ [] }) calm "c" "7" refl refl

update_block-AllDiscreet_example :
    AllDiscreet env private_update private_context (update_block env private_update world).1
unfolding truthy to_str
update_block-AllDiscreet_example =
    update_block-AllDiscreet env private_update private_context world (refl, refl) tt

update_block-spawned_example :
    (update_block env private_update subscribed).1.spawned
    ≡ (block_update (record { block_uuid = "a"; content = private_update.block_data }), "7" ∷ [])
      ∷ []
unfolding authorized filter_subscribers_for_private_sandbox truthy to_str str_or_empty context_info
    id_truthy id_text
update_block-spawned_example =
    update_block-spawned env memory-IsLawful private_update private_context subscribed refl refl
      (refl, refl) refl
