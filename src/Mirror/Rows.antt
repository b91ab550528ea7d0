-- ===== src/Mirror/Rows.antt =====
-- Telling a user of changed access, in app/rabbitmq_consumer.py, and the two indexes.
use omnimap_sync.Prelude.{String, List, [], ◌∷◌, Dict, Option, none, some}
use omnimap_sync.Value.{Value}
use omnimap_sync.Models.{UpdateAccessMessage}
use omnimap_sync.World.Keeps.{keeps_rules, Keeps-pure}
use omnimap_sync.Env.{Env}
use omnimap_sync.Consumer.Access.{
  fetch_rows, given_or_fetched, access_data, send_message_update_access,
}
use omnimap_sync.Mirror.Steps.{Kept, IgnoresPlain, read_all-Keeps}
use omnimap_sync.Mirror.Sends.{send_personal_message-Keeps}

module _ (E : Env) (P : E.redis.State → Type 0) (N : IgnoresPlain E.redis P) where
  fetch_rows-Keeps : (bs : List String) → Kept E P (fetch_rows E bs)
  unfolding fetch_rows
  fetch_rows-Keeps bs = search (keeps_rules, read_all-Keeps E.redis P N)

  given_or_fetched-Keeps :
      (d : Option (List (Dict Value))) (bs : List String) → Kept E P (given_or_fetched E d bs)
  unfolding given_or_fetched
  given_or_fetched-Keeps none bs = fetch_rows-Keeps bs
  given_or_fetched-Keeps (some []) bs = fetch_rows-Keeps bs
  given_or_fetched-Keeps (some (d ∷ ds)) bs = Keeps-pure (d ∷ ds)

  access_data-Keeps : (msg : UpdateAccessMessage) → Kept E P (access_data E msg)
  unfolding access_data
  access_data-Keeps msg = search (keeps_rules, given_or_fetched-Keeps)

  pub send_message_update_access-Keeps :
      (msg : UpdateAccessMessage) → Kept E P (send_message_update_access E msg)
  unfolding send_message_update_access
  send_message_update_access-Keeps msg =
      search (keeps_rules, access_data-Keeps, send_personal_message-Keeps E.redis P N E.settings)
