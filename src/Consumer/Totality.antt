-- ===== src/Consumer/Totality.antt =====
-- Which handlers of app/rabbitmq_consumer.py can raise.
use omnimap_sync.Prelude.{
  String, Bool, true, false, ◌||◌, Option, none, some, List, [], ◌∷◌, Dict, ◌≡◌, arith,
}
use omnimap_sync.Prelude.Assoc
use omnimap_sync.Value.{Value, str, list, dict}
use omnimap_sync.Models.{
  UserId, Outgoing, ChatKind, dm, group_message, group_update, ChatEventMessage, UpdateBlockMessage,
  UpdateBlocksMessage, UpdateAccessMessage, SubscribeMessage, UnsubscribeMessage,
  SandboxModeChangedMessage, NotificationEventMessage, AccessRequestMessage,
}
use omnimap_sync.World.{Socket, Exec, pure}
use omnimap_sync.World.Total.{
  Total, Total-bind, Total-if, Total-if_false, Total-try_except, Total-pure, total_rules,
}
use omnimap_sync.Env.{Env}
use omnimap_sync.Manager.{
  send_to_sockets, send_personal_message, send_to_user, send_to_users_from, is_excluded,
}
use omnimap_sync.Manager.Sandbox.{update_sandbox_cache}
use omnimap_sync.Consumer.Blocks.{update_block, update_blocks, unless_raised, cache_sandbox}
use omnimap_sync.Consumer.Access.{update_access, subscribe, unsubscribe, change_sandbox_mode}
use omnimap_sync.Consumer.Events.{
  notification_event_types, handle_chat_event, send_dm, send_group, echo_to, send_if, answer,
  chat_by_kind, handle_notification_event, handle_access_request, notification_response,
  request_target, access_response,
}
use omnimap_sync.Consumer.Handle.{equals, in_set, dispatch, validated}

-- What Python can put into a set.
abbrev pub is_hashable : Value → Bool
is_hashable (list vs) = false
is_hashable (dict fs) = false
is_hashable _ = true

-- The actions that have a handler of their own.
abbrev pub known_handlers : List String
known_handlers =
    "update_block" ∷ "update_blocks" ∷ "update_access" ∷ "subscribe" ∷ "unsubscribe"
    ∷ "sandbox_mode_changed" ∷ "chat_event" ∷ "access_request" ∷ []

abbrev pub contains_value : List String → Value → Bool
contains_value [] v = false
contains_value (t ∷ ts) v = equals v t || contains_value ts v

module _ (E : Env) where
  send_to_sockets-Total :
      (m : Outgoing) (u : String) (ws : List Socket)
      → Total (send_to_sockets E.redis E.settings m u ws)
  unfolding send_to_sockets
  send_to_sockets-Total m u ws = search total_rules

  send_to_user-Total : (u : String) (m : Outgoing) → Total (send_to_user E.redis E.settings u m)
  unfolding send_to_user
  send_to_user-Total u m = search (total_rules, send_to_sockets-Total)

  send_personal_message-Total :
      (m : Outgoing) (u : String) → Total (send_personal_message E.redis E.settings m u)
  unfolding send_personal_message
  send_personal_message-Total m u = search (total_rules, send_to_sockets-Total)

  send_to_users_from-Total :
      (results : Dict Bool) (us : List String) (m : Outgoing) (excluded : Option String)
      → Total (send_to_users_from E.redis E.settings results us m excluded)
  unfolding send_to_users_from
  send_to_users_from-Total results [] m excluded = search total_rules
  send_to_users_from-Total results (u ∷ us) m excluded =
      Total-if (is_excluded excluded u) _ _ (send_to_users_from-Total results us m excluded) (
        Total-bind _ _ (send_to_user-Total u m)
          (λ d. send_to_users_from-Total (Assoc.put results u d) us m excluded))

  update_sandbox_cache-Total :
      (b : String) (mode creator : Value) → Total (update_sandbox_cache E b mode creator)
  unfolding update_sandbox_cache
  update_sandbox_cache-Total b mode creator = search total_rules

  cache_sandbox-Total : (b : String) (d : Dict Value) → Total (cache_sandbox E b d)
  unfolding cache_sandbox
  cache_sandbox-Total b d = search (total_rules, update_sandbox_cache-Total)

  unless_raised-Total : (m n : Exec E.redis.State Unit) → Total n → Total (unless_raised E m n)
  unfolding unless_raised
  unless_raised-Total m n t =
      Total-bind _ _ (Total-try_except _ _ (λ e. Total-pure false))
        (λ done. Total-if done n (pure tt) t (Total-pure tt))

  update_block-Total : (msg : UpdateBlockMessage) → Total (update_block E msg)
  unfolding update_block
  update_block-Total msg = search (total_rules, unless_raised-Total, cache_sandbox-Total)

  update_blocks-Total : (msg : UpdateBlocksMessage) → Total (update_blocks E msg)
  unfolding update_blocks
  update_blocks-Total msg = search (total_rules, unless_raised-Total, cache_sandbox-Total)

  update_access-Total : (msg : UpdateAccessMessage) → Total (update_access E msg)
  unfolding update_access
  update_access-Total msg = search total_rules

  subscribe-Total : (msg : SubscribeMessage) → Total (subscribe E msg)
  unfolding subscribe
  subscribe-Total msg = search total_rules

  unsubscribe-Total : (msg : UnsubscribeMessage) → Total (unsubscribe E msg)
  unfolding unsubscribe
  unsubscribe-Total msg = search total_rules

  change_sandbox_mode-Total : (msg : SandboxModeChangedMessage) → Total (change_sandbox_mode E msg)
  unfolding change_sandbox_mode
  change_sandbox_mode-Total msg = search (total_rules, update_sandbox_cache-Total)

  echo_to-Total :
      (sender : Option String) (recipient : String) (m : Outgoing)
      → Total (echo_to E sender recipient m)
  unfolding echo_to
  echo_to-Total none recipient m = search total_rules
  echo_to-Total (some sender) recipient m = search (total_rules, send_to_user-Total)

  send_dm-Total : (msg : ChatEventMessage) (to : Option UserId) → Total (send_dm E msg to)
  unfolding send_dm
  send_dm-Total msg none = search total_rules
  send_dm-Total msg (some id) = search (total_rules, send_to_user-Total, echo_to-Total)

  send_group-Total :
      (msg : ChatEventMessage) (m : Outgoing) (excluded : Option String)
      → Total (send_group E msg m excluded)
  unfolding send_group
  send_group-Total msg m excluded = search (total_rules, send_to_users_from-Total)

  chat_by_kind-Total : (kind : ChatKind) (msg : ChatEventMessage) → Total (chat_by_kind E kind msg)
  unfolding chat_by_kind
  chat_by_kind-Total dm msg = send_dm-Total msg msg.recipient_id
  chat_by_kind-Total group_message msg = send_group-Total msg _ _
  chat_by_kind-Total group_update msg = send_group-Total msg _ _

  handle_chat_event-Total : (msg : ChatEventMessage) → Total (handle_chat_event E msg)
  unfolding handle_chat_event
  handle_chat_event-Total msg = chat_by_kind-Total msg.type msg

  send_if-Total : (m : Option Outgoing) (user : String) → Total (send_if E m user)
  unfolding send_if
  send_if-Total none user = search total_rules
  send_if-Total (some m) user = send_personal_message-Total m user

  handle_notification_event-Total :
      (msg : NotificationEventMessage) → Total (handle_notification_event E msg)
  unfolding handle_notification_event
  handle_notification_event-Total msg = send_if-Total (notification_response msg) _

  answer-Total : (to : Option UserId) (m : Outgoing) → Total (answer E to m)
  unfolding answer
  answer-Total none m = search total_rules
  answer-Total (some user) m = search (total_rules, send_to_user-Total)

  handle_access_request-Total : (msg : AccessRequestMessage) → Total (handle_access_request E msg)
  unfolding handle_access_request
  handle_access_request-Total msg = answer-Total (request_target msg) (access_response msg)

  validated-Total :
      {M : Type 0} (run : M → Exec E.redis.State Unit) (o : Option M)
      → ((msg : M) → Total (run msg))
      → Total (validated E run o)
  unfolding validated
  validated-Total run none t = Total-pure tt
  validated-Total run (some msg) t = t msg

  in_set-Total :
      (texts : List String) (v : Value)
      → is_hashable v ≡ true
      → Total (in_set {S = E.redis.State} texts v)
  unfolding in_set
  in_set-Total texts (list vs) h = cc
  in_set-Total texts (dict fs) h = cc
  in_set-Total texts (str s) h = search total_rules
  in_set-Total texts _ h = search total_rules

  -- No handler raises: only a type that cannot be hashed does, for a message with no known action.
  pub dispatch-Total :
      (action event_type : Value) (d : Dict Value)
      → (contains_value known_handlers action || is_hashable event_type) ≡ true
      → Total (dispatch E action event_type d)
  unfolding dispatch
  dispatch-Total action event_type d h =
      Total-if_false (equals action "update_block") _ _ (validated-Total _ _ update_block-Total)
        λ e1.
          Total-if_false (equals action "update_blocks") _ _
            (validated-Total _ _ update_blocks-Total)
            λ e2.
              Total-if_false (equals action "update_access") _ _
                (validated-Total _ _ update_access-Total)
                λ e3.
                  Total-if_false (equals action "subscribe") _ _
                    (validated-Total _ _ subscribe-Total)
                    λ e4.
                      Total-if_false (equals action "unsubscribe") _ _
                        (validated-Total _ _ unsubscribe-Total)
                        λ e5.
                          Total-if_false (equals action "sandbox_mode_changed") _ _
                            (validated-Total _ _ change_sandbox_mode-Total)
                            λ e6.
                              Total-if_false (equals action "chat_event") _ _
                                (validated-Total _ _ handle_chat_event-Total)
                                λ e7.
                                  Total-if_false (equals action "access_request") _ _
                                    (validated-Total _ _ handle_access_request-Total)
                                    λ e8.
                                      Total-bind _ _
                                        (in_set-Total notification_event_types event_type
                                          (ground arith))
                                        λ known.
                                          Total-if known _ _
                                            (validated-Total _ _ handle_notification_event-Total)
                                            (Total-pure tt)
