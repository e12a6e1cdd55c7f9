-- ===== src/WebSockets/Sessions.antt =====
-- The clients of server/app/services/websocket_service.py over any sequence of its calls.
use aether_v.Prelude.Dict
use aether_v.Prelude.Dict.{Dict, IsDict, put-IsDict, remove-IsDict, get-remove, get-put}
use aether_v.Prelude.Json
use aether_v.Prelude.Json.{Json, Fields, null, bool, int, float, text, arr, obj}
use aether_v.Prelude.{
  ℕ, String, ◌≡◌, refl, Bool, true, false, Option, none, some, List, [], ◌∷◌, ◌++◌, ◌==◌, eq_string,
  eq_iff, is_some, arith, inl, inr, Bool-cases,
}
use aether_v.WebSockets.{
  ConnectionManager, Message, welcome, connect, disconnect, disconnect_all, subscribe, unsubscribe,
  broadcast, send_personal_message, handle_client_message, with_topics, send_to, confirm, dispatch,
  by_type, topics_of, clients_to_send, send_all, failed_clients, payload, subscribed, unsubscribed,
  pong, iterate, add_topics, drop_topics,
}

-- The clients with a connection are those with a set of topics, each once.
pub record InStep (s : ConnectionManager) : Type 0 where
  pub same_clients :
      (c : String)
      → is_some (Dict.get s.active_connections c) ≡ is_some (Dict.get s.subscriptions c)
  pub connections_IsDict : IsDict s.active_connections
  pub subscriptions_IsDict : IsDict s.subscriptions

disconnect-InStep : (c : String) (s : ConnectionManager) → InStep s → InStep (disconnect c s)
unfolding disconnect
disconnect-InStep c s h = record {
  same_clients = λ k. ground (
    arith,
    get-remove s.active_connections c k,
    get-remove s.subscriptions c k,
    h.same_clients k,
  );
  connections_IsDict = remove-IsDict s.active_connections c h.connections_IsDict;
  subscriptions_IsDict = remove-IsDict s.subscriptions c h.subscriptions_IsDict;
}

disconnect_all-InStep :
    (cs : List String) (s : ConnectionManager) → InStep s → InStep (disconnect_all cs s)
disconnect_all-InStep [] s h = h
disconnect_all-InStep (c ∷ cs) s h =
    disconnect_all-InStep cs (disconnect c s) (disconnect-InStep c s h)

sent-InStep :
    (s : ConnectionManager) (more : List (ℕ × Message))
    → InStep s
    → InStep (record s { sent = more })
sent-InStep s more h = record {
  same_clients = h.same_clients;
  connections_IsDict = h.connections_IsDict;
  subscriptions_IsDict = h.subscriptions_IsDict;
}

with_topics-InStep :
    (o : Option (List String)) (c : String) (change : List String → List String) (raises : Bool)
    (s : ConnectionManager)
    → Dict.get s.subscriptions c ≡ o
    → InStep s
    → InStep (with_topics o c change raises s).0
with_topics-InStep none c change raises s known h = h
with_topics-InStep (some old) c change raises s known h = record {
  same_clients =
      λ k. ground (arith, get-put s.subscriptions c (change old) k, h.same_clients k, eq_iff c k);
  connections_IsDict = h.connections_IsDict;
  subscriptions_IsDict = put-IsDict s.subscriptions c (change old) h.subscriptions_IsDict;
}

module _ (broken : ℕ → Bool) where
  send_to-InStep :
      (o : Option ℕ) (c : String) (m : Message) (s : ConnectionManager)
      → InStep s
      → InStep (send_to broken o c m s)
  send_to-InStep none c m s h = h
  send_to-InStep (some socket) c m s h = elim (Bool-cases (broken socket)) [
    | inl bad ↦ rw bad (disconnect-InStep c s h)
    | inr good ↦ rw good (sent-InStep s (s.sent ++ (socket, m) ∷ []) h)
  ]

  send-InStep :
      (c : String) (m : Message) (s : ConnectionManager)
      → InStep s
      → InStep (send_personal_message broken c m s)
  unfolding send_personal_message
  send-InStep c m s h = send_to-InStep (Dict.get s.active_connections c) c m s h

  registered-InStep :
      (socket : ℕ) (c : String) (s : ConnectionManager)
      → InStep s
      → InStep (record s {
        active_connections = Dict.put s.active_connections c socket;
        subscriptions = Dict.put s.subscriptions c [];
      })
  registered-InStep socket c s h = record {
    same_clients = λ k. ground (
      arith,
      get-put s.active_connections c socket k,
      get-put s.subscriptions c [] k,
      h.same_clients k,
    );
    connections_IsDict = put-IsDict s.active_connections c socket h.connections_IsDict;
    subscriptions_IsDict = put-IsDict s.subscriptions c [] h.subscriptions_IsDict;
  }

  connect-InStep :
      (accepted : Bool) (socket : ℕ) (c : String) (s : ConnectionManager)
      → InStep s
      → InStep (connect broken accepted socket c s).0
  unfolding connect
  connect-InStep false socket c s h = h
  connect-InStep true socket c s h =
      send-InStep c (welcome c)
        (record s {
          active_connections = Dict.put s.active_connections c socket;
          subscriptions = Dict.put s.subscriptions c [];
        })
        (registered-InStep socket c s h)

  confirm-InStep :
      (r : ConnectionManager × Bool) (c : String) (m : Message)
      → InStep r.0
      → InStep (confirm broken r c m).0
  confirm-InStep (s, true) c m h = h
  confirm-InStep (s, false) c m h = send-InStep c m s h

  broadcast-InStep :
      (m : Json) (topic : Option String) (s : ConnectionManager)
      → InStep s
      → InStep (broadcast broken m topic s)
  unfolding broadcast
  broadcast-InStep m topic s h =
      let clients = clients_to_send topic s in
      let sent = s.sent ++ send_all broken clients (payload m) in
      disconnect_all-InStep (failed_clients broken clients) (record s { sent = sent })
        (sent-InStep s sent h)

  subscribe-InStep :
      (c : String) (topics : Json) (s : ConnectionManager)
      → InStep s
      → InStep (subscribe c topics s).0
  unfolding subscribe
  subscribe-InStep c topics s h =
      let (new, raises) = iterate topics in
      with_topics-InStep (Dict.get s.subscriptions c) c (λ old. add_topics old new) raises s refl h

  unsubscribe-InStep :
      (c : String) (topics : Json) (s : ConnectionManager)
      → InStep s
      → InStep (unsubscribe c topics s).0
  unfolding unsubscribe
  unsubscribe-InStep c topics s h =
      let (lost, raises) = iterate topics in
      with_topics-InStep (Dict.get s.subscriptions c) c (λ old. drop_topics old lost) raises s refl
        h

  dispatch-InStep :
      (t : String) (fields : Fields) (c : String) (s : ConnectionManager)
      → InStep s
      → InStep (dispatch broken t fields c s).0
  dispatch-InStep t fields c s h =
      let topics = topics_of broken (Json.get_field fields "topics") in
      elim (Bool-cases (t == "subscribe")) [
        | inl e ↦ rw e (
            confirm-InStep (subscribe c topics s) c (subscribed topics)
              (subscribe-InStep c topics s h))
        | inr e ↦ rw e (elim (Bool-cases (t == "unsubscribe")) [
          | inl f ↦ rw f (
              confirm-InStep (unsubscribe c topics s) c (unsubscribed topics)
                (unsubscribe-InStep c topics s h))
          | inr f ↦ rw f (elim (Bool-cases (t == "ping")) [
            | inl g ↦ rw g (send-InStep c pong s h)
            | inr g ↦ rw g h
          ])
        ])
      ]

  by_type-InStep :
      (o : Option Json) (fields : Fields) (c : String) (s : ConnectionManager)
      → InStep s
      → InStep (by_type broken o fields c s).0
  by_type-InStep none fields c s h = h
  by_type-InStep (some (text t)) fields c s h = dispatch-InStep t fields c s h
  by_type-InStep (some null) fields c s h = h
  by_type-InStep (some (bool b)) fields c s h = h
  by_type-InStep (some (int m n)) fields c s h = h
  by_type-InStep (some (float b)) fields c s h = h
  by_type-InStep (some (arr xs)) fields c s h = h
  by_type-InStep (some (obj fs)) fields c s h = h

  message-InStep :
      (c : String) (m : Json) (s : ConnectionManager)
      → InStep s
      → InStep (handle_client_message broken c m s).0
  unfolding handle_client_message
  message-InStep c (obj fields) s h = by_type-InStep (Json.get_field fields "type") fields c s h
  message-InStep c null s h = h
  message-InStep c (bool b) s h = h
  message-InStep c (int m n) s h = h
  message-InStep c (float b) s h = h
  message-InStep c (text t) s h = h
  message-InStep c (arr xs) s h = h

-- What happens to the manager.
pub data Event : Type 0 where
  connects : (accepted : Bool) (socket : ℕ) (client_id : String) → Event
  leaves : (client_id : String) → Event
  tells : (client_id : String) → Json → Event
  broadcasts : Json → Option String → Event

abbrev after_event : (ℕ → Bool) → Event → ConnectionManager → ConnectionManager
after_event broken (connects accepted socket c) s = (connect broken accepted socket c s).0
after_event broken (leaves c) s = disconnect c s
after_event broken (tells c m) s = (handle_client_message broken c m s).0
after_event broken (broadcasts m topic) s = broadcast broken m topic s

-- The events in order, each with the sockets that are broken at the time.
abbrev pub session : List ((ℕ → Bool) × Event) → ConnectionManager → ConnectionManager
session [] s = s
session ((broken, e) ∷ es) s = session es (after_event broken e s)

after_event-InStep :
    (broken : ℕ → Bool) (e : Event) (s : ConnectionManager)
    → InStep s
    → InStep (after_event broken e s)
after_event-InStep broken (connects accepted socket c) s h =
    connect-InStep broken accepted socket c s h
after_event-InStep broken (leaves c) s h = disconnect-InStep c s h
after_event-InStep broken (tells c m) s h = message-InStep broken c m s h
after_event-InStep broken (broadcasts m topic) s h = broadcast-InStep broken m topic s h

-- Whatever the clients send, in any sequence of connects, disconnects, client messages and
-- broadcasts, and whichever sockets break: the clients that have a connection stay those that have
-- a set of topics, and each of them stands once.
pub session-InStep :
    (es : List ((ℕ → Bool) × Event)) (s : ConnectionManager) → InStep s → InStep (session es s)
session-InStep [] s h = h
session-InStep ((broken, e) ∷ es) s h =
    session-InStep es (after_event broken e s) (after_event-InStep broken e s h)
