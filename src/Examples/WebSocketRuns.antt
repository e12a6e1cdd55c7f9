-- ===== src/Examples/WebSocketRuns.antt =====
-- The manager of server/app/services/websocket_service.py on a few clients.
use aether_v.Prelude.Dict
use aether_v.Prelude.Dict.{IsDict}
use aether_v.Prelude.Json
use aether_v.Prelude.Json.{Json, text, arr, obj, int, cons, nil, field, end}
use aether_v.Prelude.{
  ℕ, String, ◌≡◌, refl, Bool, true, false, ◌&&◌, ◌||◌, not, some, none, List, [], ◌∷◌, ◌++◌, ◌==◌,
  nat_eq, if◌then◌else◌, is_some, eq_string, map, filter,
}
use aether_v.WebSockets.{
  ConnectionManager, contains, payload, subscribe, unsubscribe, broadcast, connect, disconnect,
  iterate, clients_to_send, get_connection_count, handle_client_message, send_personal_message,
}
use aether_v.WebSockets.Delivery.{is_for, kept, broadcast_exact}
use aether_v.WebSockets.Sessions.{
  InStep, Event, connects, tells, broadcasts, session, session-InStep,
}
use aether_v.WebSockets.Topics.{has_topic, topics_in, subscriptions_exact}

program : Unit {0}
unfolding subscribe unsubscribe broadcast connect disconnect get_connection_count
    handle_client_message send_personal_message Dict.get Dict.put Dict.remove Json.get_field
program = tt

abbrev two_clients : ConnectionManager
two_clients = record {
  active_connections = ("a", 1) ∷ ("b", 2) ∷ [];
  subscriptions = ("a", "jobs" ∷ []) ∷ ("b", []) ∷ [];
  sent = [];
}

abbrev client : String
client = "b"

abbrev topics : Json
topics = arr (cons (text "all") (cons (text "jobs") nil))

subscriptions_exact_example :
    (has_topic (topics_in (subscribe client topics two_clients).0 client) "all" ≡ (
      has_topic (topics_in two_clients client) "all"
      || (client == client
          && is_some (topics_in two_clients client)
          && contains (iterate topics).0 "all")))
    × (has_topic (topics_in (unsubscribe client topics two_clients).0 client) "all" ≡ (
        has_topic (topics_in two_clients client) "all"
        && not (client == client && contains (iterate topics).0 "all")))
subscriptions_exact_example = subscriptions_exact two_clients client topics client "all"

abbrev first_broken : ℕ → Bool
first_broken socket = nat_eq socket 1

two_clients-IsDict : IsDict two_clients.active_connections × IsDict two_clients.subscriptions
unfolding program
two_clients-IsDict = ((refl, (refl, tt)), (refl, (refl, tt)))

broadcast_exact_example :
    let t = broadcast first_broken topics (some "jobs") two_clients in
    let clients = clients_to_send (some "jobs") two_clients in
    ((c : String)
      → Dict.get clients c ≡ (
          if is_for (some "jobs") (Dict.get two_clients.subscriptions c)
          then Dict.get two_clients.active_connections c
          else none))
    × IsDict clients
    × (t.sent
        ≡ two_clients.sent
          ++ map (λ p. (p.1, payload topics)) (filter (λ p. not (first_broken p.1)) clients))
    × ((c : String)
        → Dict.get t.active_connections c
          ≡ kept first_broken (Dict.get clients c) (Dict.get two_clients.active_connections c))
    × ((c : String)
        → Dict.get t.subscriptions c
          ≡ kept first_broken (Dict.get clients c) (Dict.get two_clients.subscriptions c))
broadcast_exact_example =
    broadcast_exact first_broken topics (some "jobs") two_clients two_clients-IsDict.0
      two_clients-IsDict.1

-- The client whose socket is broken is gone, and the other is not sent what it does not listen to.
after_broadcast :
    (broadcast first_broken topics (some "jobs") two_clients).active_connections ≡ ("b", 2) ∷ []
unfolding program
after_broadcast = refl

abbrev no_client : ConnectionManager
no_client = record { active_connections = []; subscriptions = []; sent = [] }

no_client-InStep : InStep no_client
unfolding program
no_client-InStep = record {
  same_clients = λ c. refl;
  connections_IsDict = tt;
  subscriptions_IsDict = tt;
}

abbrev events : List ((ℕ → Bool) × Event)
events =
    ((λ n. false), connects true 1 "a")
    ∷ ((λ n. false), tells "a" (obj (field "type" (text "subscribe") (field "topics" topics end))))
    ∷ ((λ n. false), connects true 2 "b")
    ∷ (first_broken, broadcasts topics (some "jobs"))
    ∷ []

session-InStep_example : InStep (session events no_client)
session-InStep_example = session-InStep events no_client no_client-InStep

one_is_left : get_connection_count (session events no_client) ≡ 1
unfolding program
one_is_left = refl
