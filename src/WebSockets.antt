-- ===== src/WebSockets.antt =====
-- The WebSocket connection manager (server/app/services/websocket_service.py). A socket is a
-- number; which sockets raise when they are sent to is an argument of each call, `broken`. The
-- messages that sockets took are a list, the newest last. A client's topics are the texts in its
-- set: only a text is ever looked for.
pub mod Topics
pub mod Delivery
pub mod Sessions
use aether_v.Prelude.Dict
use aether_v.Prelude.Dict.{Dict}
use aether_v.Prelude.Json
use aether_v.Prelude.Json.{
  Json, Items, Fields, null, bool, int, float, text, arr, obj, nil, cons, end, field,
}
use aether_v.Prelude.{
  ℕ, String, Bool, true, false, ◌&&◌, ◌||◌, not, Option, none, some, List, [], ◌∷◌, ◌++◌, ◌==◌,
  if◌then◌else◌, eq_string, any, filter, length, is_some,
}
use Prim.Native.Char.{Char}

pub data Message : Type 0 where
  welcome : (client_id : String) → Message
  subscribed : (topics : Json) → Message
  unsubscribed : (topics : Json) → Message
  pong : Message
  payload : Json → Message

pub record ConnectionManager : Type 0 where
  pub active_connections : Dict String ℕ
  pub subscriptions : Dict String (List String)
  pub sent : List (ℕ × Message)

unfoldable pub disconnect : String → ConnectionManager → ConnectionManager
disconnect client_id s = record s {
  active_connections = Dict.remove s.active_connections client_id;
  subscriptions = Dict.remove s.subscriptions client_id;
}

unfoldable pub get_connection_count : ConnectionManager → ℕ
get_connection_count s = length s.active_connections

abbrev pub contains : List String → String → Bool
contains topics topic = any (λ t. t == topic) topics

-- topics.update(new)
abbrev pub add_topics : List String → List String → List String
add_topics topics [] = topics
add_topics topics (t ∷ new) =
    add_topics (if contains topics t then topics else topics ++ t ∷ []) new

-- topics.difference_update(gone)
abbrev pub drop_topics : List String → List String → List String
drop_topics topics [] = topics
drop_topics topics (t ∷ gone) = drop_topics (filter (λ u. not (u == t)) topics) gone

-- The texts that iterating over a list puts out before an element that cannot be hashed, and
-- whether there is one.
abbrev pub hashable_texts : Items → List String × Bool
hashable_texts nil = ([], false)
hashable_texts (cons (arr xs) rest) = ([], true)
hashable_texts (cons (obj fs) rest) = ([], true)
hashable_texts (cons (text t) rest) = let (ts, raises) = hashable_texts rest in (t ∷ ts, raises)
hashable_texts (cons other rest) = hashable_texts rest

abbrev field_names : Fields → List String
field_names end = []
field_names (field k v fs) = k ∷ field_names fs

abbrev characters : String → List String
characters String.[] = []
characters (String.◌∷◌ c s) = String.◌∷◌ c String.[] ∷ characters s

-- What `update` and `difference_update` of a set see of a value that a client sent as its topics,
-- and whether they raise TypeError then.
abbrev pub iterate : Json → List String × Bool
iterate (arr xs) = hashable_texts xs
iterate (text s) = (characters s, false)
iterate (obj fs) = (field_names fs, false)
iterate other = ([], true)

-- The topics of a client are replaced, if it has any; the Boolean is whether the call raises.
abbrev pub with_topics :
    Option (List String)
    → String
    → (List String → List String)
    → Bool
    → ConnectionManager
    → ConnectionManager × Bool
with_topics none client_id change raises s = (s, false)
with_topics (some topics) client_id change raises s =
    (record s { subscriptions = Dict.put s.subscriptions client_id (change topics) }, raises)

unfoldable pub subscribe : String → Json → ConnectionManager → ConnectionManager × Bool
subscribe client_id topics s =
    let (new, raises) = iterate topics in
    with_topics (Dict.get s.subscriptions client_id) client_id (λ old. add_topics old new) raises s

unfoldable pub unsubscribe : String → Json → ConnectionManager → ConnectionManager × Bool
unsubscribe client_id topics s =
    let (gone, raises) = iterate topics in
    with_topics (Dict.get s.subscriptions client_id) client_id (λ old. drop_topics old gone) raises
      s

module _ (broken : ℕ → Bool) where
  abbrev send_to : Option ℕ → String → Message → ConnectionManager → ConnectionManager
  send_to none client_id message s = s
  send_to (some socket) client_id message s =
      if broken socket
      then disconnect client_id s
      else record s { sent = s.sent ++ (socket, message) ∷ [] }

  unfoldable pub send_personal_message : String → Message → ConnectionManager → ConnectionManager
  unfolding disconnect
  send_personal_message client_id message s =
      send_to (Dict.get s.active_connections client_id) client_id message s

  -- `accepted` is whether `websocket.accept()` returned.
  unfoldable pub connect : Bool → ℕ → String → ConnectionManager → ConnectionManager × Bool
  unfolding send_personal_message
  connect accepted socket client_id s = if not accepted then (s, false) else (
    send_personal_message client_id (welcome client_id) (record s {
      active_connections = Dict.put s.active_connections client_id socket;
      subscriptions = Dict.put s.subscriptions client_id [];
    }),
    true,
  )

  -- gather(*send_tasks, return_exceptions=True): the messages that the sockets take
  abbrev pub send_all : Dict String ℕ → Message → List (ℕ × Message)
  send_all [] message = []
  send_all ((c, socket) ∷ d) message =
      let rest = send_all d message in if broken socket then rest else (socket, message) ∷ rest

  abbrev pub failed_clients : Dict String ℕ → List String
  failed_clients [] = []
  failed_clients ((c, socket) ∷ d) =
      let rest = failed_clients d in if broken socket then c ∷ rest else rest

abbrev pub disconnect_all : List String → ConnectionManager → ConnectionManager
disconnect_all [] s = s
disconnect_all (c ∷ cs) s = disconnect_all cs (disconnect c s)

abbrev pub connected_as : String → Option ℕ → Dict String ℕ → Dict String ℕ
connected_as client_id none d = d
connected_as client_id (some socket) d = (client_id, socket) ∷ d

-- The clients with the topic, or with the topic "all", that are connected.
abbrev pub topic_clients : String → Dict String (List String) → Dict String ℕ → Dict String ℕ
topic_clients topic [] connections = []
topic_clients topic ((c, topics) ∷ d) connections =
    let rest = topic_clients topic d connections in
    if contains topics topic || contains topics "all"
    then connected_as c (Dict.get connections c) rest
    else rest

-- The clients to send to; `topic` may be None or empty.
abbrev pub clients_to_send : Option String → ConnectionManager → Dict String ℕ
clients_to_send none s = s.active_connections
clients_to_send (some topic) s =
    if topic == ""
    then s.active_connections
    else topic_clients topic s.subscriptions s.active_connections

module _ (broken : ℕ → Bool) where
  unfoldable pub broadcast : Json → Option String → ConnectionManager → ConnectionManager
  unfolding disconnect
  broadcast message topic s =
      let clients = clients_to_send topic s in
      disconnect_all (failed_clients broken clients)
        (record s { sent = s.sent ++ send_all broken clients (payload message) })

  abbrev confirm : ConnectionManager × Bool → String → Message → ConnectionManager × Bool
  confirm (s, true) client_id message = (s, true)
  confirm (s, false) client_id message = (send_personal_message broken client_id message s, false)

  abbrev topics_of : Option Json → Json
  topics_of none = arr nil
  topics_of (some topics) = topics

  -- A message whose type is a text that is not empty.
  abbrev dispatch : String → Fields → String → ConnectionManager → ConnectionManager × Bool
  dispatch message_type fields client_id s =
      let topics = topics_of (Json.get_field fields "topics") in
      if message_type == "subscribe"
      then confirm (subscribe client_id topics s) client_id (subscribed topics)
      else if message_type == "unsubscribe"
      then confirm (unsubscribe client_id topics s) client_id (unsubscribed topics)
      else if message_type == "ping"
      then (send_personal_message broken client_id pong s, false)
      else (s, false)

  abbrev by_type : Option Json → Fields → String → ConnectionManager → ConnectionManager × Bool
  by_type (some (text message_type)) fields client_id s = dispatch message_type fields client_id s
  by_type _ fields client_id s = (s, false)

  -- The Boolean is whether the call raises.
  unfoldable pub handle_client_message :
      String → Json → ConnectionManager → ConnectionManager × Bool
  unfolding subscribe unsubscribe send_personal_message
  handle_client_message client_id (obj fields) s =
      by_type (Json.get_field fields "type") fields client_id s
  handle_client_message client_id other s = (s, false)
