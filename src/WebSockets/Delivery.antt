-- ===== src/WebSockets/Delivery.antt =====
-- Who gets a broadcast of server/app/services/websocket_service.py, and who is cut off by it.
use aether_v.Prelude.Dict
use aether_v.Prelude.Dict.{Dict, IsDict, get-remove, get-put}
use aether_v.Prelude.Json.{Json}
use aether_v.Prelude.{
  ℕ, String, ◌≡◌, refl, ◌∙◌, Bool, true, false, ◌||◌, Option, none, some, List, [], ◌∷◌, ◌++◌, ◌==◌,
  if◌then◌else◌, eq_string, eq_iff, any, map, filter, not, arith, inl, inr, Bool-cases, ap,
}
use aether_v.WebSockets.{
  ConnectionManager, Message, payload, contains, disconnect, disconnect_all, failed_clients,
  send_all, topic_clients, connected_as, clients_to_send, broadcast,
}

abbrev listens : Option (List String) → String → Bool
listens none topic = false
listens (some topics) topic = contains topics topic || contains topics "all"

-- The broadcast is for a client with these topics.
abbrev pub is_for : Option String → Option (List String) → Bool
is_for none topics = true
is_for (some topic) topics = topic == "" || listens topics topic

get-connected_as :
    (c : String) (o : Option ℕ) (d : Dict String ℕ) (k : String)
    → Dict.get d c ≡ none
    → Dict.get (connected_as c o d) k ≡ (if c == k then o else Dict.get d k)
unfolding Dict.get
get-connected_as c none d k e = ground (arith, eq_iff c k)
get-connected_as c (some socket) d k e = refl

connected_as-IsDict :
    (c : String) (o : Option ℕ) (d : Dict String ℕ)
    → Dict.get d c ≡ none
    → IsDict d
    → IsDict (connected_as c o d)
connected_as-IsDict c none d e h = h
connected_as-IsDict c (some socket) d e h = (e, h)

get-topic_clients :
    (topic : String) (d : Dict String (List String)) (conns : Dict String ℕ) (k : String)
    → IsDict d
    → Dict.get (topic_clients topic d conns) k
      ≡ (if listens (Dict.get d k) topic then Dict.get conns k else none)
unfolding Dict.get
get-topic_clients topic [] conns k h = refl
get-topic_clients topic ((c, topics) ∷ d) conns k h = ground (
  arith,
  get-topic_clients topic d conns k h.1,
  get-topic_clients topic d conns c h.1,
  get-connected_as c (Dict.get conns c) (topic_clients topic d conns) k,
  eq_iff c k,
)

topic_clients-IsDict :
    (topic : String) (d : Dict String (List String)) (conns : Dict String ℕ)
    → IsDict d
    → IsDict (topic_clients topic d conns)
topic_clients-IsDict topic [] conns h = tt
topic_clients-IsDict topic ((c, topics) ∷ d) conns h =
    let later = topic_clients-IsDict topic d conns h.1 in
    elim (Bool-cases (contains topics topic || contains topics "all")) [
      | inl hears ↦ rw hears (
          connected_as-IsDict c (Dict.get conns c) (topic_clients topic d conns)
            (ground (arith, get-topic_clients topic d conns c h.1)) later)
      | inr deaf ↦ rw deaf later
    ]

abbrev pub kept {ℓ} : {V : Type ℓ} → (ℕ → Bool) → Option ℕ → Option V → Option V
kept broken none x = x
kept broken (some socket) x = if broken socket then none else x

abbrev gone : List String → String → Bool
gone cs c = any (λ k. k == c) cs

module _ {V : Type 0} where
  remove_all : List String → Dict String V → Dict String V
  remove_all [] d = d
  remove_all (c ∷ cs) d = remove_all cs (Dict.remove d c)

  get-remove_all :
      (cs : List String) (d : Dict String V) (k : String)
      → Dict.get (remove_all cs d) k ≡ (if gone cs k then none else Dict.get d k)
  unfolding remove_all
  get-remove_all [] d k = refl
  get-remove_all (c ∷ cs) d k =
      get-remove_all cs (Dict.remove d c) k ∙ ground (arith, get-remove d c k)

disconnect_all_lem :
    (cs : List String) (s : ConnectionManager)
    → disconnect_all cs s ≡ record s {
      active_connections = remove_all cs s.active_connections;
      subscriptions = remove_all cs s.subscriptions;
    }
unfolding remove_all disconnect
disconnect_all_lem [] s = refl
disconnect_all_lem (c ∷ cs) s = disconnect_all_lem cs (record s {
  active_connections = Dict.remove s.active_connections c;
  subscriptions = Dict.remove s.subscriptions c;
})

gone-failed_clients :
    {V : Type 0} (broken : ℕ → Bool) (d : Dict String ℕ) (k : String) (x : Option V)
    → IsDict d
    → (if gone (failed_clients broken d) k then none else x) ≡ kept broken (Dict.get d k) x
unfolding Dict.get
gone-failed_clients broken [] k x h = refl
gone-failed_clients broken ((c, socket) ∷ d) k x h =
    ground (arith, gone-failed_clients broken d k x h.1, eq_iff c k)

-- Each client whose socket is not broken is sent the message once.
sent_once :
    (broken : ℕ → Bool) (d : Dict String ℕ) (m : Message)
    → send_all broken d m ≡ map (λ p. (p.1, m)) (filter (λ p. not (broken p.1)) d)
sent_once broken [] m = refl
sent_once broken ((c, socket) ∷ d) m = elim (Bool-cases (broken socket)) [
  | inl cut ↦ rw (cut, sent_once broken d m) refl
  | inr works ↦ rw (works, sent_once broken d m) refl
]

clients_lem :
    (topic : Option String) (s : ConnectionManager)
    → IsDict s.active_connections
    → IsDict s.subscriptions
    → ((c : String)
        → Dict.get (clients_to_send topic s) c ≡ (
            if is_for topic (Dict.get s.subscriptions c)
            then Dict.get s.active_connections c
            else none))
      × IsDict (clients_to_send topic s)
clients_lem none s hc hs = (λ c. refl, hc)
clients_lem (some topic) s hc hs = elim (Bool-cases (topic == "")) [
  | inl empty ↦ rw empty (λ c. refl, hc)
  | inr named ↦ rw named (
    λ c. get-topic_clients topic s.subscriptions s.active_connections c hs,
    topic_clients-IsDict topic s.subscriptions s.active_connections hs,
  )
]

-- Where each client stands once among the connections and once among the subscriptions, a broadcast
-- is sent once to each connected client that it is for: every client if it has no topic,
-- and otherwise those subscribed to its topic or to "all". The sockets that are not broken take it,
-- after all that was sent before; the clients whose sockets are broken are disconnected and lose
-- their topics; and nothing changes for any other client.
pub broadcast_exact :
    (broken : ℕ → Bool) (message : Json) (topic : Option String) (s : ConnectionManager)
    → IsDict s.active_connections
    → IsDict s.subscriptions
    → let t = broadcast broken message topic s in
      let clients = clients_to_send topic s in
      ((c : String)
        → Dict.get clients c ≡ (
            if is_for topic (Dict.get s.subscriptions c)
            then Dict.get s.active_connections c
            else none))
      × IsDict clients
      × (t.sent
          ≡ s.sent ++ map (λ p. (p.1, payload message)) (filter (λ p. not (broken p.1)) clients))
      × ((c : String)
          → Dict.get t.active_connections c
            ≡ kept broken (Dict.get clients c) (Dict.get s.active_connections c))
      × ((c : String)
          → Dict.get t.subscriptions c
            ≡ kept broken (Dict.get clients c) (Dict.get s.subscriptions c))
unfolding broadcast
broadcast_exact broken message topic s hc hs =
    let clients = clients_to_send topic s in
    let failed = failed_clients broken clients in
    let (found, once) = clients_lem topic s hc hs in
    let cut_off =
      disconnect_all_lem failed
        (record s { sent = s.sent ++ send_all broken clients (payload message) }) in
    (
      found,
      once,
      ap (λ r. r.sent) cut_off ∙ ap (λ m. s.sent ++ m) (sent_once broken clients (payload message)),
      λ c.
          ap (λ r. Dict.get r.active_connections c) cut_off
          ∙ get-remove_all failed s.active_connections c
          ∙ gone-failed_clients broken clients c (Dict.get s.active_connections c) once,
      λ c.
          ap (λ r. Dict.get r.subscriptions c) cut_off
          ∙ get-remove_all failed s.subscriptions c
          ∙ gone-failed_clients broken clients c (Dict.get s.subscriptions c) once,
    )
