-- ===== src/WebSockets/Topics.antt =====
-- The topics of the clients of server/app/services/websocket_service.py.
use aether_v.Prelude.Dict
use aether_v.Prelude.Dict.{get-put}
use aether_v.Prelude.Json.{Json}
use aether_v.Prelude.{
  String, ◌≡◌, refl, ◌∙◌, Bool, false, ◌&&◌, ◌||◌, not, Option, none, some, List, [], ◌∷◌, ◌++◌,
  ◌==◌, eq_string, eq_iff, filter, is_some, arith, Option-cases, inl, inr, Bool-cases,
}
use aether_v.WebSockets.{
  ConnectionManager, contains, add_topics, drop_topics, iterate, subscribe, unsubscribe,
  with_topics,
}

contains-append :
    (ts : List String) (u t : String) → contains (ts ++ u ∷ []) t ≡ (contains ts t || u == t)
contains-append [] u t = ground arith
contains-append (x ∷ ts) u t = ground (arith, contains-append ts u t)

contains-add_topics :
    (ts new : List String) (t : String)
    → contains (add_topics ts new) t ≡ (contains ts t || contains new t)
contains-add_topics ts [] t = ground arith
contains-add_topics ts (u ∷ new) t = elim (Bool-cases (contains ts u)) [
  | inl old ↦ rw old (contains-add_topics ts new t ∙ ground (arith, eq_iff u t))
  | inr fresh ↦
      rw fresh (contains-add_topics (ts ++ u ∷ []) new t ∙ ground (arith, contains-append ts u t))
]

contains-filter :
    (ts : List String) (u t : String)
    → contains (filter (λ v. not (v == u)) ts) t ≡ (contains ts t && not (u == t))
contains-filter [] u t = refl
contains-filter (x ∷ ts) u t =
    ground (arith, contains-filter ts u t, eq_iff x u, eq_iff x t, eq_iff u t)

contains-drop_topics :
    (ts gone : List String) (t : String)
    → contains (drop_topics ts gone) t ≡ (contains ts t && not (contains gone t))
contains-drop_topics ts [] t = ground arith
contains-drop_topics ts (u ∷ gone) t =
    contains-drop_topics (filter (λ v. not (v == u)) ts) gone t
    ∙ ground (arith, contains-filter ts u t)

-- The client is known, and has the topic.
abbrev pub has_topic : Option (List String) → String → Bool
has_topic none t = false
has_topic (some topics) t = contains topics t

abbrev pub topics_in : ConnectionManager → String → Option (List String)
topics_in s c = Dict.get s.subscriptions c

-- Whatever value the client sends: after `subscribe` a client has just the topics that it had
-- before, and, if it is the known client that subscribes, the texts in the value up to a part that
-- cannot be hashed; after `unsubscribe` the client has lost these texts, and no other client has
-- lost or gained any.
pub subscriptions_exact :
    (s : ConnectionManager) (client_id : String) (value : Json) (c t : String)
    → (has_topic (topics_in (subscribe client_id value s).0 c) t ≡ (
        has_topic (topics_in s c) t
        || (client_id == c && is_some (topics_in s c) && contains (iterate value).0 t)))
      × (has_topic (topics_in (unsubscribe client_id value s).0 c) t
          ≡ (has_topic (topics_in s c) t && not (client_id == c && contains (iterate value).0 t)))
unfolding subscribe unsubscribe
subscriptions_exact s client_id value c t = elim (Option-cases (topics_in s client_id)) [
  | inl unknown ↦
      rw (unknown, with_topics)
        (ground (arith, eq_iff client_id c), ground (arith, eq_iff client_id c))
  | inr (old, known) ↦
      let (new, raises) = iterate value in
      rw (known, with_topics)
        (
          ground (
            arith,
            get-put s.subscriptions client_id (add_topics old new) c,
            eq_iff client_id c,
            contains-add_topics old new t,
          ),
          ground (
            arith,
            get-put s.subscriptions client_id (drop_topics old new) c,
            eq_iff client_id c,
            contains-drop_topics old new t,
          ),
        )
]
