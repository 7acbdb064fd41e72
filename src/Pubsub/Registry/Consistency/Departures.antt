-- ===== src/Pubsub/Registry/Consistency/Departures.antt =====
-- registry.rs: what is left of a subscription after `unregister` and of a connection after
-- `drop_connection`.
use tightbeam_ext.Prelude.{
  ℕ, ◌≡◌, ◌≢◌, refl, ◌∙◌, ◌&&◌, none, some, List, [], ◌∷◌, arith, is_some, Option-cases, Bool-cases,
  inl, inr, ==_iff, ◌==◌, if◌then◌else◌,
}
use tightbeam_ext.Prelude.Map
use tightbeam_ext.Prelude.Map.{Map, get-insert, get-remove, values}
use tightbeam_ext.Prelude.Keys.{nat_eq}
use tightbeam_ext.Pubsub.Topic.{Topic, topic_eq, topic_beq, topic_beq_iff}
use tightbeam_ext.Pubsub.Registry.{Registry}
use tightbeam_ext.Pubsub.Registry.Members.{
  unregister, remove_subscriber, remove_all, drop_connection, member_identity,
}
use tightbeam_ext.Pubsub.Registry.Views.{holds, held, place, Consistent}
use tightbeam_ext.Pubsub.Registry.Consistency.Leaving.{drop_connection-Consistent}

module _ {Frame Handle : Type 0} where
  remove_subscriber-connections :
      (r : Registry Frame Handle) (id : ℕ) → (remove_subscriber r id).connections ≡ r.connections
  unfolding remove_subscriber
  remove_subscriber-connections r id = ground arith

  remove_all-connections :
      (r : Registry Frame Handle) (ids : List ℕ) → (remove_all r ids).connections ≡ r.connections
  unfolding remove_all
  remove_all-connections r [] = refl
  remove_all-connections r (id ∷ ids) =
      remove_all-connections (remove_subscriber r id) ids ∙ remove_subscriber-connections r id

  -- `unregister` answers whether the connection held the topic, leaves it without it, and leaves
  -- every other subscription of every connection.
  pub unregister-holds :
      (r : Registry Frame Handle) (c : ℕ) (t : Topic)
      → ((unregister r c t).1 ≡ is_some (holds r c t))
        × ((c' : ℕ) (u : Topic)
            → holds (unregister r c t).0 c' u
              ≡ (if (c == c') && topic_beq t u then none else holds r c' u))
  unfolding held unregister
  unregister-holds r c t = elim (Option-cases (Map.get c r.connections)) [
    | inl e ↦ (
      ground arith,
      λ c' u. elim (Bool-cases (c == c')) [
        | inl same ↦ let is_c = (==_iff c c').0 same in rw (e, unregister) (grind (arith, e, is_c))
        | inr other ↦ rw (e, unregister, other) refl
      ],
    )
    | inr (connected, e) ↦ elim (Option-cases (Map.get t connected.topics)) [
      | inl g ↦ (
        ground arith,
        λ c' u. rw (e, g, unregister) (grind (arith, e, g, ==_iff c c', topic_beq_iff t u)),
      )
      | inr (id, g) ↦ (
        ground arith,
        λ c' u.
            rw (e, g, unregister)
              (grind (
                arith,
                e,
                g,
                ==_iff c c',
                topic_beq_iff t u,
                get-insert c c' (record connected { topics = Map.remove t connected.topics })
                    r.connections,
                get-remove t u connected.topics,
                remove_subscriber-connections,
              )),
      )
    ]
  ]

  pub drop_connection-connections :
      (r : Registry Frame Handle) (c c' : ℕ)
      → Map.get c' (drop_connection r c).connections
        ≡ (if c == c' then none else Map.get c' r.connections)
  unfolding drop_connection
  drop_connection-connections r c c' =
      grind (arith, remove_all-connections, get-remove c c' r.connections, ==_iff c c')

  -- If the maps of the registry agree, a dropped connection has no standing and no subscription:
  -- the registry no longer knows it, no live subscriber is its own, and every other connection
  -- is as it was.
  pub drop_connection-forgets :
      (r : Registry Frame Handle) (c : ℕ)
      → Consistent r
      → let r' = drop_connection r c in
        (member_identity r' c ≡ none)
        × ((id : ℕ) (t : Topic) → place r' id ≢ some (t, c))
        × ((c' : ℕ) → c' ≢ c → Map.get c' r'.connections ≡ Map.get c' r.connections)
  unfolding member_identity held
  drop_connection-forgets r c v =
      let r' = drop_connection r c in
      let gone : Map.get c r'.connections ≡ none =
        grind (arith, drop_connection-connections r c c, ==_iff c c) in
      (
        rw gone refl,
        λ id t p.
            let still : holds r' c t ≡ some id =
              (drop_connection-Consistent r c v).listed id t c p in
            absurd (grind (arith, gone, still)),
        λ c' other. grind (arith, drop_connection-connections r c c', ==_iff c c'),
      )
