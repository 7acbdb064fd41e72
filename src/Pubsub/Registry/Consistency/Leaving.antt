-- ===== src/Pubsub/Registry/Consistency/Leaving.antt =====
-- The three maps of a registry across `unregister` and `drop_connection` of registry.rs.
use tightbeam_ext.Prelude.{
  ℕ, ◌≤◌, ◌<◌, ◌≡◌, ◌↔◌, refl, ◌∙◌, Bool, true, false, none, some, [], ◌∷◌, arith, length, is_nil,
  if◌then◌else◌, Option-cases, Bool-cases, inl, inr, ==_iff, ◌==◌,
}
use tightbeam_ext.Prelude.Map
use tightbeam_ext.Prelude.Map.{
  Map, Unique, get-insert, get-remove, get-modify, insert-Unique, remove-Unique, length-insert-le,
  length-remove-le, values, values_of_get, get_of_values,
}
use tightbeam_ext.Prelude.IdSet
use tightbeam_ext.Prelude.IdSet.{contains-insert, contains-is_nil}
use tightbeam_ext.Prelude.Keys.{nat_eq}
use tightbeam_ext.Pubsub.Topic.{Topic, topic_eq, topic_beq_iff}
use tightbeam_ext.Pubsub.Registry.{Registry, ConnectionState, TopicState}
use tightbeam_ext.Pubsub.Registry.Members.{
  unregister, remove_subscriber, remove_all, drop_connection,
}
use tightbeam_ext.Pubsub.Registry.Views.{held, holds, place, Joined, Consistent}
use tightbeam_ext.Pubsub.Registry.Views.Steps.{remove_all-Forgets, remove_subscriber-Forgets}

module _ {Frame Handle : Type 0} where
  -- What a connection holds, when subscriptions go and the connection map changes in step.
  Consistent-forget :
      (r r' : Registry Frame Handle) (gone : ℕ → Bool)
      → Consistent r
      → Joined r'
      → ((j : ℕ) → place r' j ≡ (if gone j then none else place r j))
      → ((c : ℕ) (t : Topic) (j : ℕ)
          → (holds r' c t ≡ some j) ↔ ((holds r c t ≡ some j) × (gone j ≡ false)))
      → ((t : Topic) (e : TopicState) → Map.get t r'.topics ≡ some e → is_nil e.members ≡ false)
      → ((c : ℕ) (connected : ConnectionState Handle)
          → Map.get c r'.connections ≡ some connected
          → Unique connected.topics
            × (length connected.topics ≤ r'.options.max_subscriptions_per_connection)
            × (c < r'.next_connection))
      → ((id : ℕ) → IdSet.contains id r'.subscribers ≡ true → id < r'.next_subscriber)
      → Consistent r'
  Consistent-forget r r' gone v joins left held_left inhabited keyed fresh = record {
    joins = joins;
    listed = λ id t c p.
        (held_left c t id).1 (grind (arith, left id, v.listed id t c), ground (arith, left id));
    placed = λ c t id p.
        let (q, g) = (held_left c t id).0 p in ground (arith, left id, v.placed c t id q);
    inhabited = inhabited;
    keyed = keyed;
    fresh = fresh;
  }

  place-connections :
      (r : Registry Frame Handle) (m : Map ℕ (ConnectionState Handle)) (j : ℕ)
      → place (record r { connections = m }) j ≡ place r j
  unfolding place
  place-connections r m j = refl

  Joined-connections :
      (r : Registry Frame Handle) (m : Map ℕ (ConnectionState Handle))
      → Joined r
      → Joined (record r { connections = m })
  unfolding place
  Joined-connections r m h = record { joined = h.joined; owned = h.owned }

  -- What stands among a connection's topics is a subscription of that connection.
  values-place :
      (r : Registry Frame Handle) (c j : ℕ) (connected : ConnectionState Handle)
      → Consistent r
      → Map.get c r.connections ≡ some connected
      → IdSet.contains j (values connected.topics) ≡ true
      → (t : Topic) × (place r j ≡ some (t, c))
  unfolding held
  values-place r c j connected v e h =
      let (t, g) = get_of_values j connected.topics (v.keyed c connected e).0 h in
      (t, v.placed c t j (rw (e, held) g))

  drop_held :
      (r r' : Registry Frame Handle) (c c' j : ℕ) (t : Topic) (connected : ConnectionState Handle)
      → Consistent r
      → Map.get c r.connections ≡ some connected
      → r'.connections ≡ Map.remove c r.connections
      → (holds r' c' t ≡ some j)
        ↔ ((holds r c' t ≡ some j) × (IdSet.contains j (values connected.topics) ≡ false))
  unfolding held
  drop_held r r' c c' j t connected v e q = (
    λ h.
        let old : holds r c' t ≡ some j = grind (arith, get-remove c c' r.connections) in
        let here = v.placed c' t j old in
        (
          old,
          elim (Bool-cases (IdSet.contains j (values connected.topics))) [
            | inl g ↦
                let (t2, there) = values-place r c j connected v e g in
                absurd (grind (arith, get-remove c c' r.connections))
            | inr g ↦ g
          ],
        ),
    λ h.
        grind
          (arith, get-remove c c' r.connections, values_of_get t j connected.topics, ==_iff c c'),
  )

  -- Dropping a connection keeps the maps in agreement.
  pub drop_connection-Consistent :
      (r : Registry Frame Handle) (c : ℕ) → Consistent r → Consistent (drop_connection r c)
  unfolding drop_connection
  drop_connection-Consistent r c v = elim (Option-cases (Map.get c r.connections)) [
    | inl e ↦ rw (e, drop_connection) v
    | inr (connected, e) ↦ rw (e, drop_connection) (dropped connected e)
  ]
    where
      dropped :
          (connected : ConnectionState Handle)
          → Map.get c r.connections ≡ some connected
          → Consistent (
              remove_all
                (record r { connections = Map.remove c r.connections })
                (values connected.topics))
      dropped connected e =
          let base : Registry Frame Handle = record r {
            connections = Map.remove c r.connections;
          } in
          let m = Map.remove c r.connections in
          let last = remove_all base (values connected.topics) in
          let f =
            remove_all-Forgets base (values connected.topics) (Joined-connections r m v.joins) in
          Consistent-forget r last (λ j. IdSet.contains j (values connected.topics)) v f.joins
            (λ j. f.place_left j ∙ rw (place-connections r m j) refl)
            (λ c' t j. drop_held r last c c' j t connected v e f.same.0) (f.inhabited v.inhabited)
            (λ c' connected' g.
              let old : Map.get c' r.connections ≡ some connected' =
                grind (arith, f.same, get-remove c c' r.connections) in
              let (unique, capped, below) = v.keyed c' connected' old in
              (unique, grind (arith, f.same), grind (arith, f.same)))
            (λ j g. let below = v.fresh j (f.still j g) in grind (arith, f.same))

  leave_held :
      (r r' : Registry Frame Handle) (c c' id j : ℕ) (t t' : Topic)
      (connected : ConnectionState Handle)
      → Consistent r
      → Map.get c r.connections ≡ some connected
      → Map.get t connected.topics ≡ some id
      → r'.connections
        ≡ Map.insert c (record connected { topics = Map.remove t connected.topics }) r.connections
      → (holds r' c' t' ≡ some j)
        ↔ ((holds r c' t' ≡ some j) × (IdSet.contains j (id ∷ []) ≡ false))
  unfolding held IdSet.contains
  leave_held r r' c c' id j t t' connected v e g q =
      let less : ConnectionState Handle = record connected {
        topics = Map.remove t connected.topics;
      } in
      let seen = get-insert c c' less r.connections in
      let kept = get-remove t t' connected.topics in
      let here = v.placed c t id (rw (e, held) g) in
      (
        λ h.
            let old : holds r c' t' ≡ some j = grind (arith, seen, kept, ==_iff c c') in
            let there = v.placed c' t' j old in
            (old, grind (arith, seen, kept, ==_iff c c', ==_iff id j, topic_beq_iff t t')),
        λ h. grind (arith, seen, kept, ==_iff c c', ==_iff id j, topic_beq_iff t t'),
      )

  less_keyed :
      (r : Registry Frame Handle) (c c' : ℕ) (t : Topic)
      (connected connected' : ConnectionState Handle)
      → Consistent r
      → Map.get c r.connections ≡ some connected
      → Map.get c'
          (Map.insert c (record connected { topics = Map.remove t connected.topics }) r.connections)
        ≡ some connected'
      → Unique connected'.topics
        × (length connected'.topics ≤ r.options.max_subscriptions_per_connection)
        × (c' < r.next_connection)
  less_keyed r c c' t connected connected' v e q =
      let less : ConnectionState Handle = record connected {
        topics = Map.remove t connected.topics;
      } in
      let seen = get-insert c c' less r.connections in
      let (keys, cap, below) = v.keyed c connected e in
      elim (Bool-cases (c == c')) [
        | inl same ↦
            let it : less ≡ connected' = grind arith in
            let cc' = (==_iff c c').0 same in
            rw (← it, ← cc')
              (
                remove-Unique t connected.topics keys,
                omega (arith, length-remove-le t connected.topics),
                below,
              )
        | inr other ↦ v.keyed c' connected' (grind arith)
      ]

  -- Unregistering keeps the maps in agreement.
  pub unregister-Consistent :
      (r : Registry Frame Handle) (c : ℕ) (t : Topic)
      → Consistent r
      → Consistent (unregister r c t).0
  unfolding unregister
  unregister-Consistent r c t v = elim (Option-cases (Map.get c r.connections)) [
    | inl e ↦ rw (e, unregister) v
    | inr (connected, e) ↦ elim (Option-cases (Map.get t connected.topics)) [
      | inl g ↦ rw (e, g, unregister) v
      | inr (id, g) ↦ rw (e, g, unregister) (left connected id e g)
    ]
  ]
    where
      left :
          (connected : ConnectionState Handle) (id : ℕ)
          → Map.get c r.connections ≡ some connected
          → Map.get t connected.topics ≡ some id
          → Consistent (
              remove_subscriber
                (record r {
                  connections =
                      Map.insert c
                        (record connected { topics = Map.remove t connected.topics })
                        r.connections;
                })
                id)
      left connected id e g =
          let less : ConnectionState Handle = record connected {
            topics = Map.remove t connected.topics;
          } in
          let m = Map.insert c less r.connections in
          let base : Registry Frame Handle = record r { connections = m } in
          let last = remove_subscriber base id in
          let f = remove_subscriber-Forgets base id (Joined-connections r m v.joins) in
          Consistent-forget r last (λ j. IdSet.contains j (id ∷ [])) v f.joins
            (λ j. f.place_left j ∙ rw (place-connections r m j) refl)
            (λ c' t' j. leave_held r last c c' id j t t' connected v e g f.same.0)
            (f.inhabited v.inhabited)
            (λ c' connected' q.
              let (keys, cap, below) =
                less_keyed r c c' t connected connected' v e (grind (arith, f.same)) in
              (keys, grind (arith, f.same), grind (arith, f.same)))
            (λ j q. let below = v.fresh j (f.still j q) in grind (arith, f.same))
