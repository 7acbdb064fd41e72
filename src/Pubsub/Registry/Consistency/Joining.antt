-- ===== src/Pubsub/Registry/Consistency/Joining.antt =====
-- The three maps of a registry across `new` and `register` of registry.rs.
use tightbeam_ext.Prelude.{
  ℕ, ◌+◌, ◌≤◌, ◌<◌, ◌≡◌, true, false, ◌&&◌, none, some, arith, length, is_nil, if◌then◌else◌,
  Option-cases, Bool-cases, inl, inr, ==_iff, ◌==◌,
}
use tightbeam_ext.Prelude.Map
use tightbeam_ext.Prelude.Map.{
  Map, Unique, get-insert, get-remove, get-modify, insert-Unique, remove-Unique, length-insert-le,
  length-remove-le, values, values_of_get, get_of_values,
}
use tightbeam_ext.Prelude.IdSet
use tightbeam_ext.Prelude.IdSet.{contains-insert, contains-is_nil}
use tightbeam_ext.Prelude.Keys.{nat_eq}
use tightbeam_ext.Prelude.Result.{Result}
use tightbeam_ext.Pubsub.Topic.{Topic, topic_eq, topic_beq, topic_beq_iff}
use tightbeam_ext.Pubsub.Registry.{
  Registry, RegistryOptions, ConnectionState, TopicState, new, RegisterError,
}
use tightbeam_ext.Pubsub.Registry.Lanes.{u64_mod, new_subscriber}
use tightbeam_ext.Pubsub.Registry.Members.{enlist, register}
use tightbeam_ext.Pubsub.Registry.Members.Registering.{
  Registers, is_draining, is_unknown, is_held, is_full, is_new, register-Registers,
}
use tightbeam_ext.Pubsub.Registry.Views.{enrolled, held, member, holds, place, Joined, Consistent}

module _ {Frame Handle : Type 0} where
  pub new-Consistent :
      (options : RegistryOptions) → Consistent (new {Frame = Frame} {Handle = Handle} options)
  unfolding new place enrolled held Map.get IdSet.contains
  new-Consistent options = record {
    joins = record { joined = λ id t c p. ground arith; owned = λ t id m. absurd (ground arith) };
    listed = λ id t c p. ground arith;
    placed = λ c t id p. ground arith;
    inhabited = λ t e p. ground arith;
    keyed = λ c e p. absurd (ground arith);
    fresh = λ id p. absurd (ground arith);
  }

  place-enlist :
      (r : Registry Frame Handle) (c j : ℕ) (t : Topic) (handle : Handle)
      → place (enlist r c t handle) j ≡ (if r.next_subscriber == j then some (t, c) else place r j)
  unfolding enlist place new_subscriber
  place-enlist r c j t handle =
      grind (arith, get-insert, contains-insert r.next_subscriber j r.subscribers)

  member-enlist :
      (r : Registry Frame Handle) (c j : ℕ) (t u : Topic) (handle : Handle)
      → member (enlist r c t handle) u j
        ≡ (if topic_beq t u && (r.next_subscriber == j) then true else member r u j)
  unfolding enlist enrolled IdSet.contains
  member-enlist r c j t u handle = elim (Option-cases (Map.get t r.topics)) [
    | inl e ↦ rw (e, enlist) (grind (arith, get-insert, topic_beq_iff t u, contains-insert))
    | inr (entry, e) ↦
        rw (e, enlist) (grind (arith, get-insert, topic_beq_iff t u, contains-insert))
  ]

  pub holds-enlist :
      (r : Registry Frame Handle) (c c' : ℕ) (t u : Topic) (handle : Handle)
      (connected : ConnectionState Handle)
      → Map.get c r.connections ≡ some connected
      → holds (enlist r c t handle) c' u
        ≡ (if (c == c') && topic_beq t u then some r.next_subscriber else holds r c' u)
  unfolding enlist held
  holds-enlist r c c' t u handle connected e =
      grind (arith, get-modify, get-insert, ==_iff c c', topic_beq_iff t u)

  -- The next id is not in use.
  pub next_unused : (r : Registry Frame Handle) → Consistent r → place r r.next_subscriber ≡ none
  unfolding place
  next_unused r v = elim (Bool-cases (IdSet.contains r.next_subscriber r.subscribers)) [
    | inl e ↦ let below = v.fresh r.next_subscriber e in absurd (omega arith)
    | inr e ↦ grind arith
  ]

  enlist-topics :
      (r : Registry Frame Handle) (c : ℕ) (t u : Topic) (handle : Handle) (entry : TopicState)
      → Consistent r
      → Map.get u (enlist r c t handle).topics ≡ some entry
      → is_nil entry.members ≡ false
  unfolding enlist
  enlist-topics r c t u handle entry v h = elim (Bool-cases (topic_beq t u)) [
    | inl e ↦ contains-is_nil r.next_subscriber entry.members (
        grind (
          arith,
          get-insert,
          topic_beq_iff t u,
          contains-insert,
          ==_iff r.next_subscriber r.next_subscriber,
        ))
    | inr e ↦ v.inhabited u entry (grind (arith, get-insert))
  ]

  module _ (r : Registry Frame Handle) (c : ℕ) (t : Topic) (connected : ConnectionState Handle)
      (v : Consistent r) (known : Map.get c r.connections ≡ some connected)
      (new_topic : Map.get t connected.topics ≡ none)
      (room : length connected.topics < r.options.max_subscriptions_per_connection)
      (ids_left : r.next_subscriber + 1 < u64_mod) where
    enlist-Joined : Joined (enlist r c t connected.handle)
    enlist-Joined = record {
      joined = λ j u c' p. grind (
        arith,
        place-enlist r c j t connected.handle,
        member-enlist r c j t u connected.handle,
        topic_beq_iff t u,
        v.joins.joined j u c',
      );
      owned = λ u j m. elim (Bool-cases (topic_beq t u && (r.next_subscriber == j))) [
        | inl e ↦ (c, grind (arith, place-enlist r c j t connected.handle, topic_beq_iff t u))
        | inr e ↦
            let (c', p) =
              v.joins.owned u j (grind (arith, member-enlist r c j t u connected.handle)) in
            (
              c',
              grind (
                arith,
                place-enlist r c j t connected.handle,
                next_unused r v,
                ==_iff r.next_subscriber j,
              ),
            )
      ];
    }

    enlist-keyed :
        (c' : ℕ) (connected' : ConnectionState Handle)
        → Map.get c' (enlist r c t connected.handle).connections ≡ some connected'
        → Unique connected'.topics
          × (length connected'.topics ≤ r.options.max_subscriptions_per_connection)
          × (c' < r.next_connection)
    unfolding enlist
    enlist-keyed c' connected' h =
        let (keys, cap, below) = v.keyed c connected known in
        let more : ConnectionState Handle = record connected {
          topics = Map.insert t r.next_subscriber connected.topics;
        } in
        let seen =
          get-modify c c'
            (λ (x : ConnectionState Handle). record x {
              topics = Map.insert t r.next_subscriber x.topics;
            })
            r.connections in
        elim (Bool-cases (c == c')) [
          | inl same ↦
              let cc' = (==_iff c c').0 same in
              let it : more ≡ connected' = grind arith in
              rw (← it, ← cc')
                (
                  insert-Unique t r.next_subscriber connected.topics keys,
                  omega (arith, length-insert-le t r.next_subscriber connected.topics),
                  below,
                )
          | inr other ↦ v.keyed c' connected' (grind arith)
        ]

    no_hold : holds r c t ≡ none
    unfolding held
    no_hold = rw (known, held) new_topic

    enlist-fresh :
        (j : ℕ)
        → IdSet.contains j (enlist r c t connected.handle).subscribers ≡ true
        → j < (enlist r c t connected.handle).next_subscriber
    unfolding enlist
    enlist-fresh j h = grind (
      arith,
      contains-insert r.next_subscriber j r.subscribers,
      ==_iff r.next_subscriber j,
      v.fresh j,
    )

    enlisted_keyed :
        (c' : ℕ) (connected' : ConnectionState Handle)
        → Map.get c' (enlist r c t connected.handle).connections ≡ some connected'
        → Unique connected'.topics
          × (length connected'.topics
              ≤ (enlist r c t connected.handle).options.max_subscriptions_per_connection)
          × (c' < (enlist r c t connected.handle).next_connection)
    unfolding enlist
    enlisted_keyed c' connected' h = enlist-keyed c' connected' h

    enlist-Consistent : Consistent (enlist r c t connected.handle)
    enlist-Consistent = record {
      joins = enlist-Joined;
      listed = λ j u c' p. grind (
        arith,
        place-enlist r c j t connected.handle,
        holds-enlist r c c' t u connected.handle connected known,
        next_unused r v,
        v.listed j u c',
        v.placed c t,
        no_hold,
        topic_beq_iff t u,
        ==_iff c c',
      );
      placed = λ c' u j h. grind (
        arith,
        place-enlist r c j t connected.handle,
        holds-enlist r c c' t u connected.handle connected known,
        next_unused r v,
        v.placed c' u j,
        topic_beq_iff t u,
        ==_iff c c',
        ==_iff r.next_subscriber j,
      );
      inhabited = λ u entry h. enlist-topics r c t u connected.handle entry v h;
      keyed = λ c' connected' h. enlisted_keyed c' connected' h;
      fresh = λ j h. enlist-fresh j h;
    }

  -- Subscribing keeps the maps in agreement.
  pub register-Consistent :
      (r : Registry Frame Handle) (c : ℕ) (t : Topic)
      → Consistent r
      → r.next_subscriber + 1 < u64_mod
      → Consistent (register r c t).0
  register-Consistent r c t v h = kept (register-Registers r c t)
    where
      kept :
          {r' : Registry Frame Handle} {a : Result ℕ RegisterError}
          → Registers r c t r' a
          → Consistent r'
      kept (is_draining _) = v
      kept (is_unknown _ _) = v
      kept (is_held _ _ _ _ _) = v
      kept (is_full _ _ _ _ _) = v
      kept (is_new connected _ e g room) = enlist-Consistent r c t connected v e g room h
