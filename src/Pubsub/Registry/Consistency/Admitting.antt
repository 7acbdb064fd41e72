-- ===== src/Pubsub/Registry/Consistency/Admitting.antt =====
-- The three maps of a registry across `admit_connection` of registry.rs.
use tightbeam_ext.Prelude.{
  ℕ, ◌+◌, ◌%◌, ◌≤◌, ◌<◌, ◌≡◌, sym, ◌∙◌, Option, none, some, [], arith, length, Option-cases,
  Bool-cases, inl, inr, ==_iff, ◌==◌, Bytes,
}
use tightbeam_ext.Prelude.Map
use tightbeam_ext.Prelude.Map.{
  Map, Unique, get-insert, get-remove, get-modify, insert-Unique, remove-Unique, length-insert-le,
  length-remove-le, values, values_of_get, get_of_values,
}
use tightbeam_ext.Prelude.Keys.{nat_eq}
use tightbeam_ext.Pubsub.Topic.{Topic, topic_eq}
use tightbeam_ext.Pubsub.Registry.{Registry, ConnectionState}
use tightbeam_ext.Pubsub.Registry.Lanes.{u64_mod}
use tightbeam_ext.Pubsub.Registry.Members.{admit_connection}
use tightbeam_ext.Pubsub.Registry.Views.{held, holds, place, Consistent}

module _ {Frame Handle : Type 0} where
  module _ (r : Registry Frame Handle) (handle : Handle) (identity : Option Bytes) where
    abbrev admitted : ConnectionState Handle
    admitted = record { handle = handle; identity = identity; topics = [] }

    -- The next connection id is not in use, so nobody holds a topic under it.
    no_next : Consistent r → Map.get r.next_connection r.connections ≡ none
    no_next v = elim (Option-cases (Map.get r.next_connection r.connections)) [
      | inl e ↦ e
      | inr (connected, e) ↦
          let (keys, cap, below) = v.keyed r.next_connection connected e in absurd (omega arith)
    ]

    held-admit :
        (c : ℕ) (t : Topic)
        → Consistent r
        → held (Map.insert r.next_connection admitted r.connections) c t ≡ holds r c t
    unfolding held Map.get
    held-admit c t v = ground (
      arith,
      get-insert r.next_connection c admitted r.connections,
      ==_iff r.next_connection c,
      no_next v,
    )

    keyed_still :
        (c : ℕ) (connected : ConnectionState Handle)
        → Consistent r
        → r.next_connection + 1 < u64_mod
        → Map.get c (Map.insert r.next_connection admitted r.connections) ≡ some connected
        → Unique connected.topics
          × (length connected.topics ≤ r.options.max_subscriptions_per_connection)
          × (c < (r.next_connection + 1) % u64_mod)
    keyed_still c connected v h p = elim (Bool-cases (r.next_connection == c)) [
      | inl same ↦
          let it : admitted ≡ connected =
            ground (arith, get-insert r.next_connection c admitted r.connections) in
          rw (← it) (tt, omega arith, grind (arith, ==_iff r.next_connection c))
      | inr other ↦
          let (keys, cap, below) =
            v.keyed c connected
              (ground (arith, get-insert r.next_connection c admitted r.connections)) in
          (keys, cap, omega arith)
    ]

  -- Admitting a connection keeps the maps in agreement.
  pub admit_connection-Consistent :
      (r : Registry Frame Handle) (handle : Handle) (identity : Option Bytes)
      → Consistent r
      → r.next_connection + 1 < u64_mod
      → Consistent (admit_connection r handle identity).0
  unfolding admit_connection place
  admit_connection-Consistent r handle identity v h = record {
    joins = record { joined = v.joins.joined; owned = v.joins.owned };
    listed = λ id t c p. held-admit r handle identity c t v ∙ v.listed id t c p;
    placed = λ c t id p. v.placed c t id (sym (held-admit r handle identity c t v) ∙ p);
    inhabited = v.inhabited;
    keyed = λ c connected p. keyed_still r handle identity c connected v h p;
    fresh = v.fresh;
  }
