-- ===== src/Pubsub/Registry/Members/Registering.antt =====
-- registry.rs: the ways in which `register` ends.
use tightbeam_ext.Prelude.{
  ℕ, ◌≤◌, ◌<◌, ◌≡◌, sym, subst, true, false, none, some, arith, length, Option-cases, Bool-cases,
  inl, inr, leb,
}
use tightbeam_ext.Prelude.Map
use tightbeam_ext.Prelude.Map.{
  Map, Unique, get-insert, get-remove, get-modify, insert-Unique, remove-Unique, length-insert-le,
  length-remove-le, values, values_of_get, get_of_values,
}
use tightbeam_ext.Prelude.Keys.{nat_eq}
use tightbeam_ext.Prelude.Result.{Result, ok, err}
use tightbeam_ext.Pubsub.Topic.{Topic, topic_eq}
use tightbeam_ext.Pubsub.Registry.{
  Registry, ConnectionState, RegisterError, unknown_connection, limit_reached,
}
use tightbeam_ext.Pubsub.Registry.Members.{enlist, register}

module _ {Frame Handle : Type 0} where
  module _ (r : Registry Frame Handle) (c : ℕ) (t : Topic) where
    register_draining : r.draining ≡ true → register r c t ≡ (r, err RegisterError.draining)
    unfolding register
    register_draining d = simp d

    module _ (d : r.draining ≡ false) where
      register_unknown :
          Map.get c r.connections ≡ none → register r c t ≡ (r, err unknown_connection)
      unfolding register
      register_unknown e = simp (d, e)

      module _ (connected : ConnectionState Handle) where
        register_held :
            (id : ℕ)
            → Map.get c r.connections ≡ some connected
            → Map.get t connected.topics ≡ some id
            → register r c t ≡ (r, ok id)
        unfolding register
        register_held id e g = simp (d, e, g)

        register_full :
            Map.get c r.connections ≡ some connected
            → Map.get t connected.topics ≡ none
            → leb r.options.max_subscriptions_per_connection (length connected.topics) ≡ true
            → register r c t ≡ (r, err limit_reached)
        unfolding register
        register_full e g full = simp (d, e, g, full)

        register_new :
            Map.get c r.connections ≡ some connected
            → Map.get t connected.topics ≡ none
            → leb r.options.max_subscriptions_per_connection (length connected.topics) ≡ false
            → register r c t ≡ (enlist r c t connected.handle, ok r.next_subscriber)
        unfolding register
        register_new e g room = simp (d, e, g, room)

  -- The ways in which `register` ends.
  pub data Registers (r : Registry Frame Handle) (c : ℕ) (t : Topic)
      : Registry Frame Handle → Result ℕ RegisterError → Type 0 where
    is_draining : r.draining ≡ true → Registers r c t r (err RegisterError.draining)
    is_unknown :
        r.draining ≡ false
        → Map.get c r.connections ≡ none
        → Registers r c t r (err unknown_connection)
    is_held :
        (connected : ConnectionState Handle) (id : ℕ)
        → r.draining ≡ false
        → Map.get c r.connections ≡ some connected
        → Map.get t connected.topics ≡ some id
        → Registers r c t r (ok id)
    is_full :
        (connected : ConnectionState Handle)
        → r.draining ≡ false
        → Map.get c r.connections ≡ some connected
        → Map.get t connected.topics ≡ none
        → r.options.max_subscriptions_per_connection ≤ length connected.topics
        → Registers r c t r (err limit_reached)
    is_new :
        (connected : ConnectionState Handle)
        → r.draining ≡ false
        → Map.get c r.connections ≡ some connected
        → Map.get t connected.topics ≡ none
        → length connected.topics < r.options.max_subscriptions_per_connection
        → Registers r c t (enlist r c t connected.handle) (ok r.next_subscriber)

  -- `register` ends in one of five ways: it refuses if the registry drains, if it does not know the
  -- connection, or if the topic is new to a connection at its limit; it gives the id that the
  -- connection holds already and changes nothing; or it enlists the next id.
  pub register-Registers :
      (r : Registry Frame Handle) (c : ℕ) (t : Topic)
      → Registers r c t (register r c t).0 (register r c t).1
  register-Registers r c t = elim (Bool-cases r.draining) [
    | inl d ↦ by (register_draining r c t d) (is_draining d)
    | inr d ↦ elim (Option-cases (Map.get c r.connections)) [
      | inl e ↦ by (register_unknown r c t d e) (is_unknown d e)
      | inr (connected, e) ↦ elim (Option-cases (Map.get t connected.topics)) [
        | inr (id, g) ↦ by (register_held r c t d connected id e g) (is_held connected id d e g)
        | inl g ↦
            elim (Bool-cases
              (leb r.options.max_subscriptions_per_connection (length connected.topics))) [
                | inl full ↦
                    by (register_full r c t d connected e g full)
                      (is_full connected d e g (ground arith))
                | inr room ↦
                    by (register_new r c t d connected e g room)
                      (is_new connected d e g (ground arith))
              ]
      ]
    ]
  ]
    where
      by :
          {r' : Registry Frame Handle} {a : Result ℕ RegisterError}
          → register r c t ≡ (r', a)
          → Registers r c t r' a
          → Registers r c t (register r c t).0 (register r c t).1
      by {r'} {a} e x =
          subst (λ (y : Registry Frame Handle × Result ℕ RegisterError). Registers r c t y.0 y.1)
            (sym e) x
