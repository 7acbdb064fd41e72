-- ===== src/Pubsub/Registry/Runs/Arcs.antt =====
-- registry.rs: what the calls that take subscribers away do to each, for a relation between a
-- subscriber and what becomes of it.
use tightbeam_ext.Prelude.{
  ℕ, ◌≡◌, refl, sym, subst, Option, none, some, List, [], ◌∷◌, arith, Option-cases, Bool-cases, inl,
  inr, ==_iff, ◌==◌,
}
use tightbeam_ext.Prelude.Map
use tightbeam_ext.Prelude.Map.{Map, get-insert, values}
use tightbeam_ext.Prelude.Keys.{nat_eq}
use tightbeam_ext.Pubsub.Topic.{Topic, topic_eq}
use tightbeam_ext.Pubsub.Registry.{Registry, Subscriber, live}
use tightbeam_ext.Pubsub.Registry.Lanes.{close}
use tightbeam_ext.Pubsub.Registry.Members.{
  unregister, remove_subscriber, remove_all, drop_connection,
}
use tightbeam_ext.Pubsub.Registry.Consistency.Lanewise.{live-get}

-- Both missing, or both there and related.
abbrev pub Both : {A : Type 0} → (A → A → Type 0) → Option A → Option A → Type 0
Both Rel none none = Unit {0}
Both Rel (some a) (some b) = Rel a b
Both Rel none (some b) = ⊥
Both Rel (some a) none = ⊥

module _ {Frame : Type 0} (Rel : Subscriber Frame → Subscriber Frame → Type 0) where
  abbrev pub EachArc : Map ℕ (Subscriber Frame) → Map ℕ (Subscriber Frame) → Type 0
  EachArc m m' = (id : ℕ) → Both Rel (Map.get id m) (Map.get id m')

  Both-back :
      (o p : Option (Subscriber Frame)) (s' : Subscriber Frame)
      → Both Rel o p
      → p ≡ some s'
      → (s : Subscriber Frame) × (o ≡ some s) × Rel s s'
  Both-back none none s' h e = absurd (ground arith)
  Both-back none (some t) s' h e = absurd h
  Both-back (some s) none s' h e = absurd h
  Both-back (some s) (some t) s' h e = (s, refl, subst (Rel s) (ground arith) h)

  -- Who is there after was there before.
  pub EachArc-back :
      (m m' : Map ℕ (Subscriber Frame))
      → EachArc m m'
      → (id : ℕ) (s' : Subscriber Frame) → Map.get id m' ≡ some s'
      → (s : Subscriber Frame) × (Map.get id m ≡ some s) × Rel s s'
  EachArc-back m m' h id s' e = Both-back (Map.get id m) (Map.get id m') s' (h id) e

module _ {Frame : Type 0} (Rel : Subscriber Frame → Subscriber Frame → Type 0) where
  Both-forth :
      (o p : Option (Subscriber Frame)) (s : Subscriber Frame)
      → Both Rel o p
      → o ≡ some s
      → (s' : Subscriber Frame) × (p ≡ some s') × Rel s s'
  Both-forth none none s h e = absurd (ground arith)
  Both-forth none (some t) s h e = absurd h
  Both-forth (some t) none s h e = absurd h
  Both-forth (some t) (some s') s h e =
      (s', refl, subst (λ (x : Subscriber Frame). Rel x s') (ground arith) h)

  -- Who was there before is there after.
  pub EachArc-forth :
      (m m' : Map ℕ (Subscriber Frame))
      → EachArc Rel m m'
      → (id : ℕ) (s : Subscriber Frame) → Map.get id m ≡ some s
      → (s' : Subscriber Frame) × (Map.get id m' ≡ some s') × Rel s s'
  EachArc-forth m m' h id s e = Both-forth (Map.get id m) (Map.get id m') s (h id) e

-- A relation that holds across `close`, `push` and `finish` steps one after another.
pub record IsKept {Frame : Type 0} (Rel : Subscriber Frame → Subscriber Frame → Type 0)
    : Type 0 where
  pub same : (s : Subscriber Frame) → Rel s s
  pub chain : (s t u : Subscriber Frame) → Rel s t → Rel t u → Rel s u
  pub closes : (s : Subscriber Frame) → Rel s (close s)

module _ {Frame : Type 0} (Rel : Subscriber Frame → Subscriber Frame → Type 0)
    (kept : IsKept Rel) where
  Both-same : (o : Option (Subscriber Frame)) → Both Rel o o
  Both-same none = tt
  Both-same (some s) = kept.same s

  Both-chain : (o p q : Option (Subscriber Frame)) → Both Rel o p → Both Rel p q → Both Rel o q
  Both-chain none none none h g = tt
  Both-chain (some s) (some t) (some u) h g = kept.chain s t u h g
  Both-chain none none (some u) h g = g
  Both-chain none (some t) q h g = absurd h
  Both-chain (some s) none q h g = absurd h
  Both-chain (some s) (some t) none h g = g

  pub EachArc-same : (m : Map ℕ (Subscriber Frame)) → EachArc Rel m m
  EachArc-same m id = Both-same (Map.get id m)

  pub EachArc-chain :
      (m n p : Map ℕ (Subscriber Frame)) → EachArc Rel m n → EachArc Rel n p → EachArc Rel m p
  EachArc-chain m n p h g id = Both-chain (Map.get id m) (Map.get id n) (Map.get id p) (h id) (g id)

  -- One subscriber is put back.
  pub insert-EachArc :
      (m : Map ℕ (Subscriber Frame)) (id : ℕ) (s s' : Subscriber Frame)
      → Map.get id m ≡ some s
      → Rel s s'
      → EachArc Rel m (Map.insert id s' m)
  insert-EachArc m id s s' e h j = elim (Bool-cases (id == j)) [
    | inl same ↦
        let here : Map.get j m ≡ some s = rw (sym ((==_iff id j).0 same)) e in
        let there : Map.get j (Map.insert id s' m) ≡ some s' =
          grind (arith, get-insert id j s' m) in
        rw (here, there) h
    | inr other ↦
        let there : Map.get j (Map.insert id s' m) ≡ Map.get j m =
          grind (arith, get-insert id j s' m) in
        rw there (Both-same (Map.get j m))
  ]

  module _ {Handle : Type 0} where
    pub remove_subscriber-EachArc :
        (r : Registry Frame Handle) (id : ℕ) → EachArc Rel r.arcs (remove_subscriber r id).arcs
    unfolding remove_subscriber
    remove_subscriber-EachArc r id = elim (Option-cases (live r id)) [
      | inl e ↦ rw (e, remove_subscriber) (EachArc-same r.arcs)
      | inr (s, e) ↦
          rw (e, remove_subscriber)
            (insert-EachArc r.arcs id s (close s) (live-get r id s e) (kept.closes s))
    ]

    remove_all-EachArc :
        (r : Registry Frame Handle) (ids : List ℕ) → EachArc Rel r.arcs (remove_all r ids).arcs
    unfolding remove_all
    remove_all-EachArc r [] = EachArc-same r.arcs
    remove_all-EachArc r (id ∷ ids) =
        EachArc-chain r.arcs (remove_subscriber r id).arcs (remove_all r (id ∷ ids)).arcs
          (remove_subscriber-EachArc r id) (remove_all-EachArc (remove_subscriber r id) ids)

    pub drop_connection-EachArc :
        (r : Registry Frame Handle) (c : ℕ) → EachArc Rel r.arcs (drop_connection r c).arcs
    unfolding drop_connection
    drop_connection-EachArc r c = elim (Option-cases (Map.get c r.connections)) [
      | inl e ↦ rw (e, drop_connection) (EachArc-same r.arcs)
      | inr (connected, e) ↦
          rw (e, drop_connection)
            (remove_all-EachArc (record r { connections = Map.remove c r.connections })
              (values connected.topics))
    ]

    pub unregister-EachArc :
        (r : Registry Frame Handle) (c : ℕ) (t : Topic)
        → EachArc Rel r.arcs (unregister r c t).0.arcs
    unfolding unregister
    unregister-EachArc r c t = elim (Option-cases (Map.get c r.connections)) [
      | inl e ↦ rw (e, unregister) (EachArc-same r.arcs)
      | inr (connected, e) ↦ elim (Option-cases (Map.get t connected.topics)) [
        | inl g ↦ rw (e, g, unregister) (EachArc-same r.arcs)
        | inr (id, g) ↦
            rw (e, g, unregister)
              (remove_subscriber-EachArc
                (record r {
                  connections =
                      Map.insert c (record connected { topics = Map.remove t connected.topics })
                        r.connections;
                })
                id)
      ]
    ]
