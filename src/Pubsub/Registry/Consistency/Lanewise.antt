-- ===== src/Pubsub/Registry/Consistency/Lanewise.antt =====
-- The three maps of a registry across what happens on the lanes.
use tightbeam_ext.Prelude.{
  ℕ, ◌≡◌, refl, sym, ◌∙◌, some, List, [], ◌∷◌, arith, Option-cases, inl, inr, ==_iff,
}
use tightbeam_ext.Prelude.Map
use tightbeam_ext.Prelude.Map.{Map, get-insert, get-modify}
use tightbeam_ext.Prelude.Keys.{nat_eq}
use tightbeam_ext.Pubsub.Topic.{Topic, topic_eq}
use tightbeam_ext.Pubsub.Registry.{Registry, RegistryOptions, TopicState, Subscriber, live}
use tightbeam_ext.Pubsub.Registry.Lanes.{push}
use tightbeam_ext.Pubsub.Registry.Delivery.{push_members, fan_out}
use tightbeam_ext.Pubsub.Registry.Views.{enrolled, member, place, Consistent}

module _ {Frame : Type 0} where
  push-identity :
      (options : RegistryOptions) (update : Frame) (s : Subscriber Frame)
      → ((push options update s).0.topic ≡ s.topic)
        × ((push options update s).0.connection ≡ s.connection)
  unfolding push
  push-identity options update s = ground arith

module _ {Frame Handle : Type 0} where
  -- No subscription moves from one registry to the other.
  pub record Unmoved (r r' : Registry Frame Handle) : Type 0 where
    pub places : (id : ℕ) → place r' id ≡ place r id
    pub members : (t : Topic) (id : ℕ) → member r' t id ≡ member r t id
    pub occupied :
        (t : Topic) (entry' : TopicState)
        → Map.get t r'.topics ≡ some entry'
        → (entry : TopicState) × (Map.get t r.topics ≡ some entry)
          × (entry'.members ≡ entry.members)
    pub connections : r'.connections ≡ r.connections
    pub subscribers : r'.subscribers ≡ r.subscribers
    pub options : r'.options ≡ r.options
    pub counters :
        (r'.next_connection ≡ r.next_connection) × (r'.next_subscriber ≡ r.next_subscriber)

  pub Unmoved-Consistent :
      (r r' : Registry Frame Handle) → Unmoved r r' → Consistent r → Consistent r'
  Unmoved-Consistent r r' u v = record {
    joins = record {
      joined = λ id t c p. u.members t id ∙ v.joins.joined id t c (sym (u.places id) ∙ p);
      owned = λ t id m.
          let (c, p) = v.joins.owned t id (sym (u.members t id) ∙ m) in (c, u.places id ∙ p);
    };
    listed = λ id t c p. rw u.connections (v.listed id t c (sym (u.places id) ∙ p));
    placed = λ c t id p. u.places id ∙ v.placed c t id (rw u.connections at p);
    inhabited =
        λ t entry p. let (old, q, same) = u.occupied t entry p in rw same (v.inhabited t old q);
    keyed = λ c connected p.
        let (keys, cap, below) = v.keyed c connected (rw u.connections at p) in
        (keys, rw u.options cap, rw u.counters.0 below);
    fresh = λ id p. rw u.counters.1 (v.fresh id (rw u.subscribers at p));
  }

  pub Unmoved-trans : (r s t : Registry Frame Handle) → Unmoved r s → Unmoved s t → Unmoved r t
  Unmoved-trans r s t u w = record {
    places = λ id. w.places id ∙ u.places id;
    members = λ x id. w.members x id ∙ u.members x id;
    occupied = λ x entry p.
        let (e1, p1, q1) = w.occupied x entry p in
        let (e2, p2, q2) = u.occupied x e1 p1 in (e2, p2, q1 ∙ q2);
    connections = w.connections ∙ u.connections;
    subscribers = w.subscribers ∙ u.subscribers;
    options = w.options ∙ u.options;
    counters = (w.counters.0 ∙ u.counters.0, w.counters.1 ∙ u.counters.1);
  }

  -- A subscriber of the same topic and connection is put in the place of one.
  pub set_arc-Unmoved :
      (r : Registry Frame Handle) (id : ℕ) (s s' : Subscriber Frame)
      → Map.get id r.arcs ≡ some s
      → s'.topic ≡ s.topic
      → s'.connection ≡ s.connection
      → Unmoved r (record r { arcs = Map.insert id s' r.arcs })
  unfolding place
  set_arc-Unmoved r id s s' e p q = record {
    places = λ j. grind (arith, get-insert id j s' r.arcs, ==_iff id j);
    members = λ t j. refl;
    occupied = λ t entry g. (entry, g, refl);
    connections = refl;
    subscribers = refl;
    options = refl;
    counters = (refl, refl);
  }

  pub Unmoved-refl : (r : Registry Frame Handle) → Unmoved r r
  Unmoved-refl r = record {
    places = λ j. refl;
    members = λ t j. refl;
    occupied = λ t entry g. (entry, g, refl);
    connections = refl;
    subscribers = refl;
    options = refl;
    counters = (refl, refl);
  }

  -- A live subscriber is the one in its `Arc`.
  pub live-get :
      (r : Registry Frame Handle) (id : ℕ) (s : Subscriber Frame)
      → live r id ≡ some s
      → Map.get id r.arcs ≡ some s
  unfolding live
  live-get r id s h = ground arith

  pub push_members-Unmoved :
      (r : Registry Frame Handle) (update : Frame) (ids : List ℕ)
      → Unmoved r (push_members r update ids).0
  unfolding push_members
  push_members-Unmoved r update [] = Unmoved-refl r
  push_members-Unmoved r update (id ∷ ids) = elim (Option-cases (live r id)) [
    | inl e ↦ rw (e, push_members) (push_members-Unmoved r update ids)
    | inr (s, e) ↦
        let pushed = (push r.options update s).0 in
        let next : Registry Frame Handle = record r { arcs = Map.insert id pushed r.arcs } in
        let (tt', cc') = push-identity r.options update s in
        rw (e, push_members)
          (Unmoved-trans r next _ (set_arc-Unmoved r id s pushed (live-get r id s e) tt' cc')
            (push_members-Unmoved next update ids))
  ]

  -- A change of a topic's last order moves no member.
  pub retopic-Unmoved :
      (r : Registry Frame Handle) (t : Topic) (f : ℕ → ℕ)
      → Unmoved r (record r {
        topics =
            Map.modify t (λ (e : TopicState). record e { last_order = f e.last_order }) r.topics;
      })
  unfolding place enrolled
  retopic-Unmoved r t f =
      let g = λ (e : TopicState). record e { last_order = f e.last_order } in
      record {
        places = λ j. refl;
        members = λ u j. grind (arith, get-modify t u g r.topics);
        occupied = λ u entry' p. elim (Option-cases (Map.get u r.topics)) [
          | inl e ↦ absurd (grind (arith, get-modify t u g r.topics))
          | inr (entry, e) ↦ (entry, e, grind (arith, get-modify t u g r.topics))
        ];
        connections = refl;
        subscribers = refl;
        options = refl;
        counters = (refl, refl);
      }

  pub fan_out-Unmoved :
      (r : Registry Frame Handle) (t : Topic) (update : Frame) → Unmoved r (fan_out r t update).0
  unfolding fan_out
  fan_out-Unmoved r t update = elim (Option-cases (Map.get t r.topics)) [
    | inl e ↦ rw (e, fan_out) (Unmoved-refl r)
    | inr (entry, e) ↦ rw (e, fan_out) (push_members-Unmoved r update entry.members)
  ]
