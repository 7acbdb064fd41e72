-- ===== src/Pubsub/Registry/Views/Steps.antt =====
-- What the operations of registry.rs on subscriptions do to the three readings.
use tightbeam_ext.Prelude.{
  ℕ, ◌≡◌, refl, true, false, ◌&&◌, none, some, List, [], ◌∷◌, arith, is_nil, if◌then◌else◌,
  Option-cases, Bool-cases, inl, inr, ==_iff, ◌==◌,
}
use tightbeam_ext.Prelude.Map
use tightbeam_ext.Prelude.Map.{Map, Unique, get-insert, get-remove, get-modify}
use tightbeam_ext.Prelude.IdSet
use tightbeam_ext.Prelude.IdSet.{contains-insert, contains-remove, contains-is_nil}
use tightbeam_ext.Prelude.Keys.{nat_eq}
use tightbeam_ext.Pubsub.Topic.{Topic, topic_eq, topic_beq, topic_beq_iff}
use tightbeam_ext.Pubsub.Registry.{Registry, TopicState, live}
use tightbeam_ext.Pubsub.Registry.Lanes.{close}
use tightbeam_ext.Pubsub.Registry.Members.{leave, remove_subscriber, remove_all}
use tightbeam_ext.Pubsub.Registry.Views.{enrolled, member, place, Joined}

enrolled-leave :
    (id j : ℕ) (t u : Topic) (topics : Map Topic TopicState)
    → enrolled (leave id t topics) u j
      ≡ (if topic_beq t u && (id == j) then false else enrolled topics u j)
unfolding enrolled leave
enrolled-leave id j t u topics = elim (Option-cases (Map.get t topics)) [
  | inl e ↦ rw (e, leave) (grind (arith, topic_beq_iff t u))
  | inr (entry, e) ↦ elim (Bool-cases (is_nil (IdSet.remove id entry.members))) [
    | inl n ↦ grind (
      arith,
      topic_beq_iff t u,
      get-remove t u topics,
      contains-remove id j entry.members,
      contains-is_nil j (IdSet.remove id entry.members),
    )
    | inr n ↦ grind (
      arith,
      topic_beq_iff t u,
      get-insert t u (record entry { members = IdSet.remove id entry.members }) topics,
      contains-remove id j entry.members,
    )
  ]
]

leave-inhabited :
    (id : ℕ) (t u : Topic) (topics : Map Topic TopicState) (entry : TopicState)
    → ((e : TopicState) → Map.get u topics ≡ some e → is_nil e.members ≡ false)
    → Map.get u (leave id t topics) ≡ some entry
    → is_nil entry.members ≡ false
unfolding leave
leave-inhabited id t u topics entry h g = elim (Option-cases (Map.get t topics)) [
  | inl e ↦ h entry (rw (e, leave) at g)
  | inr (old, e) ↦ elim (Bool-cases (is_nil (IdSet.remove id old.members))) [
    | inl n ↦ grind (arith, topic_beq_iff t u, get-remove t u topics, h entry)
    | inr n ↦ grind (
      arith,
      topic_beq_iff t u,
      get-insert t u (record old { members = IdSet.remove id old.members }) topics,
      h entry,
    )
  ]
]

module _ {Frame Handle : Type 0} where
  place-remove_subscriber :
      (r : Registry Frame Handle) (id j : ℕ)
      → place (remove_subscriber r id) j ≡ (if id == j then none else place r j)
  unfolding remove_subscriber place close
  place-remove_subscriber r id j =
      grind (arith, ==_iff id j, contains-remove id j r.subscribers, get-insert)

  member-remove_subscriber :
      (r : Registry Frame Handle) (id j : ℕ) (u : Topic)
      → Joined r
      → member (remove_subscriber r id) u j ≡ (if id == j then false else member r u j)
  unfolding remove_subscriber place
  member-remove_subscriber r id j u h = elim (Option-cases (live r id)) [
    | inl e ↦ elim (Bool-cases (member r u j)) [
      | inl m ↦ let (c, p) = h.owned u j m in grind (arith, ==_iff id j)
      | inr m ↦ rw (e, remove_subscriber) (grind arith)
    ]
    | inr (s, e) ↦ elim (Bool-cases (member r u j)) [
      | inl m ↦
          let (c, p) = h.owned u j m in
          grind
            (arith, ==_iff id j, topic_beq_iff s.topic u, enrolled-leave id j s.topic u r.topics)
      | inr m ↦ rw (e, remove_subscriber) (grind (arith, enrolled-leave id j s.topic u r.topics))
    ]
  ]

  remove_subscriber-Joined :
      (r : Registry Frame Handle) (id : ℕ) → Joined r → Joined (remove_subscriber r id)
  remove_subscriber-Joined r id h = record {
    joined = λ j t c p. grind (
      arith,
      place-remove_subscriber r id j,
      member-remove_subscriber r id j t h,
      h.joined j t c,
    );
    owned = λ t j m.
        let (c, p) = h.owned t j (grind (arith, member-remove_subscriber r id j t h)) in
        (c, grind (arith, place-remove_subscriber r id j, member-remove_subscriber r id j t h));
  }

  remove_subscriber-keeps :
      (r : Registry Frame Handle) (id : ℕ)
      → let r' = remove_subscriber r id in
        (r'.connections ≡ r.connections)
        × (r'.options ≡ r.options)
        × (r'.next_connection ≡ r.next_connection)
        × (r'.next_subscriber ≡ r.next_subscriber)
        × (r'.draining ≡ r.draining)
  unfolding remove_subscriber
  remove_subscriber-keeps r id = ground arith

  subscribers-remove_subscriber :
      (r : Registry Frame Handle) (id j : ℕ)
      → IdSet.contains j (remove_subscriber r id).subscribers ≡ true
      → IdSet.contains j r.subscribers ≡ true
  unfolding remove_subscriber
  subscribers-remove_subscriber r id j h = grind (arith, contains-remove id j r.subscribers)

  topics-remove_subscriber :
      (r : Registry Frame Handle) (id : ℕ) (t : Topic) (entry : TopicState)
      → ((e : TopicState) → Map.get t r.topics ≡ some e → is_nil e.members ≡ false)
      → Map.get t (remove_subscriber r id).topics ≡ some entry
      → is_nil entry.members ≡ false
  unfolding remove_subscriber
  topics-remove_subscriber r id t entry h g = elim (Option-cases (live r id)) [
    | inl e ↦ h entry (rw (e, remove_subscriber) at g)
    | inr (s, e) ↦ leave-inhabited id s.topic t r.topics entry h (rw (e, remove_subscriber) at g)
  ]

  -- What a registry becomes when the subscribers of a list go.
  pub record Forgets (r : Registry Frame Handle) (ids : List ℕ) (r' : Registry Frame Handle)
      : Type 0 where
    pub place_left : (j : ℕ) → place r' j ≡ (if IdSet.contains j ids then none else place r j)
    pub member_left :
        (t : Topic) (j : ℕ) → member r' t j ≡ (if IdSet.contains j ids then false else member r t j)
    pub joins : Joined r'
    pub same :
        (r'.connections ≡ r.connections)
        × (r'.options ≡ r.options)
        × (r'.next_connection ≡ r.next_connection)
        × (r'.next_subscriber ≡ r.next_subscriber)
        × (r'.draining ≡ r.draining)
    pub still :
        (j : ℕ) → IdSet.contains j r'.subscribers ≡ true → IdSet.contains j r.subscribers ≡ true
    pub inhabited :
        ((t : Topic) (e : TopicState) → Map.get t r.topics ≡ some e → is_nil e.members ≡ false)
        → (t : Topic) (e : TopicState) → Map.get t r'.topics ≡ some e
        → is_nil e.members ≡ false

  pub remove_all-Forgets :
      (r : Registry Frame Handle) (ids : List ℕ) → Joined r → Forgets r ids (remove_all r ids)
  unfolding remove_all IdSet.contains
  remove_all-Forgets r [] h = record {
    place_left = λ j. refl;
    member_left = λ t j. refl;
    joins = h;
    same = (refl, refl, refl, refl, refl);
    still = λ j c. c;
    inhabited = λ i t e g. i t e g;
  }
  remove_all-Forgets r (id ∷ ids) h =
      let r1 = remove_subscriber r id in
      let rest = remove_all-Forgets r1 ids (remove_subscriber-Joined r id h) in
      let kept = remove_subscriber-keeps r id in
      record {
        place_left = λ j. grind (arith, rest.place_left j, place-remove_subscriber r id j);
        member_left =
            λ t j. grind (arith, rest.member_left t j, member-remove_subscriber r id j t h);
        joins = rest.joins;
        same = ground (arith, rest.same, kept);
        still = λ j c. subscribers-remove_subscriber r id j (rest.still j c);
        inhabited =
            λ i t e g. rest.inhabited (λ u f q. topics-remove_subscriber r id u f (i u) q) t e g;
      }

  pub remove_subscriber-Forgets :
      (r : Registry Frame Handle) (id : ℕ) → Joined r → Forgets r (id ∷ []) (remove_subscriber r id)
  unfolding remove_all
  remove_subscriber-Forgets r id h = remove_all-Forgets r (id ∷ []) h
