-- ===== src/Pubsub/Registry/Runs/Fanout.antt =====
-- registry.rs: who is handed an update by `deliver`, and what else changes.
use tightbeam_ext.Prelude.{
  ℕ, max, ◌≡◌, refl, sym, ◌∙◌, ap, subst, false, none, some, List, [], ◌∷◌, arith, Option-cases,
  Bool-cases, inl, inr, ==_iff, ◌==◌, if◌then◌else◌, Bytes,
}
use tightbeam_ext.Prelude.Map
use tightbeam_ext.Prelude.Map.{Map, get-insert, get-modify}
use tightbeam_ext.Prelude.IdSet
use tightbeam_ext.Prelude.Keys.{nat_eq}
use tightbeam_ext.Prelude.Result.{ok}
use tightbeam_ext.Pubsub.Topic.{Topic, topic_eq, topic_beq_iff}
use tightbeam_ext.Pubsub.Frame.{FrameKit, update_frame}
use tightbeam_ext.Pubsub.Backplane.Walks.{Distinct}
use tightbeam_ext.Pubsub.Registry.{Registry, TopicState, Subscriber, live}
use tightbeam_ext.Pubsub.Registry.Lanes.{close, push}
use tightbeam_ext.Pubsub.Registry.Delivery.{push_members, fan_out, disconnect_all, deliver}
use tightbeam_ext.Pubsub.Registry.Delivery.Outcomes.{marked, deliver_fanned}
use tightbeam_ext.Pubsub.Registry.Consistency.Lanewise.{live-get}
use tightbeam_ext.Pubsub.Registry.Runs.Arcs.{IsKept, EachArc-forth}
use tightbeam_ext.Pubsub.Registry.Runs.Fanning.{disconnect_all-EachArc}

-- `close` leaves the lane and the count of drops alone.
abbrev pub SameLane : {Frame : Type 0} → Subscriber Frame → Subscriber Frame → Type 0
SameLane s s' = (s'.lane ≡ s.lane) × (s'.dropped ≡ s.dropped)

SameLane-IsKept : {Frame : Type 0} → IsKept (SameLane {Frame = Frame})
unfolding close
SameLane-IsKept = record {
  same = λ s. (refl, refl);
  chain = λ s t u h g. (g.0 ∙ h.0, g.1 ∙ h.1);
  closes = λ s. (refl, refl);
}

module _ {Frame Handle : Type 0} where
  push_members_gone :
      (update : Frame) (j : ℕ) (ids : List ℕ) (r : Registry Frame Handle)
      → live r j ≡ none
      → push_members r update (j ∷ ids) ≡ push_members r update ids
  unfolding push_members
  push_members_gone update j ids r e = rw (e, push_members) refl

  abbrev put : Registry Frame Handle → ℕ → Subscriber Frame → Registry Frame Handle
  put r j s = record r { arcs = Map.insert j s r.arcs }

  push_members-live :
      (update : Frame) (j : ℕ) (ids : List ℕ) (r : Registry Frame Handle) (t : Subscriber Frame)
      → live r j ≡ some t
      → (push_members r update (j ∷ ids)).0
        ≡ (push_members (put r j (push r.options update t).0) update ids).0
  unfolding push_members
  push_members-live update j ids r t e = rw (e, push_members) refl

  live-put :
      (r : Registry Frame Handle) (j : ℕ) (t s : Subscriber Frame)
      → live r j ≡ some s
      → live (put r j t) j ≡ some t
  unfolding live
  live-put r j t s e = grind (arith, get-insert j j t r.arcs)

  live-put_other :
      (r : Registry Frame Handle) (j id : ℕ) (t : Subscriber Frame)
      → (j == id) ≡ false
      → live (put r j t) id ≡ live r id
  unfolding live
  live-put_other r j id t e = grind (arith, get-insert j id t r.arcs)

  -- Each of the members is pushed to once, and nobody else.
  push_members-get :
      (update : Frame) (ids : List ℕ) (r : Registry Frame Handle) (id : ℕ) (s : Subscriber Frame)
      → Distinct ids
      → live r id ≡ some s
      → Map.get id (push_members r update ids).0.arcs
        ≡ some (if IdSet.contains id ids then (push r.options update s).0 else s)
  unfolding push_members IdSet.contains
  push_members-get update [] r id s d l = live-get r id s l
  push_members-get update (j ∷ ids) r id s d l = elim (Option-cases (live r j)) [
    | inl e ↦ elim (Bool-cases (j == id)) [
      | inl same ↦ absurd (grind (arith, ==_iff j id, e, l))
      | inr other ↦
          rw (push_members_gone update j ids r e, other) (push_members-get update ids r id s d.1 l)
    ]
    | inr (t, e) ↦
        let pushed = (push r.options update t).0 in
        elim (Bool-cases (j == id)) [
          | inl same ↦
              let here : live r id ≡ some t = rw (sym ((==_iff j id).0 same)) e in
              let is_t : t ≡ s = grind (arith, here, l) in
              let not_again : IdSet.contains id ids ≡ false =
                subst (λ i. IdSet.contains i ids ≡ false) ((==_iff j id).0 same) d.0 in
              let there : live (put r j pushed) id ≡ some pushed =
                subst (λ i. live (put r j pushed) i ≡ some pushed) ((==_iff j id).0 same)
                  (live-put r j pushed t e) in
              let rest = push_members-get update ids (put r j pushed) id pushed d.1 there in
              ap (λ (x : Registry Frame Handle). Map.get id x.arcs)
                (push_members-live update j ids r t e)
              ∙ rest
              ∙ rw (same, not_again, is_t) refl
          | inr other ↦
              rw (push_members-live update j ids r t e, other)
                (push_members-get update ids (put r j pushed) id s d.1
                  (live-put_other r j id pushed other ∙ l))
        ]
  ]

  fan_out-get :
      (r : Registry Frame Handle) (t : Topic) (update : Frame) (entry : TopicState) (id : ℕ)
      (s : Subscriber Frame)
      → Map.get t r.topics ≡ some entry
      → Distinct entry.members
      → live r id ≡ some s
      → Map.get id (fan_out r t update).0.arcs
        ≡ some (if IdSet.contains id entry.members then (push r.options update s).0 else s)
  unfolding fan_out
  fan_out-get r t update entry id s e d l =
      rw (e, fan_out) (push_members-get update entry.members r id s d l)

  module _ {Octets Cause : Type 0} (k : FrameKit Octets Frame Cause) where
    -- If a node does not drain, can build the update and has the topic, and no member is listed
    -- twice, then `deliver` pushes the update once to each member and to nobody else: the lane
    -- and the count of drops of a live subscriber are what `push` makes of them if it is a
    -- member, and are unchanged if not.
    pub deliver-pushes :
        (r : Registry Frame Handle) (t : Topic) (order : ℕ) (payload : Bytes) (update : Frame)
        (entry : TopicState) (id : ℕ) (s : Subscriber Frame)
        → r.draining ≡ false
        → update_frame k t order payload ≡ ok update
        → Map.get t r.topics ≡ some entry
        → Distinct entry.members
        → live r id ≡ some s
        → (s' : Subscriber Frame) × (Map.get id (deliver k r t order payload).0.arcs ≡ some s')
          × SameLane (if IdSet.contains id entry.members then (push r.options update s).0 else s) s'
    unfolding live
    deliver-pushes r t order payload update entry id s d e g u l =
        let stamped = marked k r t order payload in
        let known : Map.get t stamped.topics
            ≡ some (record entry { last_order = max entry.last_order order }) =
          grind (
            arith,
            get-modify t t (λ (x : TopicState). record x { last_order = max x.last_order order })
                r.topics,
            topic_beq_iff t t,
          ) in
        let fanned = fan_out stamped t update in
        let pushed : Map.get id fanned.0.arcs
            ≡ some (if IdSet.contains id entry.members then (push r.options update s).0 else s) =
          fan_out-get stamped t update _ id s known u l in
        rw (deliver_fanned k r t order payload update d e) (
          EachArc-forth SameLane fanned.0.arcs (disconnect_all fanned.0 fanned.1).arcs
            (disconnect_all-EachArc SameLane SameLane-IsKept fanned.0 fanned.1) id
            (if IdSet.contains id entry.members then (push r.options update s).0 else s) pushed)
