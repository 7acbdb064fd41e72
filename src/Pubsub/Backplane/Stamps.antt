-- ===== src/Pubsub/Backplane/Stamps.antt =====
-- What one `Local::publish` and one `reserve_order` do to the counters, the sinks and the nodes.
use tightbeam_ext.Prelude.{
  ℕ, ◌+◌, ◌<◌, ◌≡◌, ◌↔◌, ◌⊎◌, refl, Bool, true, false, ◌&&◌, ◌||◌, none, some, List, [], ◌∷◌, arith,
  inl, inr, if◌then◌else◌, any, is_nil, Option-cases, Bytes,
}
use tightbeam_ext.Prelude.IdSet
use tightbeam_ext.Prelude.Map
use tightbeam_ext.Prelude.Map.{Map, get-insert}
use tightbeam_ext.Prelude.Keys.{nat_eq}
use tightbeam_ext.Prelude.Result.{ok, err, is_ok}
use tightbeam_ext.Pubsub.Topic.{Topic, topic_eq, topic_beq}
use tightbeam_ext.Pubsub.Backplane.{
  DeliverError, BackplaneError, refused, UpdateSink, LocalState, is_hard, live_sinks, settle,
  publish, start, walk, last_order, next_order, reserve_order, u64_max, Walk,
}
use tightbeam_ext.Pubsub.Backplane.Walks.{
  Answer, Distinct, hard_of, soft_of, first, answers, delivered, walk-Walked,
}

-- An answer that fails the publish.
abbrev pub is_hard_answer : {Cause : Type 0} → Answer Cause → Bool
is_hard_answer (ok _) = false
is_hard_answer (err cause) = is_hard cause

-- The stamp burns when a sink accepts, or when no sink is live.
abbrev pub burns : {Cause : Type 0} → List (Answer Cause) → Bool
burns rs = any is_ok rs || is_nil rs

first_hard_none :
    {Cause : Type 0} (rs : List (Answer Cause))
    → (first hard_of rs ≡ none) ↔ (any is_hard_answer rs ≡ false)
first_hard_none [] = (λ h. refl, λ h. refl)
first_hard_none (ok u ∷ rs) = first_hard_none rs
first_hard_none (err c ∷ rs) = let ih = first_hard_none rs in grind arith

soft_when_refused :
    {Cause : Type 0} (rs : List (Answer Cause))
    → any is_ok rs ≡ false
    → first hard_of rs ≡ none
    → first soft_of rs ≡ none
    → is_nil rs ≡ true
soft_when_refused [] h g k = refl
soft_when_refused (ok u ∷ rs) h g k = ground arith
soft_when_refused (err c ∷ rs) h g k = ground arith

first_soft_nil :
    {Cause : Type 0} (rs : List (Answer Cause))
    → is_nil rs ≡ true
    → (first soft_of rs ≡ none) × (first hard_of rs ≡ none)
first_soft_nil [] h = (refl, refl)
first_soft_nil (r ∷ rs) h = ground arith

settle-refused :
    {S Cause : Type 0} (w : Walk S Cause) (e : BackplaneError Cause)
    → (settle w).1 ≡ err e
    → (c : DeliverError Cause) × (e ≡ refused c)
      × ((w.first_hard ≡ some c)
          ⊎ ((w.first_hard ≡ none) × (w.delivered_any ≡ false) × (w.first_soft ≡ some c)))
unfolding settle
settle-refused w e q = elim (Option-cases w.first_hard) [
  | inr (c, hard) ↦ (c, ground arith, inl hard)
  | inl none_hard ↦ elim (Option-cases w.first_soft) [
    | inr (c, soft) ↦ (c, ground arith, inr (none_hard, ground arith, soft))
    | inl none_soft ↦ absurd (ground arith)
  ]
]

module _ {S Cause : Type 0} (sink : UpdateSink S Cause) (state : LocalState) (nodes : Map ℕ S)
    (topic : Topic) (payload : Bytes) where
  -- What the live sinks answer to the stamp that the publish would burn.
  abbrev pub polled : List (Answer Cause)
  polled = answers sink topic (next_order state topic) payload nodes state.sinks

  -- If no sink is attached twice, a publish takes the counter of the topic to the next stamp if
  -- a sink accepted or none is live, and moves no other counter.
  pub last_order-publish :
      (j : Topic)
      → Distinct state.sinks
      → last_order (publish sink state nodes topic payload).0 j
        ≡ (if topic_beq topic j && burns polled then next_order state topic else last_order state j)
  unfolding publish last_order settle
  last_order-publish j d =
      let h = walk-Walked sink topic (next_order state topic) payload (start nodes) state.sinks d in
      let g = get-insert topic j (next_order state topic) state.orders in
      grind (arith, h.any_ok, h.hard, h.soft, g, soft_when_refused, first_soft_nil)

  -- If no sink is attached twice, a publish succeeds exactly when the stamp burns and no sink
  -- refused it hard.
  pub publish-ok_iff :
      Distinct state.sinks
      → ((publish sink state nodes topic payload).2 ≡ ok tt)
        ↔ ((burns polled ≡ true) × (any is_hard_answer polled ≡ false))
  unfolding publish settle
  publish-ok_iff d =
      let hard = first_hard_none polled in
      let h = walk-Walked sink topic (next_order state topic) payload (start nodes) state.sinks d in
      (
        λ e. grind (arith, h.any_ok, h.hard, h.soft, hard.0, soft_when_refused polled),
        λ e. grind (arith, h.any_ok, h.hard, h.soft, hard.1, first_soft_nil polled),
      )

  -- If no sink is attached twice, a publish that fails reports the first hard refusal; with
  -- none, no sink accepted and it reports the first soft one.
  pub publish-refused :
      (e : BackplaneError Cause)
      → Distinct state.sinks
      → (publish sink state nodes topic payload).2 ≡ err e
      → (c : DeliverError Cause) × (e ≡ refused c)
        × ((first hard_of polled ≡ some c)
            ⊎ ((first hard_of polled ≡ none)
                × (any is_ok polled ≡ false)
                × (first soft_of polled ≡ some c)))
  unfolding publish settle
  publish-refused e d q =
      let h = walk-Walked sink topic (next_order state topic) payload (start nodes) state.sinks d in
      let (c, named, why) =
        settle-refused (walk sink topic (next_order state topic) payload (start nodes) state.sinks)
          e q in
      (c, named, grind (arith, h.any_ok, h.hard, h.soft))

  -- If no sink is attached twice, a publish hands every live sink the update once, at the next
  -- stamp, and changes no other node; the sinks whose node is gone are forgotten, the others
  -- kept in order.
  pub publish-delivers :
      (p : ℕ)
      → Distinct state.sinks
      → (Map.get p (publish sink state nodes topic payload).1 ≡ (
          if IdSet.contains p state.sinks
          then delivered sink topic (next_order state topic) payload (Map.get p nodes)
          else Map.get p nodes))
        × ((publish sink state nodes topic payload).0.sinks ≡ live_sinks nodes state.sinks)
  unfolding publish
  publish-delivers p d =
      let h = walk-Walked sink topic (next_order state topic) payload (start nodes) state.sinks d in
      (h.store p, h.keeps)

-- A reservation moves the topic's counter alone, to the stamp that it returns, which below the
-- last 64-bit stamp is one more than the counter.
pub last_order-reserve_order :
    (state : LocalState) (topic j : Topic)
    → (last_order (reserve_order state topic).0 j
        ≡ (if topic_beq topic j then (reserve_order state topic).1 else last_order state j))
      × (last_order state topic < u64_max
          → (reserve_order state topic).1 ≡ last_order state topic + 1)
unfolding reserve_order last_order
last_order-reserve_order state topic j =
    (grind (arith, get-insert topic j (next_order state topic) state.orders), λ h. omega arith)
