-- ===== src/Pubsub/Cluster/Publishing.antt =====
-- registry.rs over backplane.rs: what a publish and a quiesce of one node do to the nodes that share
-- the backplane.
use tightbeam_ext.Prelude.{Bool}
use tightbeam_ext.Prelude.{
  ℕ, ◌≡◌, refl, sym, ◌∙◌, ap, true, false, some, List, [], ◌∷◌, arith, any, Option-cases,
  Bool-cases, inl, inr, ==_iff, ◌==◌, Bytes,
}
use tightbeam_ext.Prelude.Map
use tightbeam_ext.Prelude.Map.{Map, get-insert, insert_same}
use tightbeam_ext.Prelude.IdSet
use tightbeam_ext.Prelude.Keys.{nat_eq}
use tightbeam_ext.Prelude.Result.{Result, ok, err, map_err}
use tightbeam_ext.Pubsub.Topic.{Topic, topic_eq}
use tightbeam_ext.Pubsub.Frame.{FrameKit, update_frame}
use tightbeam_ext.Pubsub.Backplane
use tightbeam_ext.Pubsub.Backplane.{
  DeliverError, UpdateSink, LocalState, next_order, last_order, is_hard,
}
use tightbeam_ext.Pubsub.Backplane.Walks.{Answer, Distinct, answers}
use tightbeam_ext.Pubsub.Backplane.Stamps.{is_hard_answer, publish-ok_iff, publish-delivers}
use tightbeam_ext.Pubsub.Registry.{Registry, TopicState, PublishError, from_backplane, live}
use tightbeam_ext.Pubsub.Registry.Delivery.{deliver, registry_sink}
use tightbeam_ext.Pubsub.Registry.Delivery.Outcomes.{
  Delivers, is_draining, is_unbuilt, is_fanned, deliver-Delivers,
}
use tightbeam_ext.Pubsub.Registry.Quiesce.{
  End, begin_quiesce, complete, finish_members, reserve_ends, snapshot,
}
use tightbeam_ext.Pubsub.Registry.Lanes.{finish}
use tightbeam_ext.Pubsub.Cluster.{Cluster, publish, quiesce, with_node}

map_err-ok : {A E F : Type 0} (f : E → F) (r : Result A E) (a : A) → map_err f r ≡ ok a → r ≡ ok a
map_err-ok f (ok b) a e = ground arith
map_err-ok f (err c) a e = absurd (ground arith)

module _ {S Cause : Type 0} (sink : UpdateSink S Cause) (t : Topic) (order : ℕ)
    (payload : Bytes) where
  -- With no hard answer at all, no sink answers hard.
  answers-soft :
      (nodes : Map ℕ S) (ps : List ℕ) (p : ℕ) (node : S)
      → any is_hard_answer (answers sink t order payload nodes ps) ≡ false
      → IdSet.contains p ps ≡ true
      → Map.get p nodes ≡ some node
      → is_hard_answer (sink.deliver node t order payload).1 ≡ false
  unfolding answers IdSet.contains
  answers-soft nodes [] p node h c e = absurd (ground arith)
  answers-soft nodes (q ∷ ps) p node h c e = elim (Bool-cases (q == p)) [
    | inl same ↦ grind (arith, ==_iff q p)
    | inr other ↦ grind (arith, answers-soft nodes ps p node)
  ]

module _ {Octets Frame Cause Handle : Type 0} (k : FrameKit Octets Frame Cause) where
  -- A node that is not leaving and does not answer hard has taken the update.
  Delivers-took :
      (r : Registry Frame Handle) (t : Topic) (order : ℕ) (payload : Bytes)
      (r' : Registry Frame Handle) (a : Answer Cause)
      → Delivers k r t order payload r' a
      → r.draining ≡ false
      → is_hard_answer a ≡ false
      → (update : Frame) × (update_frame k t order payload ≡ ok update) × (a ≡ ok tt)
  unfolding is_hard
  Delivers-took r t order payload r' a (is_draining d) q h = absurd (ground arith)
  Delivers-took r t order payload r' a (is_unbuilt cause d e) q h = absurd (ground arith)
  Delivers-took r t order payload r' a (is_fanned update d e) q h = (update, e, refl)

  publish_open :
      (cluster : Cluster Frame Handle) (p : ℕ) (t : Topic) (payload : Bytes)
      (r : Registry Frame Handle)
      → Map.get p cluster.nodes ≡ some r
      → r.draining ≡ false
      → let done = Backplane.publish (registry_sink k) cluster.local cluster.nodes t payload in
        publish k cluster p t payload
        ≡ (record { local = done.0; nodes = done.1 }, map_err from_backplane done.2)
  unfolding publish
  publish_open cluster p t payload r e d = ground arith

  -- If no sink is attached twice, a publish that a node of the cluster makes with success has
  -- reached every attached node that is not draining: that node could build the update at the
  -- topic's next stamp, and is what its own `deliver` of it, which succeeded, makes of it.
  pub publish-reaches :
      (cluster : Cluster Frame Handle) (p q : ℕ) (t : Topic) (payload : Bytes)
      (r node : Registry Frame Handle)
      → Distinct cluster.local.sinks
      → Map.get p cluster.nodes ≡ some r
      → r.draining ≡ false
      → (publish k cluster p t payload).1 ≡ ok tt
      → IdSet.contains q cluster.local.sinks ≡ true
      → Map.get q cluster.nodes ≡ some node
      → node.draining ≡ false
      → let order = next_order cluster.local t in
        ((update : Frame) × (update_frame k t order payload ≡ ok update))
        × (Map.get q (publish k cluster p t payload).0.nodes
            ≡ some (deliver k node t order payload).0)
        × ((deliver k node t order payload).1 ≡ ok tt)
  publish-reaches cluster p q t payload r node d e not_left done attached there live =
      let order = next_order cluster.local t in
      let eq = publish_open cluster p t payload r e not_left in
      let fine =
        map_err-ok from_backplane
          (Backplane.publish (registry_sink k) cluster.local cluster.nodes t payload).2 tt
          (sym (ap (λ x. x.1) eq) ∙ done) in
      let soft =
        ((publish-ok_iff (registry_sink k) cluster.local cluster.nodes t payload d).0 fine).1 in
      let took =
        Delivers-took node t order payload (deliver k node t order payload).0
          (deliver k node t order payload).1 (deliver-Delivers k node t order payload) live
          (answers-soft (registry_sink k) t order payload cluster.nodes cluster.local.sinks q node
            soft attached there) in
      let moved =
        (publish-delivers (registry_sink k) cluster.local cluster.nodes t payload q d).0 in
      (
        (took.0, took.1),
        ap
              (λ (x : Cluster Frame Handle × Result (Unit {0}) (PublishError Cause)).
                Map.get q x.0.nodes)
              eq
            ∙ moved
            ∙ rw (attached, there) refl,
        took.2,
      )

  finish_members-draining :
      (r : Registry Frame Handle) (end : Frame) (ids : List ℕ)
      → (finish_members r end ids).0.draining ≡ r.draining
  unfolding finish_members
  finish_members-draining r end [] = refl
  finish_members-draining r end (id ∷ ids) = elim (Option-cases (live r id)) [
    | inl e ↦ rw (e, finish_members) (finish_members-draining r end ids)
    | inr (s, e) ↦
        rw (e, finish_members)
          (finish_members-draining (record r { arcs = Map.insert id (finish end s) r.arcs }) end
            ids)
  ]

  complete-draining :
      (r : Registry Frame Handle) (ends : List (End Frame))
      → (complete r ends).0.draining ≡ r.draining
  unfolding complete
  complete-draining r [] = refl
  complete-draining r (end ∷ ends) =
      let marked : Registry Frame Handle = record r {
        topics =
            Map.modify end.topic (λ (e : TopicState). record e { last_order = end.order }) r.topics;
      } in
      complete-draining (finish_members marked end.frame end.members).0 ends
      ∙ finish_members-draining marked end.frame end.members

  module _ (cluster : Cluster Frame Handle) (p : ℕ) (r : Registry Frame Handle)
      (there : Map.get p cluster.nodes ≡ some r) where
    abbrev flagged : Registry Frame Handle
    flagged = record r { draining = true }

    -- The node that a quiesce leaves.
    abbrev left_by : LocalState × Result (List (End Frame)) Cause → Registry Frame Handle
    left_by (local, err cause) = flagged
    left_by (local, ok ends) = (complete flagged ends).0

    left_by-draining :
        (reserved : LocalState × Result (List (End Frame)) Cause)
        → (left_by reserved).draining ≡ true
    left_by-draining (local, err cause) = refl
    left_by-draining (local, ok ends) = complete-draining flagged ends

    quiesce_repeated : r.draining ≡ true → quiesce k cluster p ≡ (with_node p flagged cluster, ok 0)
    unfolding quiesce begin_quiesce
    quiesce_repeated d = ground arith

    quiesce_first :
        r.draining ≡ false
        → (quiesce k cluster p).0.nodes
          ≡ Map.insert p (left_by (reserve_ends k cluster.local (snapshot r.topics))) cluster.nodes
    unfolding quiesce begin_quiesce
    quiesce_first d = ground arith

    quiesced :
        (r' : Registry Frame Handle) × (Map.get p (quiesce k cluster p).0.nodes ≡ some r')
        × (r'.draining ≡ true)
    quiesced = elim (Bool-cases r.draining) [
      | inl d ↦ (
        flagged,
        ap (λ (x : Cluster Frame Handle × Result ℕ (PublishError Cause)). Map.get p x.0.nodes)
              (quiesce_repeated d)
            ∙ grind (arith, get-insert p p flagged cluster.nodes),
        refl,
      )
      | inr d ↦
          let reserved = reserve_ends k cluster.local (snapshot r.topics) in
          (
            left_by reserved,
            ap (Map.get p) (quiesce_first d)
                ∙ grind (arith, get-insert p p (left_by reserved) cluster.nodes),
            left_by-draining reserved,
          )
    ]

  quiesce_again :
      (c : Cluster Frame Handle) (p : ℕ) (r' : Registry Frame Handle)
      → Map.get p c.nodes ≡ some r'
      → r'.draining ≡ true
      → quiesce k c p ≡ (c, ok 0)
  quiesce_again c p r' there drains =
      quiesce_repeated c p r' there drains
      ∙ ap (λ (n : Registry Frame Handle). (with_node p n c, ok 0)) (reflag r' drains)
      ∙ ap (λ (ns : Map ℕ (Registry Frame Handle)). (record c { nodes = ns }, ok 0))
          (insert_same p r' c.nodes there)
    where
      reflag : (r : Registry Frame Handle) → r.draining ≡ true → record r { draining = true } ≡ r
      reflag r d = ap (λ (b : Bool). record r { draining = b }) (sym d)

  publish_closed :
      (c : Cluster Frame Handle) (p : ℕ) (t : Topic) (payload : Bytes) (r' : Registry Frame Handle)
      → Map.get p c.nodes ≡ some r'
      → r'.draining ≡ true
      → publish k c p t payload ≡ (c, err PublishError.draining)
  unfolding publish
  publish_closed c p t payload r' there drains = ground arith

  -- Whatever a quiesce of a node of the cluster answers, the node is then closed: a second
  -- quiesce answers that it signaled nobody and leaves the cluster as it is, so that it queues
  -- nothing and claims no stamp, and a publish by the node is refused and changes nothing.
  pub quiesce-seals :
      (cluster : Cluster Frame Handle) (p : ℕ) (t : Topic) (payload : Bytes)
      (r : Registry Frame Handle)
      → Map.get p cluster.nodes ≡ some r
      → let sealed = (quiesce k cluster p).0 in
        (quiesce k sealed p ≡ (sealed, ok 0))
        × (publish k sealed p t payload ≡ (sealed, err PublishError.draining))
  quiesce-seals cluster p t payload r e =
      let (r', there, drains) = quiesced cluster p r e in
      let sealed = (quiesce k cluster p).0 in
      (quiesce_again sealed p r' there drains, publish_closed sealed p t payload r' there drains)
