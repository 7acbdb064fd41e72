-- ===== src/Pubsub/Registry/Quiesce.antt =====
-- registry.rs: `quiesce` in the parts between which other threads may run: the flag, the snapshot of
-- the members under the lock, the end stamps with no lock held, and the completion under the lock.
use tightbeam_ext.Prelude.{ℕ, ◌+◌, Bool, true, none, some, List, [], ◌∷◌}
use tightbeam_ext.Prelude.Map
use tightbeam_ext.Prelude.Map.{Map}
use tightbeam_ext.Prelude.Keys.{nat_eq}
use tightbeam_ext.Prelude.Result.{Result, ok, err, ◌>>=◌}
use tightbeam_ext.Pubsub.Topic.{Topic, topic_eq}
use tightbeam_ext.Pubsub.Frame.{FrameKit, end_frame}
use tightbeam_ext.Pubsub.Backplane.{LocalState, reserve_order}
use tightbeam_ext.Pubsub.Registry.{Registry, TopicState, live}
use tightbeam_ext.Pubsub.Registry.Lanes.{finish}

-- A topic to complete: its end stamp, the members to signal, and the frame.
pub record End (Frame : Type 0) : Type 0 where
  pub topic : Topic
  pub order : ℕ
  pub members : List ℕ
  pub frame : Frame

unfoldable pub snapshot : Map Topic TopicState → List (Topic × List ℕ)
snapshot [] = []
snapshot ((topic, entry) ∷ topics) = (topic, entry.members) ∷ snapshot topics

module _ {Octets Frame Cause : Type 0} (k : FrameKit Octets Frame Cause) where
  -- A stamp that a failed frame was built for stays claimed.
  unfoldable pub reserve_ends :
      LocalState → List (Topic × List ℕ) → LocalState × Result (List (End Frame)) Cause
  reserve_ends backplane [] = (backplane, ok [])
  reserve_ends backplane ((topic, members) ∷ snapshots) =
      let (backplane', order) = reserve_order backplane topic in
      let rest = reserve_ends backplane' snapshots in
      elim (end_frame k topic order) [
        | err cause ↦ (backplane', err cause)
        | ok frame ↦ (
          rest.0,
          (do
            ends ← rest.1
            ok (record { topic = topic; order = order; members = members; frame = frame } ∷ ends)),
        )
      ]

module _ {Frame Handle : Type 0} where
  -- The swap of the flag: the new state and the old flag.
  unfoldable pub begin_quiesce : Registry Frame Handle → Registry Frame Handle × Bool
  begin_quiesce r = (record r { draining = true }, r.draining)

  -- Signals the members that are still registered, and counts them.
  unfoldable pub finish_members : Registry Frame Handle → Frame → List ℕ → Registry Frame Handle × ℕ
  unfolding live
  finish_members r end [] = (r, 0)
  finish_members r end (id ∷ ids) = elim (live r id) [
    | none ↦ finish_members r end ids
    | some subscriber ↦
        let (r', signaled) =
          finish_members (record r { arcs = Map.insert id (finish end subscriber) r.arcs }) end
            ids in
        (r', signaled + 1)
  ]

  unfoldable pub complete : Registry Frame Handle → List (End Frame) → Registry Frame Handle × ℕ
  unfolding finish_members
  complete r [] = (r, 0)
  complete r (end ∷ ends) =
      let marked = record r {
        topics =
            Map.modify end.topic (λ (e : TopicState). record e { last_order = end.order }) r.topics;
      } in
      let (r', signaled) = finish_members marked end.frame end.members in
      let (r'', rest) = complete r' ends in (r'', signaled + rest)
