-- ===== src/Pubsub/Registry/Delivery/Outcomes.antt =====
-- The ways in which `deliver` ends.
use tightbeam_ext.Prelude.{ℕ, ◌≡◌, sym, subst, inl, inr, true, false, arith, Bool-cases, Bytes}
use tightbeam_ext.Prelude.Result.{Result, ok, err, Result-cases}
use tightbeam_ext.Pubsub.Topic.{Topic}
use tightbeam_ext.Pubsub.Frame.{FrameKit, update_frame}
use tightbeam_ext.Pubsub.Backplane.{DeliverError}
use tightbeam_ext.Pubsub.Registry.{Registry}
use tightbeam_ext.Pubsub.Registry.Delivery.{fan_out, disconnect_all, deliver, advance}

module _ {Octets Frame Cause Handle : Type 0} (k : FrameKit Octets Frame Cause)
    (r : Registry Frame Handle) (t : Topic) (order : ℕ) (payload : Bytes) where
  -- The registry once the topic has the stamp.
  abbrev pub marked : Registry Frame Handle
  marked = record r { topics = advance t order r.topics }

  pub data Delivers : Registry Frame Handle → Result (Unit {0}) (DeliverError Cause) → Type 0 where
    is_draining : r.draining ≡ true → Delivers r (err DeliverError.draining)
    is_unbuilt :
        (cause : Cause)
        → r.draining ≡ false
        → update_frame k t order payload ≡ err cause
        → Delivers r (err (DeliverError.build cause))
    is_fanned :
        (update : Frame)
        → r.draining ≡ false
        → update_frame k t order payload ≡ ok update
        → Delivers (disconnect_all (fan_out marked t update).0 (fan_out marked t update).1) (ok tt)

  deliver_draining :
      r.draining ≡ true → deliver k r t order payload ≡ (r, err DeliverError.draining)
  unfolding deliver
  deliver_draining d = ground arith

  deliver_unbuilt :
      (cause : Cause)
      → r.draining ≡ false
      → update_frame k t order payload ≡ err cause
      → deliver k r t order payload ≡ (r, err (DeliverError.build cause))
  unfolding deliver
  deliver_unbuilt cause d e = ground arith

  pub deliver_fanned :
      (update : Frame)
      → r.draining ≡ false
      → update_frame k t order payload ≡ ok update
      → deliver k r t order payload
        ≡ (disconnect_all (fan_out marked t update).0 (fan_out marked t update).1, ok tt)
  unfolding deliver
  deliver_fanned update d e = ground arith

  pub deliver-Delivers : Delivers (deliver k r t order payload).0 (deliver k r t order payload).1
  deliver-Delivers = elim (Bool-cases r.draining) [
    | inl d ↦ by (deliver_draining d) (is_draining d)
    | inr d ↦ elim (Result-cases (update_frame k t order payload)) [
      | inl (update, e) ↦ by (deliver_fanned update d e) (is_fanned update d e)
      | inr (cause, e) ↦ by (deliver_unbuilt cause d e) (is_unbuilt cause d e)
    ]
  ]
    where
      by :
          {r' : Registry Frame Handle} {a : Result (Unit {0}) (DeliverError Cause)}
          → deliver k r t order payload ≡ (r', a)
          → Delivers r' a
          → Delivers (deliver k r t order payload).0 (deliver k r t order payload).1
      by {r'} {a} e x =
          subst
            (λ (y : Registry Frame Handle × Result (Unit {0}) (DeliverError Cause)).
              Delivers y.0 y.1)
            (sym e) x
