-- ===== src/Pubsub/Tests.antt =====
-- Concrete inputs for the theorems about pubsub/tightbeam-pubsub: a frame kit that meets the laws
-- of frame.rs's interface, a few topics, a registry and a history of it.
pub mod Names
pub mod Lanes
pub mod Fabric
pub mod Registries
pub mod Commands
use tightbeam_ext.Prelude.{
  ℕ, ◌≡◌, ◌++◌, refl, ap, Bool, true, false, Option, none, some, List, [], ◌∷◌, arith, length, ltb,
  if◌then◌else◌, Bytes, ascii, Bool-cases, inl, inr,
}
use tightbeam_ext.Prelude.Result.{Result, ok, err}
use tightbeam_ext.Pubsub.Topic.{Topic}
use tightbeam_ext.Pubsub.Policy.{default_delivery}
use tightbeam_ext.Pubsub.Frame.{FrameKit, FrameLaws, OpaqueBody}
use tightbeam_ext.Pubsub.Registry.{Registry, RegistryOptions, Subscriber}
use tightbeam_ext.Pubsub.Registry.Drain.{resume}
use tightbeam_ext.Pubsub.Registry.Runs.{Call, admits, registers, delivers, drains}

pub data TestCause : Type 0 where
  too_long : TestCause

pub record TestFrame : Type 0 where
  pub frame_id : Bytes
  pub frame_order : ℕ
  pub frame_message : Bytes

-- The message is the body itself, and a body has eight octets at most.
abbrev pub short_octets : Bytes → Result Bytes TestCause
short_octets b = if ltb 8 (length b) then err too_long else ok b

abbrev pub kit : FrameKit Bytes TestFrame TestCause
kit = record {
  new_octets = short_octets;
  into_bytes = λ b. b;
  build_frame = λ i n b. ok (record { frame_id = i; frame_order = n; frame_message = b.body });
  id = λ f. f.frame_id;
  order = λ f. f.frame_order;
  message = λ f. f.frame_message;
  body_from_der = λ b. ok (record { body = b });
  to_der = λ f. ok (f.frame_id ++ f.frame_message);
}

pub kit-FrameLaws : FrameLaws kit
kit-FrameLaws = record {
  octets_kept = λ b o e. ground arith;
  id_kept = λ i n b f e. ground arith;
  order_kept = λ i n b f e. ground arith;
  body_kept = λ i n b f e. ground arith;
}

abbrev pub news : Topic
news = record { name = ascii "news" }

abbrev pub chat : Topic
chat = record { name = ascii "chat" }

abbrev pub two_deep : RegistryOptions
two_deep = record {
  queue_capacity = 2;
  max_subscriptions_per_connection = 2;
  delivery = default_delivery;
}

-- A subscriber of `news` at connection 1 with these frames queued.
abbrev pub holding : List TestFrame → Subscriber TestFrame
holding queue = record {
  topic = news;
  connection = 1;
  lane = record { queue = queue; in_flight = false };
  notify = true;
  dropped = 0;
  closed = false;
  finished = false;
}

abbrev pub update : ℕ → TestFrame
update n = record { frame_id = ascii "news"; frame_order = n; frame_message = ascii "hi" }

abbrev pub ending : ℕ → TestFrame
ending n = record { frame_id = ascii "end/news"; frame_order = n; frame_message = [] }

-- Connection 1 subscribes to `news` and its task waits; then an update comes.
abbrev pub history : List (Call TestFrame ℕ)
history =
    admits 7 (some (ascii "ann"))
    ∷ registers 1 news
    ∷ drains 1 resume
    ∷ drains 1 resume
    ∷ drains 1 resume
    ∷ delivers news 1 (ascii "hi")
    ∷ []
