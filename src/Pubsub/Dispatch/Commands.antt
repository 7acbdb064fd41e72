-- ===== src/Pubsub/Dispatch/Commands.antt =====
-- dispatch.rs: what the wire commands answer, and what they change.
use tightbeam_ext.Prelude.{
  ℕ, ◌≡◌, ◌≢◌, ◌⊎◌, refl, ◌∙◌, ap, false, Option, none, some, ◌++◌, arith, Option-cases, inl, inr,
  Bytes,
}
use tightbeam_ext.Prelude.Octets.{strip_prefix, strip_prefix→append}
use tightbeam_ext.Prelude.Map
use tightbeam_ext.Prelude.Map.{Map, get-insert, get-remove}
use tightbeam_ext.Prelude.Keys.{nat_eq}
use tightbeam_ext.Prelude.Result.{Result, ok, err, Result-cases, is_ok}
use tightbeam_ext.Pubsub.Topic.{
  Topic, topic_eq, topic_beq_iff, try_from, sub_prefix, unsub_prefix, pub_prefix,
}
use tightbeam_ext.Pubsub.Topic.Names.{IsName}
use tightbeam_ext.Pubsub.Policy.{AccessPolicy, allow}
use tightbeam_ext.Pubsub.Frame.{FrameKit, opaque_payload}
use tightbeam_ext.Pubsub.Registry.{Registry, RegisterError, unknown_connection, limit_reached}
use tightbeam_ext.Pubsub.Registry.Members.{member_identity, register}
use tightbeam_ext.Pubsub.Registry.Views.{holds, held}
use tightbeam_ext.Pubsub.Registry.Members.Registering.{
  Registers, is_draining, is_unknown, is_held, is_full, is_new, register-Registers,
}
use tightbeam_ext.Pubsub.Registry.Consistency.Joining.{holds-enlist}
use tightbeam_ext.Pubsub.Cluster
use tightbeam_ext.Pubsub.Cluster.{Cluster}
use tightbeam_ext.Pubsub.Dispatch.{
  TransitStatus, accepted, PubsubCommands, register_status, publish_status, authorized_topic,
  subscribe, publish, answer, answer_at,
}

no_prefix : (p name : Bytes) → ((rest : Bytes) → name ≢ p ++ rest) → strip_prefix p name ≡ none
no_prefix p name h = elim (Option-cases (strip_prefix p name)) [
  | inl e ↦ e
  | inr (rest, e) ↦ absurd (h rest (strip_prefix→append p name rest e))
]

is_accepted :
    (answer : Result ℕ RegisterError)
    → register_status answer ≡ accepted
    → (id : ℕ) × (answer ≡ ok id)
unfolding register_status
is_accepted (ok id) h = (id, refl)
is_accepted (err RegisterError.draining) h = absurd (ground arith)
is_accepted (err limit_reached) h = absurd (ground arith)
is_accepted (err unknown_connection) h = absurd (ground arith)

module _ {Frame Handle : Type 0} where
  -- What an authorized name stands for.
  pub record Authorized (r : Registry Frame Handle) (c : ℕ) (name : Bytes)
      (authorize : AccessPolicy) (topic : Topic) : Type 0 where
    pub parsed : try_from name ≡ ok topic
    pub identity : Option Bytes
    pub admitted : member_identity r c ≡ some identity
    pub allowed : authorize identity topic ≡ allow

  -- The preamble passes exactly the names that parse, of admitted connections that the policy
  -- allows, and never answers success otherwise.
  authorized_topic-ok :
      (r : Registry Frame Handle) (c : ℕ) (name : Bytes) (authorize : AccessPolicy) (topic : Topic)
      → authorized_topic r c name authorize ≡ ok topic
      → Authorized r c name authorize topic
  unfolding authorized_topic
  authorized_topic-ok r c name authorize topic h = elim (Result-cases (try_from name)) [
    | inr (bad, e) ↦ absurd (ground arith)
    | inl (t, e) ↦ elim (Option-cases (member_identity r c)) [
      | inl m ↦ absurd (ground arith)
      | inr (identity, m) ↦ record {
        parsed = ground arith;
        identity = identity;
        admitted = m;
        allowed = ground arith;
      }
    ]
  ]

  authorized_topic-err :
      (r : Registry Frame Handle) (c : ℕ) (name : Bytes) (authorize : AccessPolicy)
      (status : TransitStatus)
      → authorized_topic r c name authorize ≡ err status
      → status ≢ accepted
  unfolding authorized_topic
  authorized_topic-err r c name authorize status h = λ e. ground arith

  -- After a registration that succeeds the connection holds the topic under the id returned.
  register-holds :
      (r : Registry Frame Handle) (c : ℕ) (t : Topic) (id : ℕ) (r' : Registry Frame Handle)
      (a : Result ℕ RegisterError)
      → Registers r c t r' a
      → a ≡ ok id
      → holds r' c t ≡ some id
  unfolding held
  register-holds r c t id r' a (is_draining _) e = absurd (ground arith)
  register-holds r c t id r' a (is_unknown _ _) e = absurd (ground arith)
  register-holds r c t id r' a (is_held connected existing d known has) e =
      rw (known, held) (has ∙ ground arith)
  register-holds r c t id r' a (is_full _ _ _ _ _) e = absurd (ground arith)
  register-holds r c t id r' a (is_new connected d known has room) e =
      grind (arith, holds-enlist r c c t t connected.handle connected known, topic_beq_iff t t)

  -- A registration that is refused changes nothing.
  register-same :
      (r : Registry Frame Handle) (c : ℕ) (t : Topic) (r' : Registry Frame Handle)
      (a : Result ℕ RegisterError)
      → Registers r c t r' a
      → is_ok a ≡ false
      → r' ≡ r
  register-same r c t r' a (is_draining _) e = refl
  register-same r c t r' a (is_unknown _ _) e = refl
  register-same r c t r' a (is_held _ _ _ _ _) e = refl
  register-same r c t r' a (is_full _ _ _ _ _) e = refl
  register-same r c t r' a (is_new _ _ _ _ _) e = absurd (ground arith)

  -- `sub/` either answers success, and then the name is a topic that the policy allows to the
  -- identity of an admitted connection, which now holds it; or it answers something else and has
  -- changed nothing.
  pub subscribe-outcome :
      (policy : AccessPolicy) (r : Registry Frame Handle) (c : ℕ) (name : Bytes)
      → (((subscribe policy r c name).1 ≡ accepted)
          × ((topic : Topic) × (id : ℕ) × Authorized r c name policy topic
              × (holds (subscribe policy r c name).0 c topic ≡ some id)))
        ⊎ (((subscribe policy r c name).1 ≢ accepted) × ((subscribe policy r c name).0 ≡ r))
  unfolding subscribe register_status
  subscribe-outcome policy r c name = elim (Result-cases (authorized_topic r c name policy)) [
    | inr (status, e) ↦
        rw (e, subscribe) (inr (authorized_topic-err r c name policy status e, refl))
    | inl (topic, e) ↦
        let registers = register-Registers r c topic in
        elim (Result-cases (register r c topic).1) [
          | inl (id, a) ↦
              rw (e, subscribe)
                (inl (
                  ap register_status a,
                  (
                    topic,
                    id,
                    authorized_topic-ok r c name policy topic e,
                    register-holds r c topic id (register r c topic).0 (register r c topic).1
                        registers a,
                  ),
                ))
          | inr (refusal, a) ↦
              rw (e, subscribe)
                (inr (
                  λ h. let (id, b) = is_accepted (register r c topic).1 h in absurd (ground arith),
                  register-same r c topic (register r c topic).0 (register r c topic).1 registers
                      (ap is_ok a),
                ))
        ]
  ]

  module _ {Octets Cause : Type 0} (k : FrameKit Octets Frame Cause) where
    -- A frame whose id is a topic's name is no command: it changes nothing and is not answered.
    pub answer-IsName :
        (commands : PubsubCommands) (cluster : Cluster Frame Handle) (c : ℕ) (frame : Frame)
        → IsName (k.id frame)
        → answer k commands cluster c frame ≡ (cluster, none)
    unfolding answer answer_at
    answer-IsName commands cluster c frame named =
        let s = named.unreserved.0 in
        let u = named.unreserved.1.0 in
        let p = named.unreserved.1.1.0 in
        elim (Option-cases (Map.get commands.registry cluster.nodes)) [
          | inl e ↦ rw (e, answer) refl
          | inr (r, e) ↦
              let here : answer k commands cluster c frame
                  ≡ answer_at k commands cluster r c frame =
                rw (e, answer) refl in
              let there : answer_at k commands cluster r c frame ≡ (cluster, none) =
                rw
                  (
                    no_prefix sub_prefix (k.id frame) s,
                    no_prefix unsub_prefix (k.id frame) u,
                    no_prefix pub_prefix (k.id frame) p,
                    answer_at,
                  )
                  refl in
              here ∙ there
        ]

    -- A client publish is either the registry's own publish of the frame's payload, to a topic
    -- that the policy allows to the identity of an admitted connection, with the status that
    -- belongs to its answer; or it is refused and changes nothing.
    pub publish-outcome :
        (policy : AccessPolicy) (cluster : Cluster Frame Handle) (p : ℕ) (r : Registry Frame Handle)
        (c : ℕ) (name : Bytes) (frame : Frame)
        → ((topic : Topic) × (payload : Bytes) × Authorized r c name policy topic
            × (opaque_payload k frame ≡ ok payload)
            × (publish k policy cluster p r c name frame ≡ (
              (Cluster.publish k cluster p topic payload).0,
              publish_status (Cluster.publish k cluster p topic payload).1,
            )))
          ⊎ (((publish k policy cluster p r c name frame).1 ≢ accepted)
              × ((publish k policy cluster p r c name frame).0 ≡ cluster))
    unfolding publish
    publish-outcome policy cluster p r c name frame =
        elim (Result-cases (authorized_topic r c name policy)) [
          | inr (status, e) ↦
              rw (e, publish) (inr (authorized_topic-err r c name policy status e, refl))
          | inl (topic, e) ↦ elim (Result-cases (opaque_payload k frame)) [
            | inr (cause, b) ↦ rw (e, b, publish) (inr (λ h. ground arith, refl))
            | inl (payload, b) ↦ inl (
              topic,
              payload,
              authorized_topic-ok r c name policy topic e,
              b,
              rw (e, b, publish) refl,
            )
          ]
        ]
