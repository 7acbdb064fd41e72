-- ===== src/Ws/Wasm/Build/Config.antt =====
-- ws/tightbeam-ws-wasm/src/build.rs: the structural frame, the preimages of the body and of its
-- commitment. `FrameBuilder` and `CommitmentSalt` are those of the tightbeam crate: interfaces.
use tightbeam_ext.Prelude.{
  ℕ, zero, suc, ◌/◌, ◌%◌, Option, none, some, ◌||◌, [], ◌∷◌, ◌++◌, length, if◌then◌else◌, is_some,
  Bytes,
}
use tightbeam_ext.Prelude.Result.{Result, ok, ◌>>=◌}
use tightbeam_ext.Ws.Wasm.Errors.{TightBeamError}
use tightbeam_ext.Ws.Wasm.Build.Der.{Der}
use tightbeam_ext.Ws.Wasm.Build.Wire
use tightbeam_ext.Ws.Wasm.Build.Wire.{Codecs}

pub data Version : Type 0 where
  v0 v1 v2 v3 : Version

-- The types of the optional metadata are tightbeam's.
pub record FrameConfig (Priority Hash Matrix : Type 0) : Type 0 where
  pub version : Option Version
  pub id : Bytes
  pub order : ℕ
  pub message : Bytes
  pub priority : Option Priority
  pub lifetime : Option ℕ
  pub previous_hash : Option Hash
  pub matrix : Option Matrix

-- The calls of `FrameBuilder`, of the codec of `Frame`, and of that of the opaque body.
pub record FrameBuilder (Builder Frame Body Priority Hash Matrix Error : Type 0) : Type 0 where
  pub new_body : Bytes → Result Body Error
  pub into_bytes : Body → Bytes
  pub body_to_der : Body → Result Bytes Error
  pub body_from_der : Bytes → Result Body Error
  pub from : Version → Builder
  pub with_id : Bytes → Builder → Builder
  pub with_order : ℕ → Builder → Builder
  pub with_message : Body → Builder → Builder
  pub with_priority : Priority → Builder → Builder
  pub with_lifetime : ℕ → Builder → Builder
  pub with_previous_hash : Hash → Builder → Builder
  pub with_matrix_dyn : Matrix → Builder → Builder
  pub build_frame : Builder → Result Frame Error
  pub frame_to_der : Frame → Result Bytes Error

module _ {Priority Hash Matrix : Type 0} where
  abbrev pub floor : Option Version → FrameConfig Priority Hash Matrix → Version
  floor (some version) config = version
  floor none config =
      if is_some config.matrix
      then v3
      else (if is_some config.priority || is_some config.lifetime || is_some config.previous_hash
          then v2
          else v0)

  unfoldable pub effective_version : FrameConfig Priority Hash Matrix → Version
  effective_version config = floor config.version config

-- `if let Some(value) = …`.
abbrev when : {A B : Type 0} → Option A → (A → B → B) → B → B
when none f b = b
when (some a) f b = f a b

module _ {Builder Frame Body Envelope Oid Priority Hash Matrix Fault : Type 0}
    (der : Der (TightBeamError Fault)) (codecs : Codecs Frame Envelope Oid (TightBeamError Fault))
    (builders : FrameBuilder Builder Frame Body Priority Hash Matrix (TightBeamError Fault)) where
  unfoldable pub build : FrameConfig Priority Hash Matrix → Result Bytes (TightBeamError Fault)
  unfolding effective_version
  build config = do
    placeholder ← builders.new_body []
    let started = builders.with_message placeholder (
        builders.with_order config.order
          (builders.with_id config.id (builders.from (effective_version config))))
    let prioritised = when config.priority builders.with_priority started
    let living = when config.lifetime builders.with_lifetime prioritised
    let linked = when config.previous_hash builders.with_previous_hash living
    let controlled = when config.matrix builders.with_matrix_dyn linked
    frame ← builders.build_frame controlled
    bytes ← builders.frame_to_der frame
    wire ← Wire.parse der codecs bytes
    installed ← Wire.set_message der codecs config.message wire
    Wire.finish der codecs installed

  unfoldable pub body_preimage : Bytes → Result Bytes (TightBeamError Fault)
  body_preimage message = do body ← builders.new_body message; builders.body_to_der body

  unfoldable pub decode_body : Bytes → Result Bytes (TightBeamError Fault)
  decode_body body_der = do body ← builders.body_from_der body_der; ok (builders.into_bytes body)

-- `hiding` holds a salt that is long enough.
pub data CommitmentSalt : Type 0 where
  plain_salt : CommitmentSalt
  hiding : Bytes → CommitmentSalt

abbrev pub plain_commitment : ℕ
plain_commitment = 0x00

abbrev pub hiding_commitment : ℕ
hiding_commitment = 0x01

-- The `digits` last octets of a number, most significant first.
unfoldable pub big_endian : ℕ → ℕ → Bytes
big_endian zero n = []
big_endian (suc digits) n = big_endian digits (n / 256) ++ n % 256 ∷ []

-- `u64::to_be_bytes`.
unfoldable pub to_be_bytes : ℕ → Bytes
unfolding big_endian
to_be_bytes n = big_endian 8 n

abbrev pub preimage : CommitmentSalt → Bytes → Bytes → Bytes
preimage plain_salt salt body = plain_commitment ∷ body
preimage (hiding kept) salt body = hiding_commitment ∷ (to_be_bytes (length salt) ++ (salt ++ body))

module _ {Error : Type 0} (parse : Bytes → Result CommitmentSalt Error) where
  unfoldable pub commitment_preimage : Bytes → Bytes → Result Bytes Error
  unfolding to_be_bytes
  commitment_preimage salt body_der = do parsed ← parse salt; ok (preimage parsed salt body_der)
