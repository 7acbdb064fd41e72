-- ===== src/Ws/Wasm/Build/Building.antt =====
-- ws/tightbeam-ws-wasm/src/build.rs: the frames that `FrameConfig::build` gives.
use tightbeam_ext.Prelude.{
  ℕ, ◌≤◌, ◌≡◌, ◌↔◌, sym, ap, ◌∙◌, Option, none, some, true, [], get_elem?, is_some, arith, Bytes,
  get_elem?-set_ne, get_elem?-set_self,
}
use tightbeam_ext.Prelude.Result.{ok, bind-ok}
use tightbeam_ext.Ws.Wasm.Errors.{TightBeamError}
use tightbeam_ext.Ws.Wasm.Build.Der.{Der, DerLaws, other}
use tightbeam_ext.Ws.Wasm.Build.Wire
use tightbeam_ext.Ws.Wasm.Build.Wire.{Codecs, WireFrame, frame_message, frame_metadata}
use tightbeam_ext.Ws.Wasm.Build.Splicing.{finish-Closed}
use tightbeam_ext.Ws.Wasm.Build.Installing.{FrameLaws, set_message-parts}
use tightbeam_ext.Ws.Wasm.Build.Config.{
  Version, v0, v1, v2, v3, FrameConfig, FrameBuilder, effective_version, build,
}

abbrev pub rank : Version → ℕ
rank v0 = 0
rank v1 = 1
rank v2 = 2
rank v3 = 3

-- A field that is set needs the version.
abbrev Needs : {A : Type 0} → Option A → ℕ → Version → Type 0
Needs field least version = is_some field ≡ true → least ≤ rank version

module _ {Priority Hash Matrix : Type 0} where
  -- What the protocol admits at a version.
  abbrev pub Admits : Version → FrameConfig Priority Hash Matrix → Type 0
  Admits version config =
      Needs config.priority 2 version
      × Needs config.lifetime 2 version
      × Needs config.previous_hash 2 version
      × Needs config.matrix 3 version

  -- Without a pinned version, the frame has the least version that admits its fields: the versions
  -- that admit them are those from it on.
  pub effective_version-Admits :
      (config : FrameConfig Priority Hash Matrix) (version : Version)
      → config.version ≡ none
      → Admits version config ↔ (rank (effective_version config) ≤ rank version)
  unfolding effective_version
  effective_version-Admits config version unpinned = (
    λ a. ground (arith, a.0, a.1, a.2, a.3),
    λ r. (λ p. ground arith, λ p. ground arith, λ p. ground arith, λ p. ground arith),
  )

  effective_version-pinned :
      (config : FrameConfig Priority Hash Matrix) (version : Version)
      → config.version ≡ some version
      → effective_version config ≡ version
  unfolding effective_version
  effective_version-pinned config version pinned = ground arith

module _ {Builder Frame Body Envelope Oid Priority Hash Matrix Fault : Type 0}
    (der : Der (TightBeamError Fault)) (laws : DerLaws der)
    (codecs : Codecs Frame Envelope Oid (TightBeamError Fault)) (frames : FrameLaws der codecs)
    (builders : FrameBuilder Builder Frame Body Priority Hash Matrix (TightBeamError Fault)) where
  -- A frame that is built has the configured message as its body, to the octet.
  pub build-message :
      (config : FrameConfig Priority Hash Matrix) (bytes : Bytes)
      → build der codecs builders config ≡ ok bytes
      → (wire : WireFrame) × (Wire.parse der codecs bytes ≡ ok wire)
        × (get_elem? wire.frame frame_message
            ≡ some (record { tag = other 4; value = config.message }))
  unfolding build
  build-message config bytes h =
      let (placeholder, a1, a2) = bind-ok (builders.new_body []) _ bytes h in
      let (frame, b1, b2) = bind-ok (builders.build_frame _) _ bytes a2 in
      let (structural, c1, c2) = bind-ok (builders.frame_to_der frame) _ bytes b2 in
      let (wire, d1, d2) = bind-ok (Wire.parse der codecs structural) _ bytes c2 in
      let (installed, e1, e2) =
        bind-ok (Wire.set_message der codecs config.message wire) _ bytes d2 in
      let (held, f1, f2) =
        set_message-parts der laws codecs frames config.message wire installed e1 in
      let closed = finish-Closed der laws codecs installed bytes e2 in
      (
        _,
        closed.reads,
        get_elem?-set_ne installed.frame frame_metadata frame_message closed.metadata
              (λ e. absurd (omega (arith, e)))
            ∙ ap (λ (w : WireFrame). get_elem? w.frame frame_message) (sym f2)
            ∙ get_elem?-set_self wire.frame frame_message _ held f1,
      )
