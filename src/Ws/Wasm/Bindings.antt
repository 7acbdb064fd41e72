-- ===== src/Ws/Wasm/Bindings.antt =====
-- ws/tightbeam-ws-wasm/src/bindings.rs: the composer of a structural frame, and the view of a decoded
-- one. The parser of object identifiers and the constructors of octet strings and matrices are those
-- of the crates: an interface. The other bindings pass their arguments on to build.rs.
pub mod Ordinals
use tightbeam_ext.Prelude.{ℕ, zero, suc, Option, none, some, [], ◌∷◌, List, Bytes, String}
use tightbeam_ext.Prelude.Result.{Result, ok, err, ◌>>=◌, ok_or, map_err}
use tightbeam_ext.Ws.Wasm.Errors.{TightBeamError}
use tightbeam_ext.Ws.Wasm.Build.Der.{Der}
use tightbeam_ext.Ws.Wasm.Build.Wire.{Codecs, DigestInfo, algorithm}
use tightbeam_ext.Ws.Wasm.Build.Config
use tightbeam_ext.Ws.Wasm.Build.Config.{Version, v0, v1, v2, v3, FrameConfig, FrameBuilder}

pub data MessagePriority : Type 0 where
  low_effort standard high_throughput low_latency expedited network_control : MessagePriority

-- What a `JsError` is made from: the text for an ordinal, an identifier or a matrix, that of an
-- octet string, or that of an error of tightbeam.
pub data BindingFault (Octets Fault : Type 0) : Type 0 where
  bad_version bad_priority bad_oid bad_matrix view_consumed : BindingFault Octets Fault
  bad_octets : Octets → BindingFault Octets Fault
  frame_fault : TightBeamError Fault → BindingFault Octets Fault

pub record Parsers (Oid Matrix Octets : Type 0) : Type 0 where
  pub parse_oid : String → Option Oid
  pub new_octets : Bytes → Result Bytes Octets
  pub from_row_major : ℕ → Bytes → Option Matrix

unfoldable pub version_from_ordinal : ℕ → Option Version
version_from_ordinal zero = some v0
version_from_ordinal (suc zero) = some v1
version_from_ordinal (suc (suc zero)) = some v2
version_from_ordinal (suc (suc (suc zero))) = some v3
version_from_ordinal other = none

unfoldable pub priority_from_ordinal : ℕ → Option MessagePriority
priority_from_ordinal zero = some low_effort
priority_from_ordinal (suc zero) = some standard
priority_from_ordinal (suc (suc zero)) = some high_throughput
priority_from_ordinal (suc (suc (suc zero))) = some low_latency
priority_from_ordinal (suc (suc (suc (suc zero)))) = some expedited
priority_from_ordinal (suc (suc (suc (suc (suc zero))))) = some network_control
priority_from_ordinal other = none

-- `FrameComposer` is its configuration.
abbrev pub FrameComposer : Type 0 → Type 0 → Type 0
FrameComposer Oid Matrix = FrameConfig MessagePriority (DigestInfo Oid) Matrix

module _ {Oid Matrix : Type 0} where
  abbrev pub new : FrameComposer Oid Matrix
  new = record {
    version = none;
    id = [];
    order = 0;
    message = [];
    priority = none;
    lifetime = none;
    previous_hash = none;
    matrix = none;
  }

-- The calls that set a field.
pub data Setting : Type 0 where
  with_version : ℕ → Setting
  with_id : Bytes → Setting
  with_order : ℕ → Setting
  with_message : Bytes → Setting
  with_priority : ℕ → Setting
  with_lifetime : ℕ → Setting
  with_previous_hash : String → Bytes → Setting
  with_matrix : ℕ → Bytes → Setting

module _ {Oid Matrix Octets : Type 0} (Fault : Type 0) (parsers : Parsers Oid Matrix Octets) where
  unfoldable pub oid_from : String → Result Oid (BindingFault Octets Fault)
  oid_from dotted = ok_or bad_oid (parsers.parse_oid dotted)

  unfoldable pub digest_info : String → Bytes → Result (DigestInfo Oid) (BindingFault Octets Fault)
  unfolding oid_from
  digest_info algorithm_oid digest = do
    oid ← oid_from algorithm_oid
    octets ← map_err bad_octets (parsers.new_octets digest)
    ok (record { algorithm = algorithm oid; digest = octets })

  -- A setter has the composer by `&mut`: what it leaves there, and what it returns.
  unfoldable pub apply :
      Setting
      → FrameComposer Oid Matrix
      → FrameComposer Oid Matrix × Result (Unit {0}) (BindingFault Octets Fault)
  unfolding version_from_ordinal priority_from_ordinal digest_info
  apply (with_version ordinal) config = elim (ok_or bad_version (version_from_ordinal ordinal)) [
    | err fault ↦ (config, err fault)
    | ok version ↦ (record config { version = some version }, ok tt)
  ]
  apply (with_id id) config = (record config { id = id }, ok tt)
  apply (with_order order) config = (record config { order = order }, ok tt)
  apply (with_message body_der) config = (record config { message = body_der }, ok tt)
  apply (with_priority ordinal) config = elim (ok_or bad_priority (priority_from_ordinal ordinal)) [
    | err fault ↦ (config, err fault)
    | ok priority ↦ (record config { priority = some priority }, ok tt)
  ]
  apply (with_lifetime seconds) config = (record config { lifetime = some seconds }, ok tt)
  apply (with_previous_hash algorithm_oid digest) config = elim (digest_info algorithm_oid digest) [
    | err fault ↦ (config, err fault)
    | ok info ↦ (record config { previous_hash = some info }, ok tt)
  ]
  apply (with_matrix n data_octets) config =
      elim (ok_or bad_matrix (parsers.from_row_major n data_octets)) [
        | err fault ↦ (config, err fault)
        | ok matrix ↦ (record config { matrix = some matrix }, ok tt)
      ]

  -- The calls one after another, and what each returned.
  unfoldable pub compose :
      List Setting
      → FrameComposer Oid Matrix
      → FrameComposer Oid Matrix × List (Result (Unit {0}) (BindingFault Octets Fault))
  unfolding apply
  compose [] config = (config, [])
  compose (setting ∷ settings) config =
      let (config', returned) = apply setting config in
      let (last, outcomes) = compose settings config' in (last, returned ∷ outcomes)

module _ {Builder Frame Body Envelope Oid Matrix Octets Fault : Type 0}
    (der : Der (TightBeamError Fault)) (codecs : Codecs Frame Envelope Oid (TightBeamError Fault))
    (builders : FrameBuilder Builder Frame Body MessagePriority
      (DigestInfo Oid)
      Matrix
      (TightBeamError Fault)) where
  unfoldable pub build : FrameComposer Oid Matrix → Result Bytes (BindingFault Octets Fault)
  build config = map_err frame_fault (Config.build der codecs builders config)

module _ {Summary Octets Fault : Type 0} where
  -- `FrameView::take_fields`, with the summary that becomes the object.
  unfoldable pub take_fields :
      Option Summary → Option Summary × Result Summary (BindingFault Octets Fault)
  take_fields none = (none, err view_consumed)
  take_fields (some summary) = (none, ok summary)
