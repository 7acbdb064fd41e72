-- ===== src/Ws/Wasm/Bindings/Ordinals.antt =====
-- ws/tightbeam-ws-wasm/src/bindings.rs: what a composer holds after any calls, those that throw
-- included.
use mathlib.Core.Option
use tightbeam_ext.Prelude.{
  ◌≡◌, ◌↔◌, refl, ap, ◌∙◌, ℕ, zero, suc, leb, Bool, true, false, ◌&&◌, if◌then◌else◌, is_some, map,
  Option, none, some, Option-cases, inl, inr, List, [], ◌∷◌, Bytes, arith,
}
use tightbeam_ext.Prelude.Result.{Result, ok, is_ok, Result-cases}
use tightbeam_ext.Ws.Wasm.Build.Wire.{DigestInfo, algorithm}
use tightbeam_ext.Ws.Wasm.Build.Config.{Version, v0, v1, v2, v3}
use tightbeam_ext.Ws.Wasm.Build.Building.{rank}
use tightbeam_ext.Ws.Wasm.Bindings.{
  MessagePriority, low_effort, standard, high_throughput, low_latency, expedited, network_control,
  Parsers, version_from_ordinal, priority_from_ordinal, oid_from, digest_info, FrameComposer,
  Setting, with_version, with_id, with_order, with_message, with_priority, with_lifetime,
  with_previous_hash, with_matrix, apply, compose,
}

-- An ordinal names a version exactly if it is the one that a view shows for it.
pub version_from_ordinal_iff :
    (ordinal : ℕ) (version : Version)
    → (version_from_ordinal ordinal ≡ some version) ↔ (ordinal ≡ rank version)
unfolding version_from_ordinal
version_from_ordinal_iff ordinal v0 = ground arith
version_from_ordinal_iff ordinal v1 = ground arith
version_from_ordinal_iff ordinal v2 = ground arith
version_from_ordinal_iff ordinal v3 = ground arith

-- The place of a priority in the order that the ordinals count.
abbrev pub priority_rank : MessagePriority → ℕ
priority_rank low_effort = 0
priority_rank standard = 1
priority_rank high_throughput = 2
priority_rank low_latency = 3
priority_rank expedited = 4
priority_rank network_control = 5

-- What of a composer can be told from outside, a version and a priority by their numbers.
pub record Shown (Oid Matrix : Type 0) : Type 0 where
  pub version : Option ℕ
  pub id : Bytes
  pub order : ℕ
  pub message : Bytes
  pub priority : Option ℕ
  pub lifetime : Option ℕ
  pub previous_hash : Option (DigestInfo Oid)
  pub matrix : Option Matrix

abbrev pub shown : {Oid Matrix : Type 0} → FrameComposer Oid Matrix → Shown Oid Matrix
shown config = record {
  version = Option.map rank config.version;
  id = config.id;
  order = config.order;
  message = config.message;
  priority = Option.map priority_rank config.priority;
  lifetime = config.lifetime;
  previous_hash = config.previous_hash;
  matrix = config.matrix;
}

-- The last of the calls to set a field that was accepted, or what the field had before.
abbrev pub last_set : {A : Type 0} → (Setting → Option A) → List Setting → A → A
last_set read [] held = held
last_set read (setting ∷ settings) held =
    last_set read settings (elim (read setting) [ none ↦ held | some a ↦ a ])

-- What a call sets each field to: a version is one of 0 to 3 and a priority one of 0 to 5.
abbrev pub version_set : Setting → Option (Option ℕ)
version_set (with_version ordinal) = if leb ordinal 3 then some (some ordinal) else none
version_set other = none

abbrev pub id_set : Setting → Option Bytes
id_set (with_id id) = some id
id_set other = none

abbrev pub order_set : Setting → Option ℕ
order_set (with_order order) = some order
order_set other = none

abbrev pub message_set : Setting → Option Bytes
message_set (with_message body_der) = some body_der
message_set other = none

abbrev pub priority_set : Setting → Option (Option ℕ)
priority_set (with_priority ordinal) = if leb ordinal 5 then some (some ordinal) else none
priority_set other = none

abbrev pub lifetime_set : Setting → Option (Option ℕ)
lifetime_set (with_lifetime seconds) = some (some seconds)
lifetime_set other = none

module _ {Oid Matrix Octets : Type 0} (parsers : Parsers Oid Matrix Octets) where
  abbrev info_of : Option Oid → Result Bytes Octets → Option (Option (DigestInfo Oid))
  info_of (some oid) (ok octets) =
      some (some (record { algorithm = algorithm oid; digest = octets }))
  info_of _ _ = none

  abbrev pub previous_hash_set : Setting → Option (Option (DigestInfo Oid))
  previous_hash_set (with_previous_hash algorithm_oid digest) =
      info_of (parsers.parse_oid algorithm_oid) (parsers.new_octets digest)
  previous_hash_set other = none

  abbrev pub matrix_set : Setting → Option (Option Matrix)
  matrix_set (with_matrix n data_octets) = Option.map some (parsers.from_row_major n data_octets)
  matrix_set other = none

  -- Which calls do not throw.
  abbrev pub accepted : Setting → Bool
  accepted (with_version ordinal) = leb ordinal 3
  accepted (with_priority ordinal) = leb ordinal 5
  accepted (with_previous_hash algorithm_oid digest) =
      is_some (parsers.parse_oid algorithm_oid) && is_ok (parsers.new_octets digest)
  accepted (with_matrix n data_octets) = is_some (parsers.from_row_major n data_octets)
  accepted other = true

  abbrev pub settings_of : List Setting → Shown Oid Matrix → Shown Oid Matrix
  settings_of settings before = record {
    version = last_set version_set settings before.version;
    id = last_set id_set settings before.id;
    order = last_set order_set settings before.order;
    message = last_set message_set settings before.message;
    priority = last_set priority_set settings before.priority;
    lifetime = last_set lifetime_set settings before.lifetime;
    previous_hash = last_set previous_hash_set settings before.previous_hash;
    matrix = last_set matrix_set settings before.matrix;
  }

module _ {Oid Matrix Octets : Type 0} (Fault : Type 0) (parsers : Parsers Oid Matrix Octets) where
  apply-settings_of :
      (setting : Setting) (config : FrameComposer Oid Matrix)
      → (shown (apply Fault parsers setting config).0
          ≡ settings_of parsers (setting ∷ []) (shown config))
        × (is_ok (apply Fault parsers setting config).1 ≡ accepted parsers setting)
  unfolding apply digest_info oid_from version_from_ordinal priority_from_ordinal
  apply-settings_of (with_id id) config = (refl, refl)
  apply-settings_of (with_order order) config = (refl, refl)
  apply-settings_of (with_message body_der) config = (refl, refl)
  apply-settings_of (with_lifetime seconds) config = (refl, refl)
  apply-settings_of (with_version zero) config = (refl, refl)
  apply-settings_of (with_version (suc zero)) config = (refl, refl)
  apply-settings_of (with_version (suc (suc zero))) config = (refl, refl)
  apply-settings_of (with_version (suc (suc (suc zero)))) config = (refl, refl)
  apply-settings_of (with_version (suc (suc (suc (suc n))))) config =
      let over : leb (suc (suc (suc (suc n)))) 3 ≡ false = ground arith in
      rw (over, last_set) (refl, refl)
  apply-settings_of (with_priority zero) config = (refl, refl)
  apply-settings_of (with_priority (suc zero)) config = (refl, refl)
  apply-settings_of (with_priority (suc (suc zero))) config = (refl, refl)
  apply-settings_of (with_priority (suc (suc (suc zero)))) config = (refl, refl)
  apply-settings_of (with_priority (suc (suc (suc (suc zero))))) config = (refl, refl)
  apply-settings_of (with_priority (suc (suc (suc (suc (suc zero)))))) config = (refl, refl)
  apply-settings_of (with_priority (suc (suc (suc (suc (suc (suc n))))))) config =
      let over : leb (suc (suc (suc (suc (suc (suc n)))))) 5 ≡ false = ground arith in
      rw (over, last_set) (refl, refl)
  apply-settings_of (with_matrix n data_octets) config =
      elim (Option-cases (parsers.from_row_major n data_octets)) [
        | inl e ↦ rw (e, apply, last_set) (refl, refl)
        | inr (x, e) ↦ rw (e, apply, last_set) (refl, refl)
      ]
  apply-settings_of (with_previous_hash algorithm_oid digest) config =
      elim (Option-cases (parsers.parse_oid algorithm_oid)) [
        | inl e ↦ rw (e, apply, last_set) (refl, refl)
        | inr (oid, e) ↦ elim (Result-cases (parsers.new_octets digest)) [
          | inl (octets, o) ↦ rw (e, apply, last_set) (rw (o, apply, last_set) (refl, refl))
          | inr (fault, o) ↦ rw (e, apply, last_set) (rw (o, apply, last_set) (refl, refl))
        ]
      ]

  -- After any calls of setters, each field of a composer is what the last accepted call to set it
  -- gave, or what it was before, a version and a priority told by their ordinals; and the calls
  -- that return without an error are those of an ordinal in range, of an identifier and octets that
  -- parse, of a matrix that its rows fill, and the calls that cannot fail.
  pub compose-settings_of :
      (settings : List Setting) (config : FrameComposer Oid Matrix)
      → (shown (compose Fault parsers settings config).0
          ≡ settings_of parsers settings (shown config))
        × (map is_ok (compose Fault parsers settings config).1 ≡ map (accepted parsers) settings)
  unfolding compose
  compose-settings_of [] config = (refl, refl)
  compose-settings_of (setting ∷ settings) config =
      let (config', returned) = apply Fault parsers setting config in
      let (fields, succeeded) = compose-settings_of settings config' in
      let (field, succeeds) = apply-settings_of setting config in
      (fields ∙ ap (settings_of parsers settings) field, cc (succeeds, succeeded))
