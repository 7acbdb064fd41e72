-- ===== src/Ws/Wasm/Tests/Frames.antt =====
-- Frames of the small codec, for the theorems about ws/tightbeam-ws-wasm/src/build.rs.
use mathlib.Core.Option
use tightbeam_ext.Prelude.{
  ℕ, suc, ◌≡◌, refl, sym, ap, ◌∙◌, Bool, true, false, inl, inr, Option-cases, ◌&&◌, Option, none,
  some, [], ◌∷◌, get_elem?, leb, if◌then◌else◌, arith, Bytes,
}
use tightbeam_ext.Prelude.Result.{Result, ok, err, ◌>>=◌, ok_or, ok-injective}
use tightbeam_ext.Ws.Wasm.Errors.{upstream}
use tightbeam_ext.Ws.Wasm.Build.Der.{Tag, sequence, context_specific, other, Any}
use tightbeam_ext.Ws.Wasm.Build.Sequence.{RawSequence, from_der}
use tightbeam_ext.Ws.Wasm.Build.Fields.{Closes, Ascend, is_plain, field}
use tightbeam_ext.Ws.Wasm.Build.Placing.{IsFrame}
use tightbeam_ext.Ws.Wasm.Build.Wire
use tightbeam_ext.Ws.Wasm.Build.Wire.{Codecs, WireFrame, DigestInfo, AlgorithmIdentifier, algorithm}
use tightbeam_ext.Ws.Wasm.Build.Splicing.{Opened, parse-Opened}
use tightbeam_ext.Ws.Wasm.Build.Installing.{FrameLaws}
use tightbeam_ext.Ws.Wasm.Build.Inspect.{Frame}
use tightbeam_ext.Ws.Wasm.Build.Config.{v1}
use tightbeam_ext.Ws.Wasm.Tests.Codec.{Fault, der, laws}

-- The tests for the order of components.
abbrev field_at : ℕ → Tag → (ℕ → Bool) → Bool
field_at least (context_specific true held) rest = leb least held && rest (suc held)
field_at least _ rest = false

abbrev ascends : ℕ → RawSequence → Bool
ascends least [] = true
ascends least (x ∷ xs) = field_at least x.tag (λ next. ascends next xs)

abbrev closing : Tag → Bool → Bool → Bool
closing (context_specific constructed held) fields rest = fields
closing _ fields rest = rest

abbrev closes : RawSequence → Bool
closes [] = true
closes (x ∷ xs) = closing x.tag (ascends 0 (x ∷ xs)) (closes xs)

abbrev is_frame : RawSequence → Bool
is_frame (version ∷ metadata ∷ message ∷ fields) =
    is_plain version.tag && (is_plain metadata.tag && (is_plain message.tag && ascends 0 fields))
is_frame _ = false

ascends-Ascend : (least : ℕ) (xs : RawSequence) → ascends least xs ≡ true → Ascend least xs
ascends-Ascend least [] h = tt
ascends-Ascend least (x ∷ xs) h = before x.tag h (λ next. ascends-Ascend next xs)
  where
    before :
        (t : Tag)
        → field_at least t (λ next. ascends next xs) ≡ true
        → ((next : ℕ) → ascends next xs ≡ true → Ascend next xs)
        → Ascend least (record { tag = t; value = x.value } ∷ xs)
    before (context_specific true held) h ih = (ground arith, ih (suc held) (ground arith))
    before (context_specific false held) h ih = cc
    before sequence h ih = cc
    before (other o) h ih = cc

closes-Closes : (xs : RawSequence) → closes xs ≡ true → Closes xs
closes-Closes [] h = tt
closes-Closes (x ∷ xs) h = before x.tag h (closes-Closes xs)
  where
    before :
        (t : Tag)
        → closes (record { tag = t; value = x.value } ∷ xs) ≡ true
        → (closes xs ≡ true → Closes xs)
        → Closes (record { tag = t; value = x.value } ∷ xs)
    before (context_specific constructed held) h ih =
        ascends-Ascend 0 (record { tag = context_specific constructed held; value = x.value } ∷ xs)
          h
    before sequence h ih = ih h
    before (other o) h ih = ih h

is_frame-IsFrame : (xs : RawSequence) → is_frame xs ≡ true → IsFrame xs
is_frame-IsFrame [] h = cc
is_frame-IsFrame (x ∷ []) h = cc
is_frame-IsFrame (x ∷ y ∷ []) h = cc
is_frame-IsFrame (x ∷ y ∷ z ∷ xs) h =
    (ground arith, ground arith, ground arith, ascends-Ascend 0 xs (ground arith))

abbrev digest_of : ℕ → Bytes → Option Any → Result Bytes Fault
digest_of oid digest none = ok (oid ∷ digest)
digest_of oid digest (some a) = err (upstream tt)

abbrev digest_to_der : DigestInfo ℕ → Result Bytes Fault
digest_to_der info = digest_of info.algorithm.oid info.digest info.algorithm.parameters

abbrev digest_from : Bytes → DigestInfo ℕ
digest_from [] = record { algorithm = algorithm 0; digest = [] }
digest_from (oid ∷ digest) = record { algorithm = algorithm oid; digest = digest }

digest_from-digest_to_der :
    (info : DigestInfo ℕ) (value : Bytes) → digest_to_der info ≡ ok value → digest_from value ≡ info
digest_from-digest_to_der info value h = elim (Option-cases info.algorithm.parameters) [
  | inl e ↦ ground (arith, e)
  | inr (a, e) ↦ ground (arith, e)
]

abbrev pub ExampleFrame : Type 0
ExampleFrame = Frame Bytes ℕ

abbrev frame_of : RawSequence → ExampleFrame
frame_of metadata = record {
  version = v1;
  metadata = record {
    id = [];
    order = 0;
    compactness = none;
    integrity = Option.map digest_from (field 0 metadata);
    confidentiality = none;
    priority = none;
    lifetime = none;
    previous_frame = none;
    matrix = none;
  };
  message = [];
  integrity = none;
  nonrepudiation = none;
}

unfoldable pub frame_from_der : Bytes → Result ExampleFrame Fault
unfolding field
frame_from_der bytes = do
  xs ← from_der der bytes
  held ← ok_or (upstream tt) (get_elem? xs 1)
  own ← der.encode held
  metadata ← from_der der own
  if is_frame xs && closes metadata then ok (frame_of metadata) else err (upstream tt)

abbrev pub codecs : Codecs ExampleFrame Bytes ℕ Fault
codecs = record {
  frame_from_der = frame_from_der;
  digest_to_der = digest_to_der;
  compressed_to_der = λ c. ok (0 ∷ 0 ∷ []);
  envelope_from_der = λ b. ok b;
  envelope_to_der = λ b. ok b;
  data_type = 7;
}

frame_from_der-Opened :
    (frame_der : Bytes) (wire : WireFrame)
    → Opened der laws codecs frame_der wire
    → frame_from_der frame_der ≡ (
        if is_frame wire.frame && closes wire.metadata
        then ok (frame_of wire.metadata)
        else err (upstream tt))
unfolding frame_from_der
frame_from_der-Opened frame_der wire o =
    rw o.components (rw o.at_metadata (rw (ok-injective o.encoded) (rw o.opened refl)))

-- What an accepted frame was read as.
parse-reads :
    (frame_der : Bytes) (wire : WireFrame)
    → Wire.parse der codecs frame_der ≡ ok wire
    → (is_frame wire.frame ≡ true)
      × (closes wire.metadata ≡ true)
      × (frame_from_der frame_der ≡ ok (frame_of wire.metadata))
parse-reads frame_der wire h =
    let o = parse-Opened der laws codecs frame_der wire h in
    let same = frame_from_der-Opened frame_der wire o in
    decided (is_frame wire.frame) (closes wire.metadata) (sym same ∙ o.accepted) same
  where
    decided :
        (ordered closed : Bool)
        → (if ordered && closed then ok (frame_of wire.metadata) else err (upstream tt))
          ≡ ok (parse-Opened der laws codecs frame_der wire h).decoded
        → frame_from_der frame_der
          ≡ (if ordered && closed then ok (frame_of wire.metadata) else err (upstream tt))
        → (ordered ≡ true)
          × (closed ≡ true)
          × (frame_from_der frame_der ≡ ok (frame_of wire.metadata))
    decided true true e same = (refl, refl, same)
    decided true false e same = cc
    decided false closed e same = cc

pub frames : FrameLaws der codecs
frames = record {
  frame_shape = λ frame_der wire h. is_frame-IsFrame wire.frame (parse-reads frame_der wire h).0;
  metadata_shape = λ frame_der wire h. closes-Closes wire.metadata (parse-reads frame_der wire h).1;
}

pub commitment :
    (frame_der value : Bytes) (frame : ExampleFrame) (wire : WireFrame) (info : DigestInfo ℕ)
    → codecs.frame_from_der frame_der ≡ ok frame
    → Wire.parse der codecs frame_der ≡ ok wire
    → field 0 wire.metadata ≡ some value
    → codecs.digest_to_der info ≡ ok value
    → frame.metadata.integrity ≡ some info
commitment frame_der value frame wire info f p v d =
    let read = ok-injective (sym f ∙ (parse-reads frame_der wire p).2) in
    ap (λ (x : ExampleFrame). x.metadata.integrity) read
    ∙ ap (Option.map digest_from) v
    ∙ ap some (digest_from-digest_to_der info value d)
