-- ===== src/Ws/Wasm/Mux/Statuses.antt =====
-- ws/tightbeam-ws-wasm/src/mux.rs: the names of the gRPC statuses.
use text.Mathlib.Text.{◌==◌ as str_eq}
use text.Mathlib.TextEquality.{eq_iff}
use tightbeam_ext.Prelude.{
  some-injective, ◌≡◌, ◌≢◌, ◌↔◌, refl, sym, ap, subst, ◌∙◌, Option, none, some, Option-cases, inl,
  inr, Bool-cases, List, [], ◌∷◌, map, if◌then◌else◌, unwrap_or, String, arith,
}
use tightbeam_ext.Ws.Wasm.Errors.{
  TransitStatus, ok_status, cancelled, unknown, invalid_argument, deadline_exceeded, not_found,
  already_exists, permission_denied, resource_exhausted, failed_precondition, aborted, out_of_range,
  unimplemented, internal, unavailable, data_loss, unauthenticated,
}

module _ {A : Type 0} where
  -- The first arm of a `match` on a text that has it.
  unfoldable pub arm : String → List (String × A) → Option A
  arm name [] = none
  arm name ((pattern_text, a) ∷ arms) = if str_eq name pattern_text then some a else arm name arms

abbrev pub status_arms : List (String × TransitStatus)
status_arms =
    ("Cancelled", cancelled)
    ∷ ("InvalidArgument", invalid_argument)
    ∷ ("DeadlineExceeded", deadline_exceeded)
    ∷ ("NotFound", not_found)
    ∷ ("AlreadyExists", already_exists)
    ∷ ("PermissionDenied", permission_denied)
    ∷ ("ResourceExhausted", resource_exhausted)
    ∷ ("FailedPrecondition", failed_precondition)
    ∷ ("Aborted", aborted)
    ∷ ("OutOfRange", out_of_range)
    ∷ ("Unimplemented", unimplemented)
    ∷ ("Internal", internal)
    ∷ ("Unavailable", unavailable)
    ∷ ("DataLoss", data_loss)
    ∷ ("Unauthenticated", unauthenticated)
    ∷ []

unfoldable pub status_from_code : String → TransitStatus
unfolding arm
status_from_code name = unwrap_or unknown (arm name status_arms)

-- The name of a status: that of its variant.
abbrev pub status_name : TransitStatus → String
status_name ok_status = "Ok"
status_name cancelled = "Cancelled"
status_name unknown = "Unknown"
status_name invalid_argument = "InvalidArgument"
status_name deadline_exceeded = "DeadlineExceeded"
status_name not_found = "NotFound"
status_name already_exists = "AlreadyExists"
status_name permission_denied = "PermissionDenied"
status_name resource_exhausted = "ResourceExhausted"
status_name failed_precondition = "FailedPrecondition"
status_name aborted = "Aborted"
status_name out_of_range = "OutOfRange"
status_name unimplemented = "Unimplemented"
status_name internal = "Internal"
status_name unavailable = "Unavailable"
status_name data_loss = "DataLoss"
status_name unauthenticated = "Unauthenticated"

-- A refusal that has a name of its own.
abbrev pub IsNamed : TransitStatus → Type 0
IsNamed ok_status = ⊥
IsNamed unknown = ⊥
IsNamed _ = Unit

abbrev named : List TransitStatus → List (String × TransitStatus)
named = map (λ (s : TransitStatus). (status_name s, s))

abbrev refusals : List TransitStatus
refusals =
    cancelled ∷ invalid_argument ∷ deadline_exceeded ∷ not_found ∷ already_exists
    ∷ permission_denied ∷ resource_exhausted ∷ failed_precondition ∷ aborted ∷ out_of_range
    ∷ unimplemented ∷ internal ∷ unavailable ∷ data_loss ∷ unauthenticated ∷ []

-- An arm of named statuses is that of its name, and is not one that is left out.
arm-named :
    (code : String) (s : TransitStatus) (ss : List TransitStatus)
    → arm code (named ss) ≡ some s
    → code ≡ status_name s
unfolding arm
arm-named code s [] h = cc
arm-named code s (t ∷ ss) h = elim (Bool-cases (str_eq code (status_name t))) [
  | inl e ↦ (eq_iff code (status_name t)).0 e ∙ ap status_name (some-injective (rw e at h))
  | inr e ↦ arm-named code s ss (rw e at h)
]

abbrev AllNamed : List TransitStatus → Type 0
AllNamed [] = Unit
AllNamed (s ∷ ss) = IsNamed s × AllNamed ss

arm-IsNamed :
    (code : String) (s : TransitStatus) (ss : List TransitStatus)
    → AllNamed ss
    → arm code (named ss) ≡ some s
    → IsNamed s
unfolding arm
arm-IsNamed code s [] a h = cc
arm-IsNamed code s (t ∷ ss) a h = elim (Bool-cases (str_eq code (status_name t))) [
  | inl e ↦ subst IsNamed (some-injective (rw e at h)) a.0
  | inr e ↦ arm-IsNamed code s ss a.1 (rw e at h)
]

-- A code gives a status of its own exactly if it is the name of that status.
pub status_from_code_iff :
    (code : String) (status : TransitStatus)
    → IsNamed status
    → (status_from_code code ≡ status) ↔ (code ≡ status_name status)
unfolding status_from_code
status_from_code_iff code status named_status =
    (forward, λ e. ap status_from_code e ∙ own status named_status)
  where
    own : (s : TransitStatus) → IsNamed s → status_from_code (status_name s) ≡ s
    own cancelled n = refl
    own invalid_argument n = refl
    own deadline_exceeded n = refl
    own not_found n = refl
    own already_exists n = refl
    own permission_denied n = refl
    own resource_exhausted n = refl
    own failed_precondition n = refl
    own aborted n = refl
    own out_of_range n = refl
    own unimplemented n = refl
    own internal n = refl
    own unavailable n = refl
    own data_loss n = refl
    own unauthenticated n = refl
    own ok_status n = absurd n
    own unknown n = absurd n

    forward : status_from_code code ≡ status → code ≡ status_name status
    forward h = elim (Option-cases (arm code status_arms)) [
      | inl e ↦ absurd (subst IsNamed (sym h ∙ ap (unwrap_or unknown) e) named_status)
      | inr (t, e) ↦
          let same : t ≡ status = sym (ap (unwrap_or unknown) e) ∙ h in
          arm-named code t refusals e ∙ ap status_name same
    ]

-- Whatever the code, it does not claim success.
pub status_from_code-ne-ok_status : (code : String) → status_from_code code ≢ ok_status
unfolding status_from_code
status_from_code-ne-ok_status code h = elim (Option-cases (arm code status_arms)) [
  | inl e ↦ cc (sym h ∙ ap (unwrap_or unknown) e)
  | inr (t, e) ↦
      let same : t ≡ ok_status = sym (ap (unwrap_or unknown) e) ∙ h in
      subst IsNamed same (arm-IsNamed code t refusals (omega arith) e)
]
