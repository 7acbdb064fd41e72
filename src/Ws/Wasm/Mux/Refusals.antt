-- ===== src/Ws/Wasm/Mux/Refusals.antt =====
-- ws/tightbeam-ws-wasm/src/mux.rs and streaming.rs: which handlers a stream is answered `Ok` for.
use text.Mathlib.Text.{◌==◌ as str_eq}
use text.Mathlib.TextEquality.{eq_iff}
use tightbeam_ext.Prelude.{
  some-injective, ◌≡◌, ◌≢◌, ◌↔◌, ◌⊎◌, refl, sym, ap, inl, inr, Option, none, some, Bool, true,
  false, [], ◌∷◌, if◌then◌else◌, String,
}
use tightbeam_ext.Prelude.Result.{ok, ◌>>=◌, Result-cases, bind-ok, ok-injective, ok_or}
use tightbeam_ext.Ws.Wasm.Errors.{ok_status}
use tightbeam_ext.Ws.Wasm.Faults.{validation}
use tightbeam_ext.Ws.Wasm.Mux.Statuses.{status_from_code, status_from_code-ne-ok_status}
use tightbeam_ext.Ws.Wasm.Mux.Handlers.{
  Host, ResponsePackage, Handler, settled, response_package, call_handler, refusal_for,
  respond_via_js, status_of, duplexed, label_status, refusal_status, respond_duplex_via_js,
}

module _ {Value Frame Transport : Type 0} (host : Host Value Frame Transport) where
  status_of-ne-ok_status : (code : Option String) → status_of host code ≢ ok_status
  status_of-ne-ok_status none h = cc
  status_of-ne-ok_status (some name) h = status_from_code-ne-ok_status name h

  package-ok :
      (value : Value) (response : ResponsePackage Frame)
      → response_package host value ≡ ok response
      → response.status ≡ ok_status
  package-ok value response h = decided (host.is_nullish value) h
    where
      decided :
          (b : Bool)
          → (if b
              then ok (record { status = ok_status; message = none })
              else (host.frame_from_der (host.to_bytes value) >>= λ (frame : Frame).
                  ok (record { status = ok_status; message = some frame })))
            ≡ ok response
          → response.status ≡ ok_status
      decided true e = ap (λ (p : ResponsePackage Frame). p.status) (sym (ok-injective e))
      decided false e =
          let (frame, a, b) = bind-ok (host.frame_from_der (host.to_bytes value)) _ response e in
          ap (λ (p : ResponsePackage Frame). p.status) (sym (ok-injective b))

  call_handler-ok :
      (handler : Handler host) (frame : Frame) (response : ResponsePackage Frame)
      → call_handler host handler frame ≡ ok response
      → response.status ≡ ok_status
  unfolding call_handler
  call_handler-ok handler frame response h =
      let (request, a1, a2) = bind-ok (host.frame_to_der frame) _ response h in
      let (returned, b1, b2) = bind-ok (handler (host.from_bytes request ∷ [])) _ response a2 in
      let (outcome, c1, c2) = bind-ok (settled host returned) _ response b2 in
      package-ok outcome response c2

  -- A unary stream is answered `Ok` exactly if its handler came to a response; a throw or a
  -- rejection never claims success, whatever code it carries.
  pub respond_via_js-ok_iff :
      (handler : Handler host) (frame : Frame)
      → ((respond_via_js host handler frame).status ≡ ok_status)
        ↔ ((response : ResponsePackage Frame) × (call_handler host handler frame ≡ ok response))
  unfolding respond_via_js refusal_for
  respond_via_js-ok_iff handler frame = (
    λ e. elim (Result-cases (call_handler host handler frame)) [
      | inl found ↦ found
      | inr (rejection, r) ↦ absurd (status_of-ne-ok_status _ (rw r at e))
    ],
    λ found. rw found.1 (handled found.0 found.1),
  )
    where
      handled :
          (response : ResponsePackage Frame)
          → call_handler host handler frame ≡ ok response
          → response.status ≡ ok_status
      handled response r = call_handler-ok handler frame response r

  -- A duplex stream whose handler returned, and came to an outcome, is answered `Ok` exactly if that
  -- is `undefined` or `null`, or the text "Ok".
  pub respond_duplex_via_js-ok_iff :
      (handler : Handler host) (body reply route returned outcome : Value)
      → handler (body ∷ reply ∷ route ∷ []) ≡ ok returned
      → settled host returned ≡ ok outcome
      → (respond_duplex_via_js host handler body reply route ≡ ok_status)
        ↔ ((host.is_nullish outcome ≡ true) ⊎ (host.as_string outcome ≡ some "Ok"))
  unfolding respond_duplex_via_js refusal_status
  respond_duplex_via_js-ok_iff handler body reply route returned outcome h k =
      rw h (rw k (decided (host.is_nullish outcome) (host.as_string outcome)))
    where
      labelled :
          (label : String) (b : Bool)
          → (str_eq label "Ok") ≡ b
          → ((if b then ok_status else status_from_code label) ≡ ok_status)
            ↔ ((◌≡◌ {A = Bool} false true) ⊎ (some label ≡ some "Ok"))
      labelled label true e = (λ h. inr (ap some ((eq_iff label "Ok").0 e)), λ h. refl)
      labelled label false e = (
        λ h. absurd (status_from_code-ne-ok_status label h),
        λ h. elim h [ inl f ↦ cc | inr s ↦ cc (e, (eq_iff label "Ok").1 (some-injective s)) ],
      )

      decided :
          (b : Bool) (t : Option String)
          → (duplexed host (
                if b
                then ok ok_status
                else (ok_or
                      (host.fault_value (
                        validation "InvalidDuplexStatus"
                          "serveDuplex handler must resolve with a status name or undefined"))
                      t
                    >>= λ (label : String). ok (label_status host label)))
              ≡ ok_status)
            ↔ ((b ≡ true) ⊎ (t ≡ some "Ok"))
      decided true t = (λ h. inl refl, λ h. refl)
      decided false none =
          (λ h. absurd (status_of-ne-ok_status _ h), λ h. elim h [ inl f ↦ cc | inr s ↦ cc ])
      decided false (some label) = labelled label (str_eq label "Ok") refl
