-- ===== src/Ws/Wasm/Tests/Muxing.antt =====
-- Concrete inputs for the theorems about ws/tightbeam-ws-wasm/src/mux.rs.
use tightbeam_ext.Prelude.{
  ◌≡◌, ◌↔◌, ◌⊎◌, refl, ℕ, true, false, none, some, List, [], ◌∷◌, Bytes, String,
}
use tightbeam_ext.Prelude.Result.{ok}
use tightbeam_ext.Ws.Wasm.Errors.{ok_status}
use tightbeam_ext.Ws.Wasm.Mux.Serving.{
  ServeMode, unary, streaming, serve_all, assemble, last_of, serve_all-first,
}
use tightbeam_ext.Ws.Wasm.Mux.Handlers.{Host, Handler, respond_duplex_via_js}
use tightbeam_ext.Ws.Wasm.Mux.Refusals.{respond_duplex_via_js-ok_iff}

-- A later call in the same mode, and one in another.
abbrev calls : List (ServeMode × ℕ)
calls = (unary, 2) ∷ (streaming, 3) ∷ []

serve_all-first_example :
    serve_all {Responder = ℕ} (Unit {0}) ((unary, 1) ∷ calls) (assemble 7 0) ≡ (
      record { responder = none; handler = last_of unary 1 calls; serve_mode = some unary },
      (unary, 7) ∷ [],
    )
serve_all-first_example = serve_all-first (Unit {0}) unary 1 0 7 calls

-- Values of a host: texts, octets, an error with a code, and a promise.
data Js : Type 0 where
  undefined : Js
  js_text : String → Js
  octets : Bytes → Js
  promise : Js → Js

abbrev host : Host Js Bytes (Unit {0})
host = record {
  settle = λ value. elim value [ promise outcome ↦ some (ok outcome) | other ↦ none ];
  is_nullish = λ value. elim value [ undefined ↦ true | other ↦ false ];
  as_string = λ value. elim value [ js_text t ↦ some t | other ↦ none ];
  get = λ value name. ok (js_text "NotFound");
  to_bytes = λ value. elim value [ octets b ↦ b | other ↦ [] ];
  from_bytes = λ b. octets b;
  fault_value = λ fault. undefined;
  frame_to_der = λ frame. ok frame;
  frame_from_der = λ b. ok b;
}

-- It answers with its argument.
abbrev echo : Handler host
echo [] = ok undefined
echo (argument ∷ more) = ok (promise argument)

respond_duplex_via_js-ok_iff_example :
    (respond_duplex_via_js host echo (js_text "NotFound") undefined undefined ≡ ok_status) ↔ (
      (host.is_nullish (js_text "NotFound") ≡ true)
      ⊎ (host.as_string (js_text "NotFound") ≡ some "Ok"))
respond_duplex_via_js-ok_iff_example =
    respond_duplex_via_js-ok_iff host echo (js_text "NotFound") undefined undefined
      (promise (js_text "NotFound")) (js_text "NotFound") refl refl
