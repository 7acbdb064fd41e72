-- ===== src/Ws/Wasm/Mux/Serving.antt =====
-- ws/tightbeam-ws-wasm/src/mux.rs and streaming.rs: who serves the streams that the peer opens. The
-- responder is tightbeam's; the loop that it is spent on reads the handler's slot for each stream.
use Prim.Native.String.{◌++◌ as str_append}
use tightbeam_ext.Prelude.{
  ◌≡◌, refl, Bool, true, false, Bool-cases, inl, inr, Option, none, some, List, [], ◌∷◌, ◌++◌,
  if◌then◌else◌, String,
}
use tightbeam_ext.Prelude.Result.{Result, ok, err, ◌>>=◌}
use tightbeam_ext.Ws.Wasm.Faults.{JsFault, validation}

pub data ServeMode : Type 0 where
  unary streaming duplex : ServeMode

abbrev pub mode_eq : ServeMode → ServeMode → Bool
mode_eq unary unary = true
mode_eq streaming streaming = true
mode_eq duplex duplex = true
mode_eq _ _ = false

abbrev pub serve_mode_label : ServeMode → String
serve_mode_label unary = "unary"
serve_mode_label streaming = "streaming"
serve_mode_label duplex = "duplex"

-- `MuxWsClient`, as far as serving goes.
pub record Client (Responder Handler : Type 0) : Type 0 where
  pub responder : Option Responder
  pub handler : Handler
  pub serve_mode : Option ServeMode

-- A loop that was spawned, with the responder that it is spent on.
abbrev pub Loop : Type 0 → Type 0
Loop Responder = ServeMode × Responder

module _ {Responder Handler : Type 0} where
  -- With an inert handler.
  abbrev pub assemble : Responder → Handler → Client Responder Handler
  assemble responder inert = record {
    responder = some responder;
    handler = inert;
    serve_mode = none;
  }

module _ {Responder : Type 0} where
  abbrev pub spawn : ServeMode → Option Responder → List (Loop Responder)
  spawn mode none = []
  spawn mode (some responder) = (mode, responder) ∷ []

module _ {Transport : Type 0} where
  abbrev pub conflict : ServeMode → ServeMode → JsFault Transport
  conflict current mode = validation "ServeModeConflict" (
      str_append "peer serve mode is " (
        str_append (serve_mode_label current) (
          str_append ". Cannot switch to "
            (str_append (serve_mode_label mode) " after the responder started"))))

  abbrev pub claim : ServeMode → Option ServeMode → Result ServeMode (JsFault Transport)
  claim mode none = ok mode
  claim mode (some current) =
      if mode_eq current mode then ok current else err (conflict current mode)

module _ {Handler : Type 0} where
  -- The handler of the last call in the mode.
  abbrev pub last_of : ServeMode → Handler → List (ServeMode × Handler) → Handler
  last_of mode handler [] = handler
  last_of mode handler ((mode', handler') ∷ calls) =
      last_of mode (if mode_eq mode mode' then handler' else handler) calls

module _ {Responder Handler : Type 0} (Transport : Type 0) where
  unfoldable pub claim_serve :
      ServeMode → Client Responder Handler → Result (Client Responder Handler) (JsFault Transport)
  claim_serve mode client = do
    claimed ← claim {Transport = Transport} mode client.serve_mode
    ok (record client { serve_mode = some claimed })

  -- `serve`, `serve_streaming` and `serve_duplex` differ in the mode and in the loop for it.
  unfoldable pub serve_as :
      ServeMode
      → Handler
      → Client Responder Handler
      → Result (Client Responder Handler × List (Loop Responder)) (JsFault Transport)
  unfolding claim_serve
  serve_as mode handler client = do
    claimed ← claim_serve mode client
    ok (record claimed { handler = handler; responder = none }, spawn mode claimed.responder)

  -- A call that is refused leaves the client.
  unfoldable pub serve_all :
      List (ServeMode × Handler)
      → Client Responder Handler
      → Client Responder Handler × List (Loop Responder)
  serve_all [] client = (client, [])
  serve_all ((mode, handler) ∷ calls) client = elim (serve_as mode handler client) [
    | ok (client', loops) ↦ let (last, more) = serve_all calls client' in (last, loops ++ more)
    | err fault ↦ serve_all calls client
  ]

  abbrev claimed_by : ServeMode → Handler → Client Responder Handler
  claimed_by mode handler = record { responder = none; handler = handler; serve_mode = some mode }

  serve_as-same :
      (mode mode' : ServeMode) (handler handler' : Handler)
      → mode_eq mode mode' ≡ true
      → serve_as mode' handler' (claimed_by mode handler) ≡ ok (claimed_by mode handler', [])
  unfolding serve_as
  serve_as-same mode mode' handler handler' e = rw e refl

  -- A call in another mode is refused.
  serve_as-other :
      (mode mode' : ServeMode) (handler handler' : Handler)
      → mode_eq mode mode' ≡ false
      → serve_as mode' handler' (claimed_by mode handler) ≡ err (conflict mode mode')
  unfolding serve_as
  serve_as-other mode mode' handler handler' e = rw e refl

  serve_all-claimed :
      (mode : ServeMode) (handler : Handler) (calls : List (ServeMode × Handler))
      → serve_all calls (record { responder = none; handler = handler; serve_mode = some mode }) ≡ (
        record { responder = none; handler = last_of mode handler calls; serve_mode = some mode },
        [],
      )
  unfolding serve_all serve_as
  serve_all-claimed mode handler [] = refl
  serve_all-claimed mode handler ((mode', handler') ∷ calls) =
      elim (Bool-cases (mode_eq mode mode')) [
        | inl e ↦
            rw (serve_as-same mode mode' handler handler' e, serve_all)
              (rw e (rw (serve_all-claimed mode handler' calls) refl))
        | inr e ↦
            rw (serve_as-other mode mode' handler handler' e, serve_all)
              (rw e (rw (serve_all-claimed mode handler calls) refl))
      ]

  -- The first call claims the client for its mode: whatever calls follow, one loop is spawned, in
  -- that mode and with the responder, and the slot that the loop reads holds the handler of the
  -- last call in that mode.
  pub serve_all-first :
      (mode : ServeMode) (handler inert : Handler) (responder : Responder)
      (calls : List (ServeMode × Handler))
      → serve_all ((mode, handler) ∷ calls) (assemble responder inert) ≡ (
        record { responder = none; handler = last_of mode handler calls; serve_mode = some mode },
        (mode, responder) ∷ [],
      )
  unfolding serve_all serve_as
  serve_all-first mode handler inert responder calls =
      rw (serve_all-claimed mode handler calls) refl
