-- ===== src/Ws/Io/Frames.antt =====
-- io.rs: which envelope a read returns, and when a stream counts as alive.
use tightbeam_ext.Prelude.{
  ℕ, ◌≡◌, ◌≤◌, ◌↔◌, refl, subst, ◌∙◌, ap, Bool, true, false, ◌&&◌, List, [], ◌∷◌, ◌++◌, arith,
  length, ltb, all, Bool-cases, inl, inr, Bytes,
}
use tightbeam_ext.Prelude.Result.{Result, ok, err, is_ok}
use tightbeam_ext.Ws.Io.{
  WsError, Message, binary, close, Source, MessageSink, WsStream, settle, read_binary_frame,
  read_frame, write_frame, is_alive,
}

-- A text or control frame.
abbrev pub is_skipped : {IoError : Type 0} → Result Message (WsError IoError) → Bool
is_skipped (ok Message.other) = true
is_skipped (ok (binary payload)) = false
is_skipped (ok close) = false
is_skipped (err cause) = false

module _ {IoError : Type 0} where
  -- The binary message with this payload is the first item that is not skipped.
  pub record Next (source : Source IoError) (payload : Bytes) (rest : Source IoError) : Type 0 where
    pub skipped : Source IoError
    pub all_skipped : all is_skipped skipped ≡ true
    pub splits : source ≡ skipped ++ ok (binary payload) ∷ rest

  read→Next :
      (cap : ℕ) (source : Source IoError) (payload : Bytes)
      → (read_binary_frame cap source).1 ≡ ok payload
      → Next source payload (read_binary_frame cap source).0 × (length payload ≤ cap)
  unfolding read_binary_frame
  read→Next cap [] payload h = absurd (ground arith)
  read→Next cap (err cause ∷ source) payload h = absurd (ground arith)
  read→Next cap (ok (binary p) ∷ source) payload h = elim (Bool-cases (ltb cap (length p))) [
    | inl long ↦ absurd (ground arith)
    | inr fits ↦
        let same : p ≡ payload = ground arith in
        rw (fits, same) (record { skipped = []; all_skipped = refl; splits = refl }, ground arith)
  ]
  read→Next cap (ok close ∷ source) payload h = absurd (ground arith)
  read→Next cap (ok Message.other ∷ source) payload h =
      let (next, fits) = read→Next cap source payload h in
      (
        record {
          skipped = ok Message.other ∷ next.skipped;
          all_skipped = next.all_skipped;
          splits = ap (◌∷◌ (ok Message.other)) next.splits;
        },
        fits,
      )

  read-skips :
      (cap : ℕ) (skipped : Source IoError) (payload : Bytes) (rest : Source IoError)
      → all is_skipped skipped ≡ true
      → length payload ≤ cap
      → read_binary_frame cap (skipped ++ ok (binary payload) ∷ rest) ≡ (rest, ok payload)
  unfolding read_binary_frame
  read-skips cap [] payload rest a fits =
      let short : ltb cap (length payload) ≡ false = ground arith in rw short refl
  read-skips cap (ok Message.other ∷ skipped) payload rest a fits =
      read-skips cap skipped payload rest a fits
  read-skips cap (ok (binary p) ∷ skipped) payload rest a fits = absurd (ground arith)
  read-skips cap (ok close ∷ skipped) payload rest a fits = absurd (ground arith)
  read-skips cap (err cause ∷ skipped) payload rest a fits = absurd (ground arith)

  -- A read returns an envelope and leaves the rest of the items exactly when the envelope is the
  -- payload of the first item that is neither a text nor a control frame, it is within the cap,
  -- and those are the items after it.
  pub read_binary_frame-ok_iff :
      (cap : ℕ) (source rest : Source IoError) (payload : Bytes)
      → (read_binary_frame cap source ≡ (rest, ok payload))
        ↔ (Next source payload rest × (length payload ≤ cap))
  read_binary_frame-ok_iff cap source rest payload = (
    λ h.
        let (next, fits) = read→Next cap source payload (ap (λ x. x.1) h) in
        (subst (Next source payload) (ap (λ x. x.0) h) next, fits),
    λ h.
        ap (read_binary_frame cap) h.0.splits
        ∙ read-skips cap h.0.skipped payload rest h.0.all_skipped h.1,
  )

-- An operation on a stream: a read under a cap, or a write.
pub data Operation : Type 0 where
  reads : ℕ → Operation
  writes : Bytes → Operation

module _ {Sink IoError : Type 0} (sinks : MessageSink Sink IoError) where
  -- The stream after the operations, and which of them succeeded.
  unfoldable pub perform :
      List Operation → WsStream Sink IoError → WsStream Sink IoError × List Bool
  perform [] stream = (stream, [])
  perform (reads cap ∷ ops) stream =
      let (stream', outcome) = read_frame cap stream in
      let (end, outcomes) = perform ops stream' in (end, is_ok outcome ∷ outcomes)
  perform (writes buffer ∷ ops) stream =
      let (stream', outcome) = write_frame sinks buffer stream in
      let (end, outcomes) = perform ops stream' in (end, is_ok outcome ∷ outcomes)

  is_alive-read_frame :
      (cap : ℕ) (stream : WsStream Sink IoError)
      → is_alive (read_frame cap stream).0 ≡ (is_alive stream && is_ok (read_frame cap stream).1)
  unfolding read_frame settle
  is_alive-read_frame cap stream = ground arith

  is_alive-write_frame :
      (buffer : Bytes) (stream : WsStream Sink IoError)
      → is_alive (write_frame sinks buffer stream).0
        ≡ (is_alive stream && is_ok (write_frame sinks buffer stream).1)
  unfolding write_frame settle
  is_alive-write_frame buffer stream = ground arith

  -- After any operations a stream counts as alive exactly if it did before and all succeeded: a
  -- stream that has met its end or any error stays dead.
  pub is_alive-perform :
      (ops : List Operation) (stream : WsStream Sink IoError)
      → is_alive (perform ops stream).0 ≡ (is_alive stream && all (λ b. b) (perform ops stream).1)
  unfolding perform
  is_alive-perform [] stream = ground arith
  is_alive-perform (reads cap ∷ ops) stream =
      ground (arith, is_alive-perform ops (read_frame cap stream).0, is_alive-read_frame cap stream)
  is_alive-perform (writes buffer ∷ ops) stream = ground (
    arith,
    is_alive-perform ops (write_frame sinks buffer stream).0,
    is_alive-write_frame buffer stream,
  )
