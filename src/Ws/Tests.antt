-- ===== src/Ws/Tests.antt =====
-- Concrete inputs for the theorems about ws/tightbeam-ws/src/io.rs.
use tightbeam_ext.Prelude.{ℕ, ◌≡◌, ◌≤◌, ◌↔◌, ◌&&◌, List, [], ◌∷◌, all, length}
use tightbeam_ext.Prelude.Result.{Result, ok, err}
use tightbeam_ext.Ws.Io.{
  WsError, already_closed, Message, binary, close, Source, MessageSink, read_binary_frame, is_alive,
  new,
}
use tightbeam_ext.Ws.Io.Frames.{
  Next, Operation, reads, writes, perform, read_binary_frame-ok_iff, is_alive-perform,
}

-- A ping, an envelope of two octets, and the close.
abbrev incoming : Source Unit
incoming = ok Message.other ∷ ok (binary (1 ∷ 2 ∷ [])) ∷ ok close ∷ []

read_binary_frame-ok_iff_example :
    (read_binary_frame 2 incoming ≡ (ok close ∷ [], ok (1 ∷ 2 ∷ [])))
    ↔ (Next incoming (1 ∷ 2 ∷ []) (ok close ∷ []) × (length {A = ℕ} (1 ∷ 2 ∷ []) ≤ 2))
read_binary_frame-ok_iff_example = read_binary_frame-ok_iff 2 incoming (ok close ∷ []) (1 ∷ 2 ∷ [])

-- It keeps what it is given and has room for one message.
abbrev keep_one : List Message → Message → List Message × Result (Unit {0}) (WsError Unit)
keep_one [] message = (message ∷ [], ok tt)
keep_one (kept ∷ more) message = (kept ∷ more, err already_closed)

abbrev one_slot : MessageSink (List Message) Unit
one_slot = record { send = keep_one }

abbrev operations : List Operation
operations = reads 2 ∷ writes (3 ∷ []) ∷ writes (4 ∷ []) ∷ []

is_alive-perform_example : is_alive (perform one_slot operations (new incoming [])).0 ≡ (
    is_alive {Sink = List Message} (new incoming [])
    && all (λ b. b) (perform one_slot operations (new incoming [])).1)
is_alive-perform_example = is_alive-perform one_slot operations (new incoming [])
