-- ===== src/Ws/Wasm/Socket/Lifecycle.antt =====
-- ws/tightbeam-ws-wasm/src/socket.rs: what the promises of a socket come to.
use tightbeam_ext.Prelude.{
  ◌≡◌, refl, ap, ℕ, false, Option, none, some, List, [], ◌∷◌, is_nil, String,
}
use tightbeam_ext.Ws.Wasm.Socket.{
  CloseInfo, SocketEvent, open_event, close_event, Promise, waiting, resolved, rejected, Opening,
  Closing, open_promise, closed_early, observe_opening, close_promise, observe_closing,
}

module _ {Transport : Type 0} (decimal : ℕ → String) where
  -- What the first event makes of the promise that the socket opens.
  abbrev pub first_outcome : List SocketEvent → Promise Transport
  first_outcome [] = waiting
  first_outcome (open_event ∷ es) = resolved
  first_outcome (close_event info ∷ es) = rejected (closed_early decimal info)

  abbrev over : Promise Transport → Opening Transport
  over outcome = record { watch = false; on_open = false; on_close = false; promise = outcome }

  observe_opening-over :
      (outcome : Promise Transport) (es : List SocketEvent)
      → observe_opening decimal es (over outcome) ≡ over outcome
  unfolding observe_opening
  observe_opening-over outcome [] = refl
  observe_opening-over outcome (open_event ∷ es) = observe_opening-over outcome es
  observe_opening-over outcome (close_event info ∷ es) = observe_opening-over outcome es

-- What the first close makes of the promise that the socket closes.
abbrev pub first_close : List SocketEvent → Option CloseInfo
first_close [] = none
first_close (open_event ∷ es) = first_close es
first_close (close_event info ∷ es) = some info

observe_closing-over :
    (info : CloseInfo) (es : List SocketEvent)
    → observe_closing es
        (record { slot = false; resolver = false; attached = false; closed = some info })
      ≡ record { slot = false; resolver = false; attached = false; closed = some info }
unfolding observe_closing
observe_closing-over info [] = refl
observe_closing-over info (open_event ∷ es) = observe_closing-over info es
observe_closing-over info (close_event other ∷ es) = observe_closing-over info es

closed-first : (es : List SocketEvent) → (observe_closing es close_promise).closed ≡ first_close es
unfolding observe_closing close_promise
closed-first [] = refl
closed-first (open_event ∷ es) = closed-first es
closed-first (close_event info ∷ es) = ap (λ (s : Closing). s.closed) (observe_closing-over info es)

-- Once a socket that was connecting has dispatched events, the promise of its opening is what the
-- first event makes of it, resolved for `open` and rejected for `close`; the watch is taken and both
-- listeners are detached exactly if there was an event; and the promise of its closing has the
-- first close, if there was one.
pub observe-first :
    {Transport : Type 0} (decimal : ℕ → String) (es : List SocketEvent)
    → ((observe_opening {Transport = Transport} decimal es open_promise).promise
        ≡ first_outcome decimal es)
      × ((observe_opening {Transport = Transport} decimal es open_promise).watch ≡ is_nil es)
      × ((observe_opening {Transport = Transport} decimal es open_promise).on_open ≡ is_nil es)
      × ((observe_opening {Transport = Transport} decimal es open_promise).on_close ≡ is_nil es)
      × ((observe_closing es close_promise).closed ≡ first_close es)
unfolding observe_opening open_promise
observe-first decimal [] = (refl, refl, refl, refl, closed-first [])
observe-first decimal (open_event ∷ es) =
    rw (observe_opening-over decimal resolved es)
      (refl, refl, refl, refl, closed-first (open_event ∷ es))
observe-first decimal (close_event info ∷ es) =
    rw (observe_opening-over decimal (rejected (closed_early decimal info)) es)
      (refl, refl, refl, refl, closed-first (close_event info ∷ es))
