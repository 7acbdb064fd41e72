-- ===== src/Ws/Wasm/Socket.antt =====
-- ws/tightbeam-ws-wasm/src/socket.rs: the promises of a browser socket's life. What the browser does
-- is the sequence of events that it dispatches to the socket; a listener registered with `once` is
-- detached as it is dispatched to, and a promise that is settled stays as it is.
pub mod Lifecycle
use Prim.Native.String.{◌++◌ as str_append}
use tightbeam_ext.Prelude.{
  ℕ, Bool, true, false, Option, none, some, List, [], ◌∷◌, ◌==◌, if◌then◌else◌, String,
}
use tightbeam_ext.Ws.Wasm.Faults.{JsFault, connection_closed}

-- What `close_info` reads of a `CloseEvent`.
pub record CloseInfo : Type 0 where
  pub code : ℕ
  pub reason : String
  pub was_clean : Bool

pub data SocketEvent : Type 0 where
  open_event : SocketEvent
  close_event : CloseInfo → SocketEvent

-- A promise of `undefined`.
pub data Promise (Transport : Type 0) : Type 0 where
  waiting resolved : Promise Transport
  rejected : JsFault Transport → Promise Transport

-- `OpenWatchSlot`, by whether it holds the watch, and the listeners of `open` and `close`.
pub record Opening (Transport : Type 0) : Type 0 where
  pub watch : Bool
  pub on_open : Bool
  pub on_close : Bool
  pub promise : Promise Transport

-- `CloseListenerSlot`, the resolver of the listener, and whether it is attached.
pub record Closing : Type 0 where
  pub slot : Bool
  pub resolver : Bool
  pub attached : Bool
  pub closed : Option CloseInfo

module _ {Transport : Type 0} where
  abbrev pub settle : Promise Transport → Promise Transport → Promise Transport
  settle waiting outcome = outcome
  settle held outcome = held

  unfoldable pub open_promise : Opening Transport
  open_promise = record { watch = true; on_open = true; on_close = true; promise = waiting }

  -- Whether there was a watch to take.
  abbrev pub take_watch : Opening Transport → Bool × Opening Transport
  take_watch s =
      if s.watch
      then (true, record s { watch = false; on_open = false; on_close = false })
      else (false, s)

  abbrev pub settle_watch : Promise Transport → Bool × Opening Transport → Opening Transport
  settle_watch outcome (taken, s) =
      if taken then record s { promise = settle s.promise outcome } else s

  -- `decimal` prints the code.
  abbrev pub closed_early : (ℕ → String) → CloseInfo → JsFault Transport
  closed_early decimal info =
      connection_closed (
        str_append "the socket closed before it opened (code " (str_append (decimal info.code) ")"))

  unfoldable pub dispatch_opening :
      (ℕ → String) → SocketEvent → Opening Transport → Opening Transport
  dispatch_opening decimal open_event s =
      if s.on_open then settle_watch resolved (take_watch (record s { on_open = false })) else s
  dispatch_opening decimal (close_event info) s =
      if s.on_close
      then settle_watch (rejected (closed_early decimal info))
          (take_watch (record s { on_close = false }))
      else s

  -- `SocketMonitor::opened`, by the ready state of the socket.
  unfoldable pub opened : ℕ → Opening Transport
  unfolding open_promise
  opened ready_state =
      if ready_state == 1
      then record { watch = false; on_open = false; on_close = false; promise = resolved }
      else if ready_state == 0
      then open_promise
      else record {
        watch = false;
        on_open = false;
        on_close = false;
        promise = rejected (connection_closed "the socket closed before it opened");
      }

  unfoldable pub observe_opening :
      (ℕ → String) → List SocketEvent → Opening Transport → Opening Transport
  unfolding dispatch_opening
  observe_opening decimal [] s = s
  observe_opening decimal (e ∷ es) s = observe_opening decimal es (dispatch_opening decimal e s)

unfoldable pub close_promise : Closing
close_promise = record { slot = true; resolver = true; attached = true; closed = none }

abbrev pub resolve_closed : CloseInfo → Closing → Closing
resolve_closed info s = if s.resolver then record s { resolver = false; closed = some info } else s

unfoldable pub dispatch_closing : SocketEvent → Closing → Closing
dispatch_closing open_event s = s
dispatch_closing (close_event info) s =
    if s.attached then resolve_closed info (record s { attached = false; slot = false }) else s

unfoldable pub observe_closing : List SocketEvent → Closing → Closing
unfolding dispatch_closing
observe_closing [] s = s
observe_closing (e ∷ es) s = observe_closing es (dispatch_closing e s)
