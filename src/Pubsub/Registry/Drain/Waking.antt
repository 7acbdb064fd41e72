-- ===== src/Pubsub/Registry/Drain/Waking.antt =====
-- registry.rs: the permits of `notify` against the phases of one delivery task.
use tightbeam_ext.Prelude.{
  ◌≡◌, refl, Bool, true, false, ◌||◌, not, List, [], ◌∷◌, arith, is_nil, if◌then◌else◌,
}
use tightbeam_ext.Prelude.Keys.{nat_eq}
use tightbeam_ext.Pubsub.Registry.{
  RegistryOptions, Subscriber, Phase, head, popping, checking, waiting, emitting, slot, closing,
  stopped,
}
use tightbeam_ext.Pubsub.Registry.Lanes.{count_drop, push, apply_verdict}
use tightbeam_ext.Pubsub.Registry.Drain.{
  Signal, resume, sent, refused, link_lost, slot_lost, drain, pop, settle, Drained,
}

-- Something that the task must see: an update, the end, or the subscriber's closing.
abbrev pub has_work : {Frame : Type 0} → Subscriber Frame → Bool
has_work s = not (is_nil s.lane.queue) || s.closed || s.finished

-- A task that waits, or is about to, has a permit if there is something to see.
abbrev pub IsAwake : {Frame : Type 0} → Phase Frame → Subscriber Frame → Type 0
IsAwake popping s = s.closed ≡ true → s.notify ≡ true
IsAwake checking s = (s.closed || not (is_nil s.lane.queue)) ≡ true → s.notify ≡ true
IsAwake waiting s = has_work s ≡ true → s.notify ≡ true
IsAwake _ s = Unit {0}

module _ {Frame : Type 0} where
  pop-IsAwake :
      (queue : List Frame) (s : Subscriber Frame)
      → (s.closed ≡ true → s.notify ≡ true)
      → IsAwake (pop queue s).1 (pop queue s).0
  unfolding pop
  pop-IsAwake [] s h = λ c. h (ground arith)
  pop-IsAwake (update ∷ queue) s h = tt

  settle-IsAwake :
      (delivered : Bool) (s : Subscriber Frame)
      → IsAwake (settle delivered s).1 (settle delivered s).0
  unfolding settle
  settle-IsAwake true s = tt
  settle-IsAwake false s = tt

  either-IsAwake :
      (b : Bool) (x y : Drained Frame)
      → (b ≡ true → IsAwake x.1 x.0)
      → (b ≡ false → IsAwake y.1 y.0)
      → IsAwake (if b then x else y).1 (if b then x else y).0
  either-IsAwake true x y h g = h refl
  either-IsAwake false x y h g = g refl

  -- One step of the task.
  pub drain-IsAwake :
      (phase : Phase Frame) (signal : Signal) (s : Subscriber Frame)
      → IsAwake phase s
      → IsAwake (drain phase signal s).1 (drain phase signal s).0
  unfolding drain
  drain-IsAwake head resume s h =
      either-IsAwake s.closed (s, stopped, false) (s, popping, false) (λ e. tt)
        (λ e c. ground arith)
  drain-IsAwake popping resume s h = pop-IsAwake s.lane.queue s h
  drain-IsAwake checking resume s h =
      either-IsAwake s.finished (s, stopped, false) (s, waiting, false) (λ e. tt)
        (λ e w. h (ground arith))
  drain-IsAwake waiting resume s h =
      either-IsAwake s.notify (record s { notify = false }, head, false) (s, waiting, false)
        (λ e. tt) (λ e. h)
  drain-IsAwake (emitting update) sent s h = settle-IsAwake true s
  drain-IsAwake (emitting update) refused s h = settle-IsAwake true (count_drop s)
  drain-IsAwake (emitting update) link_lost s h = settle-IsAwake false s
  drain-IsAwake (slot update) slot_lost s h = settle-IsAwake false s
  drain-IsAwake closing resume s h = tt
  drain-IsAwake phase signal s h = h

  pub push-IsAwake :
      (options : RegistryOptions) (update : Frame) (phase : Phase Frame) (s : Subscriber Frame)
      → IsAwake phase s
      → IsAwake phase (push options update s).0
  unfolding push apply_verdict
  push-IsAwake options update popping s h = λ c. ground arith
  push-IsAwake options update checking s h = λ w. ground arith
  push-IsAwake options update waiting s h = λ w. ground arith
  push-IsAwake options update phase s h = h

  pub notified-IsAwake :
      (phase : Phase Frame) (s : Subscriber Frame) → s.notify ≡ true → IsAwake phase s
  notified-IsAwake popping s n = λ w. n
  notified-IsAwake checking s n = λ w. n
  notified-IsAwake waiting s n = λ w. n
  notified-IsAwake head s n = tt
  notified-IsAwake (emitting update) s n = tt
  notified-IsAwake (slot update) s n = tt
  notified-IsAwake closing s n = tt
  notified-IsAwake stopped s n = tt
