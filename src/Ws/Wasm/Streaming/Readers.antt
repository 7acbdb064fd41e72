-- ===== src/Ws/Wasm/Streaming/Readers.antt =====
-- ws/tightbeam-ws-wasm/src/streaming.rs: the reads among the calls on a duplex handle, suspended
-- or settled.
use tightbeam_ext.Prelude.{
  ◌≡◌, ◌≤◌, refl, sym, ap, ◌∙◌, ℕ, zero, suc, Option, none, some, some-injective, List, [], ◌∷◌,
  ◌++◌, get_elem?, length, arith, Bytes,
}
use mathlib.Core.List.{append-nil}
use tightbeam_ext.Prelude.Result.{Result}
use tightbeam_ext.Ws.Wasm.Faults.{JsFault}
use tightbeam_ext.Ws.Wasm.Streaming.Session.{remove_at}
use tightbeam_ext.Ws.Wasm.Streaming.Duplex.{
  Flight, pushing, closing, closing_with, reading, Settled, sent, read, refused,
}

abbrev pub Chunk : Type 0 → Type 0
Chunk Transport = Result (Option Bytes) (JsFault Transport)

-- What the reads among settled calls were answered.
abbrev pub chunks : {Transport : Type 0} → List (Settled Transport) → List (Chunk Transport)
chunks [] = []
chunks (read outcome ∷ rest) = outcome ∷ chunks rest
chunks (sent outcome ∷ rest) = chunks rest
chunks (refused fault ∷ rest) = chunks rest

pub chunks-append :
    {Transport : Type 0} (xs ys : List (Settled Transport))
    → chunks (xs ++ ys) ≡ chunks xs ++ chunks ys
chunks-append [] ys = refl
chunks-append (read outcome ∷ xs) ys = ap (λ l. outcome ∷ l) (chunks-append xs ys)
chunks-append (sent outcome ∷ xs) ys = chunks-append xs ys
chunks-append (refused fault ∷ xs) ys = chunks-append xs ys

pub alone : {A : Type 0} (a b : A) (rest : List A) → a ∷ rest ≡ b ∷ [] → (rest ≡ []) × (a ≡ b)
alone a b [] h = (refl, cc)
alone a b (x ∷ rest) h = absurd cc

module _ {Sink Body : Type 0} where
  -- The bodies that suspended reads hold.
  abbrev pub readers : List (Flight Sink Body) → List Body
  readers [] = []
  readers (reading held ∷ rest) = held ∷ readers rest
  readers (pushing held chunk ∷ rest) = readers rest
  readers (closing held ∷ rest) = readers rest
  readers (closing_with held chunk ∷ rest) = readers rest

  pub readers-append :
      (fs gs : List (Flight Sink Body)) → readers (fs ++ gs) ≡ readers fs ++ readers gs
  readers-append [] gs = refl
  readers-append (reading held ∷ fs) gs = ap (λ l. held ∷ l) (readers-append fs gs)
  readers-append (pushing held chunk ∷ fs) gs = readers-append fs gs
  readers-append (closing held ∷ fs) gs = readers-append fs gs
  readers-append (closing_with held chunk ∷ fs) gs = readers-append fs gs

  -- The body of a handle is in its slot or with one read.
  abbrev pub bodies : Option Body → List (Flight Sink Body) → List Body
  bodies none flights = readers flights
  bodies (some body) flights = body ∷ readers flights

  -- With one reader, taking a flight out takes the reader or leaves it.
  abbrev pub reader_of : Flight Sink Body → List Body
  reader_of f = readers (f ∷ [])

  readers-remove_at :
      (i : ℕ) (f : Flight Sink Body) (fs : List (Flight Sink Body))
      → get_elem? fs i ≡ some f
      → length (readers fs) ≤ 1
      → readers fs ≡ reader_of f ++ readers (remove_at i fs)
  readers-remove_at i f [] h k = cc
  readers-remove_at zero f (g ∷ fs) h k =
      ap (λ f. readers (f ∷ fs)) (some-injective h) ∙ readers-append (f ∷ []) fs
  readers-remove_at (suc i) f (g ∷ fs) h k =
      swap g f fs (remove_at i fs) k (readers-remove_at i f fs h)
    where
      swap :
          (g f : Flight Sink Body) (fs rest : List (Flight Sink Body))
          → length (readers (g ∷ fs)) ≤ 1
          → (length (readers fs) ≤ 1 → readers fs ≡ reader_of f ++ readers rest)
          → readers (g ∷ fs) ≡ reader_of f ++ readers (g ∷ rest)
      swap (pushing x b) f fs rest k ih = ih k
      swap (closing x) f fs rest k ih = ih k
      swap (closing_with x b) f fs rest k ih = ih k
      swap (reading x) (pushing y b) fs rest k ih = ap (λ l. x ∷ l) (ih (omega arith))
      swap (reading x) (closing y) fs rest k ih = ap (λ l. x ∷ l) (ih (omega arith))
      swap (reading x) (closing_with y b) fs rest k ih = ap (λ l. x ∷ l) (ih (omega arith))
      swap (reading x) (reading y) fs rest k ih =
          absurd (omega (arith, k, ap length (ih (omega arith))))

  readers-join :
      (flights : List (Flight Sink Body)) (f : Flight Sink Body)
      → reader_of f ≡ []
      → readers (flights ++ f ∷ []) ≡ readers flights
  readers-join flights f h =
      readers-append flights (f ∷ [])
      ∙ ap (λ l. readers flights ++ l) h
      ∙ append-nil (readers flights)

  pub bodies-join :
      (slot : Option Body) (flights : List (Flight Sink Body)) (f : Flight Sink Body)
      → reader_of f ≡ []
      → bodies slot (flights ++ f ∷ []) ≡ bodies slot flights
  bodies-join none flights f h = readers-join flights f h
  bodies-join (some b) flights f h = ap (λ l. b ∷ l) (readers-join flights f h)

  pub bodies-leave :
      (i : ℕ) (f : Flight Sink Body) (slot : Option Body) (flights : List (Flight Sink Body))
      (b : Body)
      → get_elem? flights i ≡ some f
      → reader_of f ≡ []
      → bodies slot flights ≡ b ∷ []
      → bodies slot (remove_at i flights) ≡ b ∷ []
  bodies-leave i f none flights b at h k =
      let left = readers-remove_at i f flights at (omega (arith, ap length k)) in
      cc (left, ap (λ l. l ++ readers (remove_at i flights)) h, k)
  bodies-leave i f (some x) flights b at h k =
      let left = readers-remove_at i f flights at (omega (arith, ap length k)) in
      cc (left, ap (λ l. l ++ readers (remove_at i flights)) h, k)

  pub bodies-read :
      (i : ℕ) (held : Body) (slot : Option Body) (flights : List (Flight Sink Body)) (b : Body)
      → get_elem? flights i ≡ some (reading held)
      → bodies slot flights ≡ b ∷ []
      → (held ≡ b) × (readers (remove_at i flights) ≡ [])
  bodies-read i held none flights b at k =
      let left = readers-remove_at i (reading held) flights at (omega (arith, ap length k)) in
      let (rest, same) = alone held b (readers (remove_at i flights)) (sym left ∙ k) in (same, rest)
  bodies-read i held (some x) flights b at k =
      let left = readers-remove_at i (reading held) flights at (omega (arith, ap length k)) in
      absurd (omega (arith, ap length left, ap length k))
