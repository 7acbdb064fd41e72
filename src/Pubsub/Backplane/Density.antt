-- ===== src/Pubsub/Backplane/Density.antt =====
-- The counters over a history of calls: the contract's dense orders.
use tightbeam_ext.Prelude.{
  ℕ, ◌+◌, ◌≤◌, ◌<◌, ◌≡◌, refl, subst, Bool, true, false, ◌&&◌, List, [], ◌∷◌, arith, if◌then◌else◌,
  length, Bytes,
}
use tightbeam_ext.Prelude.Map.{Map}
use tightbeam_ext.Prelude.Keys.{nat_eq}
use tightbeam_ext.Prelude.IdSet
use tightbeam_ext.Pubsub.Topic.{Topic, topic_beq, topic_beq_iff}
use tightbeam_ext.Pubsub.Backplane.{
  UpdateSink, LocalState, publish, last_order, next_order, reserve_order, live_sinks, u64_max,
}
use tightbeam_ext.Pubsub.Backplane.Walks.{Distinct}
use tightbeam_ext.Pubsub.Backplane.Stamps.{
  burns, polled, last_order-publish, last_order-reserve_order, publish-delivers,
}

pub data FabricCall : Type 0 where
  publishes : Topic → Bytes → FabricCall
  reserves : Topic → FabricCall

-- Each stamp is one more than that before it, from `n` on.
abbrev pub CountsFrom : ℕ → List ℕ → Type 0
CountsFrom n [] = Unit {0}
CountsFrom n (x ∷ xs) = (x ≡ n + 1) × CountsFrom (n + 1) xs

live_sinks-subset :
    {S : Type 0} (nodes : Map ℕ S) (p : ℕ) (ps : List ℕ)
    → IdSet.contains p ps ≡ false
    → IdSet.contains p (live_sinks nodes ps) ≡ false
unfolding live_sinks IdSet.contains
live_sinks-subset nodes p [] h = refl
live_sinks-subset nodes p (q ∷ ps) h = ground (arith, live_sinks-subset nodes p ps)

live_sinks-Distinct :
    {S : Type 0} (nodes : Map ℕ S) (ps : List ℕ) → Distinct ps → Distinct (live_sinks nodes ps)
unfolding live_sinks
live_sinks-Distinct nodes [] d = tt
live_sinks-Distinct nodes (p ∷ ps) d =
    ground (arith, live_sinks-subset nodes p ps d.0, live_sinks-Distinct nodes ps d.1)

counts_step :
    (b : Bool) (n m stamp last : ℕ) (xs : List ℕ)
    → m ≡ (if b then stamp else n)
    → (b ≡ true → stamp ≡ n + 1)
    → CountsFrom m xs × (last ≡ m + length xs)
    → CountsFrom n (if b then stamp ∷ xs else xs)
      × (last ≡ n + length (if b then stamp ∷ xs else xs))
counts_step true n m stamp last xs e f (c, l) =
    let next = f refl in ((next, subst (λ k. CountsFrom k xs) (omega arith) c), omega arith)
counts_step false n m stamp last xs e f (c, l) = (subst (λ k. CountsFrom k xs) e c, omega arith)

counts_room :
    (b : Bool) (n m stamp top : ℕ) (xs : List ℕ)
    → m ≡ (if b then stamp else n)
    → (b ≡ true → stamp ≡ n + 1)
    → n + length (if b then stamp ∷ xs else xs) ≤ top
    → m + length xs ≤ top
counts_room true n m stamp top xs e f h = let next = f refl in omega arith
counts_room false n m stamp top xs e f h = omega arith

-- A stamp that is burned has room.
counts_below :
    (b : Bool) (n stamp top : ℕ) (xs : List ℕ)
    → n + length (if b then stamp ∷ xs else xs) ≤ top
    → b ≡ true
    → n < top
counts_below true n stamp top xs h e = omega arith
counts_below false n stamp top xs h e = cc

-- Below the last 64-bit stamp, the next one is one more.
next_order-eq :
    (state : LocalState) (t j : Topic)
    → last_order state j < u64_max
    → topic_beq t j ≡ true
    → next_order state t ≡ last_order state j + 1
unfolding next_order
next_order-eq state t j h e = rw ((topic_beq_iff t j).0 e) (omega arith)

module _ {S Cause : Type 0} (sink : UpdateSink S Cause) where
  -- The stamps of one topic that a history burns, oldest first, and the state that it ends in.
  unfoldable pub stamps : Topic → LocalState → Map ℕ S → List FabricCall → List ℕ × LocalState
  stamps j state nodes [] = ([], state)
  stamps j state nodes (publishes t payload ∷ calls) =
      let (state', nodes', answer) = publish sink state nodes t payload in
      let (rest, last) = stamps j state' nodes' calls in
      (
        if topic_beq t j && burns (polled sink state nodes t payload)
            then next_order state t ∷ rest
            else rest,
        last,
      )
  stamps j state nodes (reserves t ∷ calls) =
      let (state', order) = reserve_order state t in
      let (rest, last) = stamps j state' nodes calls in
      (if topic_beq t j then order ∷ rest else rest, last)

  publish-Distinct :
      (state : LocalState) (nodes : Map ℕ S) (t : Topic) (payload : Bytes)
      → Distinct state.sinks
      → Distinct (publish sink state nodes t payload).0.sinks
  publish-Distinct state nodes t payload d =
      rw ((publish-delivers sink state nodes t payload 0 d).1)
        (live_sinks-Distinct nodes state.sinks d)

  -- If no sink is attached twice, over any history of publishes and reservations in which a topic
  -- burns no more stamps than there are 64-bit numbers above its counter, the stamps that it burns
  -- are its counter plus 1, 2, 3 and so on, and the counter ends at the last of them.
  pub stamps-CountsFrom :
      (j : Topic) (state : LocalState) (nodes : Map ℕ S) (calls : List FabricCall)
      → Distinct state.sinks
      → last_order state j + length (stamps j state nodes calls).0 ≤ u64_max
      → CountsFrom (last_order state j) (stamps j state nodes calls).0
        × (last_order (stamps j state nodes calls).1 j
            ≡ last_order state j + length (stamps j state nodes calls).0)
  unfolding stamps next_order reserve_order
  stamps-CountsFrom j state nodes [] d h = (tt, omega arith)
  stamps-CountsFrom j state nodes (publishes t payload ∷ calls) d h =
      let state' = (publish sink state nodes t payload).0 in
      let nodes' = (publish sink state nodes t payload).1 in
      let ih = stamps-CountsFrom j state' nodes' calls (publish-Distinct state nodes t payload d) in
      let moved = last_order-publish sink state nodes t payload j d in
      let b = topic_beq t j && burns (polled sink state nodes t payload) in
      let n = last_order state j in
      let stamp = next_order state t in
      let xs = (stamps j state' nodes' calls).0 in
      let next : b ≡ true → stamp ≡ n + 1 =
        λ e. next_order-eq state t j (counts_below b n stamp u64_max xs h e) (ground arith) in
      counts_step b n (last_order state' j) stamp _ xs moved next
        (ih (counts_room b n _ stamp u64_max xs moved next h))
  stamps-CountsFrom j state nodes (reserves t ∷ calls) d h =
      let state' = (reserve_order state t).0 in
      let moved = (last_order-reserve_order state t j).0 in
      let n = last_order state j in
      let stamp = next_order state t in
      let xs = (stamps j state' nodes calls).0 in
      let next : topic_beq t j ≡ true → stamp ≡ n + 1 =
        λ e. next_order-eq state t j (counts_below (topic_beq t j) n stamp u64_max xs h e) e in
      counts_step (topic_beq t j) n (last_order state' j) stamp _ xs moved next (
        stamps-CountsFrom j state' nodes calls d
          (counts_room (topic_beq t j) n _ stamp u64_max xs moved next h))
