-- ===== src/Pubsub/Registry/Lanes/Queueing.antt =====
-- What pushes do to the queue of one subscriber.
use tightbeam_ext.Prelude.{
  ℕ, suc, ◌+◌, ◌-◌, ◌%◌, ◌≤◌, ◌<◌, min, max, ◌≡◌, sym, ◌∙◌, ◌⊎◌, inl, inr, refl, List, [], ◌∷◌,
  ◌++◌, arith, length, tail, length-append, if◌then◌else◌, ltb, take, drop, length-tail-le,
  length-tail, Bool-cases, take_of_length-le, take-append_full,
}
use mathlib.Core.List.{append-nil, append_assoc}
use tightbeam_ext.Pubsub.Topic.{Topic}
use tightbeam_ext.Pubsub.Policy.{DeliveryPolicy, DeliveryVerdict, drop_oldest, drop_new}
use tightbeam_ext.Pubsub.Registry.{RegistryOptions, Subscriber}
use tightbeam_ext.Pubsub.Registry.Lanes.{push, u64_mod}

-- The policy always answers so.
abbrev pub Always : DeliveryVerdict → DeliveryPolicy → Type 0
Always verdict policy = (topic : Topic) (n : ℕ) → policy topic n ≡ verdict

-- The last `n` of a list.
abbrev pub newest {ℓ} : {A : Type ℓ} → ℕ → List A → List A
newest n xs = drop (length xs - n) xs

module _ {A : Type 0} (n : ℕ) where
  newest_fits : (xs : List A) → length xs ≤ n → xs ≡ newest n xs
  newest_fits xs h = let e : length xs - n ≡ 0 = omega arith in rw e

  newest-cons : (x : A) (xs : List A) → n ≤ length xs → newest n (x ∷ xs) ≡ newest n xs
  newest-cons x xs h = let e : length (x ∷ xs) - n ≡ suc (length xs - n) = omega arith in rw e

  -- A queue after a push under `drop_oldest`.
  abbrev room_or_oldest : List A → A → List A
  room_or_oldest q u = if ltb (length q) n then q ++ u ∷ [] else tail q ++ u ∷ []

  newest_bound : (q : List A) (u : A) → 0 < n → length q ≤ n → length (room_or_oldest q u) ≤ n
  newest_bound [] u c h = grind (arith, length-append)
  newest_bound (x ∷ q) u c h = grind (arith, length-append)

  newest_step :
      (q : List A) (u : A) (us : List A)
      → 0 < n
      → length q ≤ n
      → newest n (room_or_oldest q u ++ us) ≡ newest n (q ++ u ∷ us)
  newest_step q u us c h = elim (Bool-cases (ltb (length q) n)) [
    | inl e ↦ rw (e, append_assoc) refl
    | inr e ↦ rw e (full q (ground arith))
  ]
    where
      full :
          (r : List A) → length r ≡ n → newest n ((tail r ++ u ∷ []) ++ us) ≡ newest n (r ++ u ∷ us)
      full [] z = absurd (omega arith)
      full (x ∷ r) z =
          rw append_assoc
            (sym (newest-cons x (r ++ u ∷ us) (omega (arith, length-append r (u ∷ us)))))

module _ {Frame : Type 0} (options : RegistryOptions) where
  -- Whatever the policy answers, a push leaves a queue that is within the capacity (or within
  -- one update, at capacity 0) within it.
  pub push-length-le :
      (update : Frame) (s : Subscriber Frame)
      → length s.lane.queue ≤ max 1 options.queue_capacity
      → length (push options update s).0.lane.queue ≤ max 1 options.queue_capacity
  unfolding push
  push-length-le update s h = grind (arith, length-append, length-tail-le s.lane.queue)

  queue-drop_oldest :
      (update : Frame) (s : Subscriber Frame)
      → Always drop_oldest options.delivery
      → (push options update s).0.lane.queue
        ≡ room_or_oldest options.queue_capacity s.lane.queue update
  unfolding push
  queue-drop_oldest update s a = ground (arith, a s.topic s.dropped)

  queue-drop_new :
      (update : Frame) (s : Subscriber Frame)
      → Always drop_new options.delivery
      → (push options update s).0.lane.queue ≡ (
          if ltb (length s.lane.queue) options.queue_capacity
          then s.lane.queue ++ update ∷ []
          else s.lane.queue)
  unfolding push
  queue-drop_new update s a = ground (arith, a s.topic s.dropped)

  -- One push under either policy: the length and the counter afterwards.
  counted :
      (update : Frame) (s : Subscriber Frame)
      → Always drop_oldest options.delivery ⊎ Always drop_new options.delivery
      → 0 < options.queue_capacity
      → length s.lane.queue ≤ options.queue_capacity
      → s.dropped < u64_mod
      → let s' = (push options update s).0 in
        (length s'.lane.queue ≡ min (length s.lane.queue + 1) options.queue_capacity)
        × (s'.dropped ≡ (s.dropped + (length s.lane.queue + 1 - options.queue_capacity)) % u64_mod)
        × (s'.dropped < u64_mod)
  unfolding push
  counted update s (inl a) c h b = ground (
    arith,
    a s.topic s.dropped,
    length-append s.lane.queue (update ∷ []),
    length-append (tail s.lane.queue) (update ∷ []),
    length-tail s.lane.queue,
  )
  counted update s (inr a) c h b =
      ground (arith, a s.topic s.dropped, length-append s.lane.queue (update ∷ []))

  -- Updates pushed one after the other, while none is taken.
  pub push_all : List Frame → Subscriber Frame → Subscriber Frame
  push_all [] s = s
  push_all (update ∷ updates) s = push_all updates (push options update s).0

  -- If the policy always drops the oldest, the capacity is positive and the queue within it,
  -- then after any pushes the queue holds the newest updates that fit, in order.
  pub push_all-drop_oldest :
      (updates : List Frame) (s : Subscriber Frame)
      → Always drop_oldest options.delivery
      → 0 < options.queue_capacity
      → length s.lane.queue ≤ options.queue_capacity
      → (push_all updates s).lane.queue ≡ newest options.queue_capacity (s.lane.queue ++ updates)
  unfolding push_all
  push_all-drop_oldest [] s a c h =
      simp append-nil (newest_fits options.queue_capacity s.lane.queue h)
  push_all-drop_oldest (update ∷ updates) s a c h =
      let s' = (push options update s).0 in
      let q = queue-drop_oldest update s a in
      push_all-drop_oldest updates s' a c
        (rw q (newest_bound options.queue_capacity s.lane.queue update c h))
      ∙ rw q (newest_step options.queue_capacity s.lane.queue update updates c h)

  -- If the policy always drops the new update and the queue is within its capacity, then after
  -- any pushes the queue holds the oldest updates that fit, in order.
  pub push_all-drop_new :
      (updates : List Frame) (s : Subscriber Frame)
      → Always drop_new options.delivery
      → length s.lane.queue ≤ options.queue_capacity
      → (push_all updates s).lane.queue ≡ take options.queue_capacity (s.lane.queue ++ updates)
  unfolding push_all
  push_all-drop_new [] s a h = rw append-nil (sym (take_of_length-le _ _ h))
  push_all-drop_new (update ∷ updates) s a h =
      elim (Bool-cases (ltb (length s.lane.queue) options.queue_capacity)) [
        | inl e ↦
            let q : (push options update s).0.lane.queue ≡ s.lane.queue ++ update ∷ [] =
              queue-drop_new update s a ∙ rw e in
            push_all-drop_new updates (push options update s).0 a
              (rw q (grind (arith, length-append)))
            ∙ rw (q, append_assoc)
        | inr e ↦
            let q : (push options update s).0.lane.queue ≡ s.lane.queue =
              queue-drop_new update s a ∙ rw e in
            let full : length s.lane.queue ≡ options.queue_capacity = ground arith in
            push_all-drop_new updates (push options update s).0 a (rw q h)
            ∙ rw q (
                take-append_full options.queue_capacity s.lane.queue updates full
                ∙ sym
                    (take-append_full options.queue_capacity s.lane.queue (update ∷ updates) full))
      ]

  -- If the policy always drops the oldest or always the new update, the capacity is positive,
  -- the queue within it and the counter of drops a 64-bit number, then any pushes add to the
  -- counter one for each update that did not fit, modulo 2 ^ 64.
  pub push_all-dropped :
      (updates : List Frame) (s : Subscriber Frame)
      → Always drop_oldest options.delivery ⊎ Always drop_new options.delivery
      → 0 < options.queue_capacity
      → length s.lane.queue ≤ options.queue_capacity
      → s.dropped < u64_mod
      → (push_all updates s).dropped
        ≡ (s.dropped + (length s.lane.queue + length updates - options.queue_capacity)) % u64_mod
  unfolding push_all
  push_all-dropped [] s a c h b = omega arith
  push_all-dropped (update ∷ updates) s a c h b =
      let (len, drp, bnd) = counted update s a c h b in
      push_all-dropped updates (push options update s).0 a c (omega arith) bnd ∙ omega arith
