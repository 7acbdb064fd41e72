-- ===== src/Pubsub/Backplane/Walks.antt =====
-- The loop of `Local::publish` in terms of what each sink answers on its own.
use tightbeam_ext.Prelude.{
  ℕ, ◌≡◌, refl, sym, false, ◌||◌, Option, none, some, List, [], ◌∷◌, ◌++◌, arith, if◌then◌else◌,
  or_else, any, Bytes, ==_iff,
}
use mathlib.Core.List.{append-nil, append_assoc}
use mathlib.Core.Option
use tightbeam_ext.Prelude.IdSet
use tightbeam_ext.Prelude.Map
use tightbeam_ext.Prelude.Map.{Map, get-insert}
use tightbeam_ext.Prelude.Keys.{nat_eq}
use tightbeam_ext.Prelude.Result.{Result, ok, err, is_ok}
use tightbeam_ext.Pubsub.Topic.{Topic}
use tightbeam_ext.Pubsub.Backplane.{
  DeliverError, UpdateSink, Walk, is_hard, live_sinks, visit, walk,
}

abbrev pub Answer : Type 0 → Type 0
Answer Cause = Result (Unit {0}) (DeliverError Cause)

-- No sink is attached twice.
abbrev pub Distinct : List ℕ → Type 0
Distinct [] = Unit {0}
Distinct (p ∷ ps) = (IdSet.contains p ps ≡ false) × Distinct ps

module _ {Cause : Type 0} where
  abbrev pub hard_of : Answer Cause → Option (DeliverError Cause)
  hard_of (ok _) = none
  hard_of (err cause) = if is_hard cause then some cause else none

  abbrev pub soft_of : Answer Cause → Option (DeliverError Cause)
  soft_of (ok _) = none
  soft_of (err cause) = if is_hard cause then none else some cause

  abbrev pub first :
      (Answer Cause → Option (DeliverError Cause))
      → List (Answer Cause)
      → Option (DeliverError Cause)
  first f [] = none
  first f (r ∷ rs) = or_else (f r) (first f rs)

module _ {S : Type 0} where
  live_sinks-insert :
      (p : ℕ) (s : S) (nodes : Map ℕ S) (ps : List ℕ)
      → IdSet.contains p ps ≡ false
      → live_sinks (Map.insert p s nodes) ps ≡ live_sinks nodes ps
  unfolding live_sinks IdSet.contains
  live_sinks-insert p s nodes [] h = refl
  live_sinks-insert p s nodes (q ∷ ps) h =
      ground (arith, get-insert p q s nodes, ==_iff q p, ==_iff p q, live_sinks-insert p s nodes ps)

module _ {S Cause : Type 0} (sink : UpdateSink S Cause) (topic : Topic) (order : ℕ)
    (payload : Bytes) where
  -- What each live sink answers, in the order of attachment.
  unfoldable pub answers : Map ℕ S → List ℕ → List (Answer Cause)
  answers nodes [] = []
  answers nodes (p ∷ ps) = elim (Map.get p nodes) [
    | none ↦ answers nodes ps
    | some node ↦ (sink.deliver node topic order payload).1 ∷ answers nodes ps
  ]

  -- What the node at an address becomes.
  abbrev pub delivered : Option S → Option S
  delivered = Option.map (λ node. (sink.deliver node topic order payload).0)

  answers-insert :
      (p : ℕ) (s : S) (nodes : Map ℕ S) (ps : List ℕ)
      → IdSet.contains p ps ≡ false
      → answers (Map.insert p s nodes) ps ≡ answers nodes ps
  unfolding answers IdSet.contains
  answers-insert p s nodes [] h = refl
  answers-insert p s nodes (q ∷ ps) h =
      ground (arith, get-insert p q s nodes, ==_iff q p, ==_iff p q, answers-insert p s nodes ps)

  pub record Walked (w : Walk S Cause) (ps : List ℕ) (w' : Walk S Cause) : Type 0 where
    pub any_ok : w'.delivered_any ≡ (w.delivered_any || any is_ok (answers w.nodes ps))
    pub hard : w'.first_hard ≡ or_else w.first_hard (first hard_of (answers w.nodes ps))
    pub soft : w'.first_soft ≡ or_else w.first_soft (first soft_of (answers w.nodes ps))
    pub keeps : w'.kept ≡ w.kept ++ live_sinks w.nodes ps
    pub store :
        (q : ℕ)
        → Map.get q w'.nodes
          ≡ (if IdSet.contains q ps then delivered (Map.get q w.nodes) else Map.get q w.nodes)

  -- The closure on one sink, and then the rest.
  Walked-visit :
      (w w' : Walk S Cause) (p : ℕ) (ps : List ℕ)
      → IdSet.contains p ps ≡ false
      → Walked (visit sink topic order payload w p) ps w'
      → Walked w (p ∷ ps) w'
  unfolding visit answers live_sinks IdSet.contains
  Walked-visit w w' p ps d h = record {
    any_ok = grind (arith, h.any_ok, answers-insert);
    hard = grind (arith, h.hard, answers-insert);
    soft = grind (arith, h.soft, answers-insert);
    keeps = grind (arith, h.keeps, live_sinks-insert, append_assoc);
    store = λ q. grind (arith, h.store q, get-insert, ==_iff p q);
  }

  pub walk-Walked :
      (w : Walk S Cause) (ps : List ℕ)
      → Distinct ps
      → Walked w ps (walk sink topic order payload w ps)
  unfolding walk answers live_sinks IdSet.contains
  walk-Walked w [] d = record {
    any_ok = ground arith;
    hard = ground arith;
    soft = ground arith;
    keeps = sym (append-nil w.kept);
    store = λ q. refl;
  }
  walk-Walked w (p ∷ ps) d =
      Walked-visit w _ p ps d.0 (walk-Walked (visit sink topic order payload w p) ps d.1)
