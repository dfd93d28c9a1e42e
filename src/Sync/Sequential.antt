-- ===== src/Sync/Sequential.antt =====
-- An interleaving against a description of what one call does.
use go_benefit.Prelude.{◌≡◌, List, [], ◌∷◌}
use mathlib.Core.Path.{subst}
use go_benefit.Sync.{Section, atomic}
use go_benefit.Sync.Invariant.{Replays}

module _ {M C R : Type 0} (Answers : C → M → R → M → Type 0) where
  -- The calls of the log, one after the other, as `Answers` describes them.
  abbrev pub Sequential : M → List (C × R) → M → Type 0
  Sequential first [] last = last ≡ first
  Sequential first ((c, r) ∷ log) last = (m : M) × Sequential first log m × Answers c m r last

module _ {M C L R : Type 0} (section : Section M C L R) (Answers : C → M → R → M → Type 0)
    (right : (c : C) (m : M) → Answers c m (atomic section c m).1 (atomic section c m).0) where
  pub Replays-Sequential :
      (first : M) (log : List (C × R)) (last : M)
      → Replays section first log last
      → Sequential Answers first log last
  Replays-Sequential first [] last h = h
  Replays-Sequential first ((c, r) ∷ log) last (m, before, e) =
      (m, Replays-Sequential first log m before, subst (λ p. Answers c m p.1 p.0) e (right c m))
