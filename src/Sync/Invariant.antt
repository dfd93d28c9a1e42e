-- ===== src/Sync/Invariant.antt =====
-- Mutual exclusion, and the order in which calls take effect.
use go_benefit.Prelude.{
  ℕ, ◌≡◌, refl, ◌≢◌, ◌⊎◌, inl, inr, List, [], ◌∷◌, arith, ◌==◌, nat_eq, Bool-cases,
}
use go_benefit.Sync.{
  Hold, free, exclusive, Section, atomic, mode, Pc, idle, waiting, inside, looked, leaving, System,
  begin, Move, lock, rlock, look, commit, release, Step, call, move, Reach, start, next,
}

module _ {M C L R : Type 0} (section : Section M C L R) where
  -- The calls of the log, one after the other, lead from the first memory to the last, each with its
  -- logged reply.
  abbrev pub Replays : M → List (C × R) → M → Type 0
  Replays first [] last = last ≡ first
  Replays first ((c, r) ∷ log) last =
      (m : M) × Replays first log m × (atomic section c m ≡ (last, r))

  abbrev pub Logged : C → R → List (C × R) → Type 0
  Logged c r [] = ⊥
  Logged c r ((d, q) ∷ log) = ((d ≡ c) × (q ≡ r)) ⊎ Logged c r log

  -- How a goroutine holds the lock where it stands.
  abbrev pub held_at : Pc C L R → Hold
  held_at idle = free
  held_at (waiting c) = free
  held_at (inside c) = mode section c
  held_at (looked c l) = mode section c
  held_at (leaving c r) = mode section c

  -- What a goroutine that has looked knows, and that one that leaves has its reply in the log.
  abbrev pub IsFresh : M → List (C × R) → Pc C L R → Type 0
  IsFresh m log (looked c l) = l ≡ section.look c m
  IsFresh m log (leaving c r) = Logged c r log
  IsFresh m log _ = Unit

  pub record Inv (first : M) (s : System M C L R) : Type 0 where
    pub held : (i : ℕ) → s.hold i ≡ held_at (s.pc i)
    pub alone : (i j : ℕ) → s.hold i ≡ exclusive → i ≢ j → s.hold j ≡ free
    pub fresh : (i : ℕ) → IsFresh s.mem s.log (s.pc i)
    pub replays : Replays first s.log s.mem

  begin-Inv : (first : M) → Inv first (begin first)
  begin-Inv first = record {
    held = λ i. refl;
    alone = λ i j h other. cc;
    fresh = λ i. tt;
    replays = refl;
  }

  module _ {first : M} {s : System M C L R} (inv : Inv first s) (i : ℕ) where
    Move-held : {t : System M C L R} → Move section s i t → (j : ℕ) → t.hold j ≡ held_at (t.pc j)
    Move-held (lock c here w alone) j = ground (arith, inv.held j)
    Move-held (rlock c here w alone) j = ground (arith, inv.held j)
    Move-held (look c here) j = ground (arith, inv.held j, inv.held i)
    Move-held (commit c l here) j = ground (arith, inv.held j, inv.held i)
    Move-held (release c r here) j = ground (arith, inv.held j, section.frees c)

    Move-alone :
        {t : System M C L R}
        → Move section s i t
        → (j k : ℕ) → t.hold j ≡ exclusive
        → j ≢ k
        → t.hold k ≡ free
    Move-alone (lock c here w free_all) j k = ground (arith, free_all j, free_all k)
    Move-alone (rlock c here w none_alone) j k = ground (arith, none_alone j, inv.alone j k)
    Move-alone (look c here) j k = ground (arith, inv.alone j k)
    Move-alone (commit c l here) j k = ground (arith, inv.alone j k)
    Move-alone (release c r here) j k = ground (arith, inv.alone j k, section.frees c)

  IsFresh-stays :
      (m after : M) (log : List (C × R)) (e : C × R) (p : Pc C L R)
      → IsFresh m log p
      → (after ≡ m) ⊎ (held_at p ≡ free)
      → IsFresh after (e ∷ log) p
  IsFresh-stays m after log e idle h k = tt
  IsFresh-stays m after log e (waiting c) h k = tt
  IsFresh-stays m after log e (inside c) h k = tt
  IsFresh-stays m after log e (looked c l) h k = ground (arith, h)
  IsFresh-stays m after log e (leaving c r) h k = inr h

  -- A write is made by a goroutine that is alone.
  kept_or_free :
      {first : M} {s : System M C L R} (inv : Inv first s) (i j : ℕ) (c : C) (l : L)
      → s.pc i ≡ looked c l
      → i ≢ j
      → ((section.commit c l s.mem).0 ≡ s.mem) ⊎ (held_at (s.pc j) ≡ free)
  kept_or_free {s = s} inv i j c l here other = elim (Bool-cases (section.writes c)) [
    | inl w ↦ inr (ground (arith, inv.held i, inv.held j, inv.alone i j))
    | inr k ↦ inl (section.keeps c l s.mem k)
  ]

  module _ {first : M} {s : System M C L R} (inv : Inv first s) (i : ℕ) where
    Move-IsFresh :
        {t : System M C L R} → Move section s i t → (j : ℕ) → IsFresh t.mem t.log (t.pc j)
    Move-IsFresh (lock c here w alone) j = ground (arith, inv.fresh j)
    Move-IsFresh (rlock c here w alone) j = ground (arith, inv.fresh j)
    Move-IsFresh (look c here) j = ground (arith, inv.fresh j)
    Move-IsFresh (commit c l here) j = elim (Bool-cases (i == j)) [
      | inl same ↦ rw same (inl (refl, refl))
      | inr other ↦ rw other (
          IsFresh-stays s.mem _ s.log _ (s.pc j) (inv.fresh j)
            (kept_or_free inv i j c l here (ground arith)))
    ]
    Move-IsFresh (release c r here) j = ground (arith, inv.fresh j)

    Move-Replays : {t : System M C L R} → Move section s i t → Replays first t.log t.mem
    Move-Replays (lock c here w alone) = inv.replays
    Move-Replays (rlock c here w alone) = inv.replays
    Move-Replays (look c here) = inv.replays
    Move-Replays (commit c l here) = (s.mem, inv.replays, ground (arith, inv.fresh i))
    Move-Replays (release c r here) = inv.replays

    pub Move-Inv : {t : System M C L R} → Move section s i t → Inv first t
    Move-Inv m = record {
      held = Move-held inv i m;
      alone = Move-alone inv i m;
      fresh = Move-IsFresh m;
      replays = Move-Replays m;
    }

  Step-Inv :
      {n : ℕ} {first : M} {s t : System M C L R} → Inv first s → Step section n s t → Inv first t
  Step-Inv inv (call i c lt here) = record {
    held = λ j. ground (arith, inv.held j, inv.held i);
    alone = inv.alone;
    fresh = λ j. ground (arith, inv.fresh j);
    replays = inv.replays;
  }
  Step-Inv inv (move i lt m) = Move-Inv inv i m

  pub Reach-Inv : {n : ℕ} {first : M} {s : System M C L R} → Reach section n first s → Inv first s
  Reach-Inv {first = first} start = begin-Inv first
  Reach-Inv (next reach step) = Step-Inv (Reach-Inv reach) step

  -- However n goroutines interleave, a memory that is reached is the one that the logged calls leave
  -- when they run one after the other, each with its logged reply; and a goroutine that leaves a call
  -- does so with a reply from the log.
  pub Reach-Replays :
      {n : ℕ} {first : M} {s : System M C L R}
      → Reach section n first s
      → Replays first s.log s.mem
        × ((i : ℕ) (c : C) (r : R) → s.pc i ≡ leaving c r → Logged c r s.log)
  Reach-Replays {s = s} reach =
      let inv = Reach-Inv reach in (inv.replays, λ i c r here. ground (arith, inv.fresh i))

  -- While a goroutine holds the lock for a method that writes, no other holds it at all.
  pub Reach-alone :
      {n : ℕ} {first : M} {s : System M C L R}
      → Reach section n first s
      → (i j : ℕ) → held_at (s.pc i) ≡ exclusive
      → i ≢ j
      → held_at (s.pc j) ≡ free
  Reach-alone reach i j =
      let inv = Reach-Inv reach in ground (arith, inv.held i, inv.held j, inv.alone i j)
