-- ===== src/Sync/Termination.antt =====
-- Every run of the calls that have begun ends, whichever goroutine moves next.
use go_benefit.Prelude.{
  ℕ, zero, suc, ◌+◌, ◌*◌, ◌≤◌, ◌<◌, ◌≡◌, ◌⊎◌, inl, inr, arith, nat_eq, Bool-cases, leb,
}
use go_benefit.Sync.{
  Section, Pc, idle, waiting, inside, looked, leaving, System, Move, lock, rlock, look, commit,
  release, move, Reach, next,
}
use go_benefit.Sync.Progress.{
  moves_left, work, work-update-lt, busy_or_idle, outside_idle, some_moves, Finish, done, on,
}

-- How many moves a run takes.
abbrev pub moves :
    {M C L R : Type 0} {section : Section M C L R} {n : ℕ} {t s : System M C L R}
    → Finish section n t s
    → ℕ
moves done = 0
moves (on i lt m rest) = suc (moves rest)

module _ {C L R : Type 0} where
  moves_left-le : (p : Pc C L R) → moves_left p ≤ 4
  moves_left-le idle = omega arith
  moves_left-le (waiting c) = omega arith
  moves_left-le (inside c) = omega arith
  moves_left-le (looked c l) = omega arith
  moves_left-le (leaving c r) = omega arith

  work-le : (k : ℕ) (pc : ℕ → Pc C L R) → work k pc ≤ 4 * k
  unfolding work
  work-le zero pc = omega arith
  work-le (suc k) pc = omega (arith, work-le k pc, moves_left-le (pc k))

module _ {M C L R : Type 0} (section : Section M C L R) {n : ℕ} where
  -- Every move is one of those that its call had left.
  Move-lighter :
      {s : System M C L R} (i : ℕ)
      → i < n
      → {t : System M C L R} → Move section s i t
      → work n t.pc < work n s.pc
  Move-lighter {s} i lt (lock c here w quiet) =
      work-update-lt n i (inside c) s.pc lt (rw here (omega arith))
  Move-lighter {s} i lt (rlock c here w quiet) =
      work-update-lt n i (inside c) s.pc lt (rw here (omega arith))
  Move-lighter {s} i lt (look c here) =
      work-update-lt n i (looked c (section.look c s.mem)) s.pc lt (rw here (omega arith))
  Move-lighter {s} i lt (commit c l here) =
      work-update-lt n i (leaving c (section.commit c l s.mem).1) s.pc lt (rw here (omega arith))
  Move-lighter {s} i lt (release c r here) = work-update-lt n i idle s.pc lt (rw here (omega arith))

  moves-le :
      {t s : System M C L R} (run : Finish section n t s) → moves run + work n t.pc ≤ work n s.pc
  moves-le done = omega arith
  moves-le (on i lt m rest) = omega (arith, moves-le rest, Move-lighter i lt m)

  module _ {first : M} where
    pub Finish-Reach :
        {t s : System M C L R}
        → Reach section n first s
        → Finish section n t s
        → Reach section n first t
    Finish-Reach reach done = reach
    Finish-Reach reach (on i lt m rest) = Finish-Reach (next reach (move i lt m)) rest

    -- Every call has returned, or some goroutine can move.
    idle_or_moves :
        {s : System M C L R}
        → Reach section n first s
        → ((i : ℕ) → s.pc i ≡ idle)
          ⊎ ((i : ℕ) × (i < n) × (t : System M C L R) × Move section s i t)
    idle_or_moves {s} reach = elim (busy_or_idle s.pc n) [
      | inr quiet ↦ inl (λ i. elim (Bool-cases (leb (suc i) n)) [
        | inl below ↦ quiet i (ground arith)
        | inr above ↦ outside_idle section reach i (ground arith)
      ])
      | inl (i, lt, busy) ↦
          let (j, below, a) = some_moves section reach i lt busy in inr (j, below, a.after, a.moved)
    ]

    -- From every state that n goroutines reach, and whichever of them moves next, the calls that have
    -- begun make at most 4 * n moves; and until all of them have returned, some goroutine can move.
    pub Finish-terminates :
        {s t : System M C L R}
        → Reach section n first s
        → (run : Finish section n t s)
        → (moves run ≤ 4 * n)
          × (((i : ℕ) → t.pc i ≡ idle)
              ⊎ ((i : ℕ) × (i < n) × (u : System M C L R) × Move section t i u))
    Finish-terminates {s} reach run =
        (omega (arith, moves-le run, work-le n s.pc), idle_or_moves (Finish-Reach reach run))
