-- ===== src/Sync/Progress.antt =====
-- The moves that calls still have before them once they have begun.
use go_benefit.Prelude.{
  ℕ, zero, suc, ◌+◌, ◌≤◌, ◌<◌, ◌≡◌, refl, ◌≢◌, ◌⊎◌, inl, inr, arith, ◌==◌, nat_eq, Bool-cases, leb,
  update, ◌∙◌,
}
use go_benefit.Sync.{
  Hold, free, shared, exclusive, Section, Pc, idle, waiting, inside, looked, leaving, System, Move,
  lock, rlock, look, commit, release, call, move, Reach, start, next,
}
use go_benefit.Sync.Invariant.{held_at, Reach-Inv}

-- How many moves a call still takes.
abbrev pub moves_left : {C L R : Type 0} → Pc C L R → ℕ
moves_left idle = 0
moves_left (waiting c) = 4
moves_left (inside c) = 3
moves_left (looked c l) = 2
moves_left (leaving c r) = 1

module _ {C L R : Type 0} where
  idle-cases : (p : Pc C L R) → (p ≡ idle) ⊎ (p ≢ idle)
  idle-cases idle = inl refl
  idle-cases (waiting c) = inr (λ e. cc)
  idle-cases (inside c) = inr (λ e. cc)
  idle-cases (looked c l) = inr (λ e. cc)
  idle-cases (leaving c r) = inr (λ e. cc)

  pub busy_or_idle :
      (pc : ℕ → Pc C L R) (k : ℕ)
      → ((i : ℕ) × (i < k) × (pc i ≢ idle)) ⊎ ((i : ℕ) → i < k → pc i ≡ idle)
  busy_or_idle pc zero = inr (λ j h. absurd (omega arith))
  busy_or_idle pc (suc k) = elim (busy_or_idle pc k) [
    | inl (j, lt, h) ↦ inl (j, omega arith, h)
    | inr none_below ↦ elim (idle-cases (pc k)) [
      | inl f ↦ inr (λ j lt. ground (arith, none_below j))
      | inr h ↦ inl (k, omega arith, h)
    ]
  ]

  unfoldable pub work : ℕ → (ℕ → Pc C L R) → ℕ
  work zero pc = 0
  work (suc k) pc = moves_left (pc k) + work k pc

  work-update_of_le :
      (k i : ℕ) (p : Pc C L R) (pc : ℕ → Pc C L R) → k ≤ i → work k (update i p pc) ≡ work k pc
  unfolding work
  work-update_of_le zero i p pc h = refl
  work-update_of_le (suc k) i p pc h = ground (arith, work-update_of_le k i p pc)

  -- Where goroutine i moves on, the work falls.
  pub work-update-lt :
      (k i : ℕ) (p : Pc C L R) (pc : ℕ → Pc C L R)
      → i < k
      → moves_left p < moves_left (pc i)
      → work k (update i p pc) < work k pc
  unfolding work
  work-update-lt zero i p pc h lighter = absurd (omega arith)
  work-update-lt (suc k) i p pc h lighter = elim (Bool-cases (i == k)) [
    | inl last ↦ ground (arith, work-update_of_le k i p pc)
    | inr below ↦ ground (arith, work-update-lt k i p pc)
  ]

module _ {M C L R : Type 0} (section : Section M C L R) where
  -- A goroutine that can move, and where it comes to stand.
  pub record Advance (s : System M C L R) (i : ℕ) : Type 0 where
    pub after : System M C L R
    pub moved : Move section s i after
    pub to : Pc C L R
    pub stands : after.pc ≡ update i to s.pc
    pub lighter : moves_left to < moves_left (s.pc i)

  module _ (s : System M C L R) (i : ℕ) where
    inside_moves : (p : Pc C L R) → s.pc i ≡ p → held_at section p ≢ free → Advance s i
    inside_moves idle here h = absurd (h refl)
    inside_moves (waiting c) here h = absurd (h refl)
    inside_moves (inside c) here h = record {
      after = _;
      moved = look c here;
      to = looked c (section.look c s.mem);
      stands = refl;
      lighter = rw here (omega arith);
    }
    inside_moves (looked c l) here h = record {
      after = _;
      moved = commit c l here;
      to = leaving c (section.commit c l s.mem).1;
      stands = refl;
      lighter = rw here (omega arith);
    }
    inside_moves (leaving c r) here h = record {
      after = _;
      moved = release c r here;
      to = idle;
      stands = refl;
      lighter = rw here (omega arith);
    }

    waiting_moves : (c : C) → s.pc i ≡ waiting c → ((j : ℕ) → s.hold j ≡ free) → Advance s i
    waiting_moves c here quiet = elim (Bool-cases (section.writes c)) [
      | inl w ↦ record {
        after = _;
        moved = lock c here w quiet;
        to = inside c;
        stands = refl;
        lighter = rw here (omega arith);
      }
      | inr k ↦ record {
        after = _;
        moved = rlock c here k (λ j h. ground (arith, quiet j));
        to = inside c;
        stands = refl;
        lighter = rw here (omega arith);
      }
    ]

    pc_moves : (p : Pc C L R) → s.pc i ≡ p → p ≢ idle → ((j : ℕ) → s.hold j ≡ free) → Advance s i
    pc_moves idle here h quiet = absurd (h refl)
    pc_moves (waiting c) here h quiet = waiting_moves c here quiet
    pc_moves (inside c) here h quiet = inside_moves (inside c) here (ground arith)
    pc_moves (looked c l) here h quiet = inside_moves (looked c l) here (ground arith)
    pc_moves (leaving c r) here h quiet = inside_moves (leaving c r) here (ground arith)

  module _ (s : System M C L R) (i : ℕ) where
    Move-elsewhere : {t : System M C L R} → Move section s i t → (j : ℕ) → i ≢ j → t.pc j ≡ s.pc j
    Move-elsewhere (lock c here w q) j other = ground arith
    Move-elsewhere (rlock c here w q) j other = ground arith
    Move-elsewhere (look c here) j other = ground arith
    Move-elsewhere (commit c l here) j other = ground arith
    Move-elsewhere (release c r here) j other = ground arith

  Hold-cases : (h : Hold) → (h ≡ free) ⊎ (h ≢ free)
  Hold-cases free = inl refl
  Hold-cases shared = inr (λ e. cc)
  Hold-cases exclusive = inr (λ e. cc)

  holder_or_none :
      (s : System M C L R) (k : ℕ)
      → ((j : ℕ) × (j < k) × (s.hold j ≢ free)) ⊎ ((j : ℕ) → j < k → s.hold j ≡ free)
  holder_or_none s zero = inr (λ j h. absurd (omega arith))
  holder_or_none s (suc k) = elim (holder_or_none s k) [
    | inl (j, lt, h) ↦ inl (j, omega arith, h)
    | inr none_below ↦ elim (Hold-cases (s.hold k)) [
      | inl f ↦ inr (λ j lt. ground (arith, none_below j))
      | inr h ↦ inl (k, omega arith, h)
    ]
  ]

  module _ {n : ℕ} {first : M} where
    pub outside_idle :
        {s : System M C L R} → Reach section n first s → (j : ℕ) → n ≤ j → s.pc j ≡ idle
    outside_idle start j h = refl
    outside_idle (next reach (call i c lt here)) j h = ground (arith, outside_idle reach j)
    outside_idle (next reach (move i lt m)) j h =
        ground (arith, outside_idle reach j, Move-elsewhere _ i m j)

    -- Some goroutine can move, where one is in a call.
    pub some_moves :
        {s : System M C L R}
        → Reach section n first s
        → (i : ℕ) → i < n
        → s.pc i ≢ idle
        → (j : ℕ) × (j < n) × Advance s j
    some_moves {s} reach i lt busy = elim (holder_or_none s n) [
      | inl (j, below, h) ↦
          (j, below, inside_moves s j (s.pc j) refl (λ e. h ((Reach-Inv section reach).held j ∙ e)))
      | inr quiet ↦ (
        i,
        lt,
        pc_moves s i (s.pc i) refl busy (λ j. elim (Bool-cases (leb (suc j) n)) [
          | inl below ↦ quiet j (ground arith)
          | inr above ↦ ground (arith, (Reach-Inv section reach).held j, outside_idle reach j)
        ]),
      )
    ]

-- The n goroutines move on in their calls, and no call begins.
pub data Finish {M C L R : Type 0} (section : Section M C L R) (n : ℕ) (last : System M C L R)
    : System M C L R → Type 0 where
  done : Finish section n last last
  on :
      {s t : System M C L R} (i : ℕ)
      → i < n
      → Move section s i t
      → Finish section n last t
      → Finish section n last s

module _ {M C L R : Type 0} (section : Section M C L R) {n : ℕ} {first : M} where
  drains :
      (fuel : ℕ) {s : System M C L R}
      → Reach section n first s
      → work n s.pc < fuel
      → (t : System M C L R) × Finish section n t s × ((i : ℕ) → t.pc i ≡ idle)
  drains zero reach h = absurd (omega arith)
  drains (suc fuel) {s} reach h = elim (busy_or_idle s.pc n) [
    | inr quiet ↦ (
      s,
      done,
      λ i. elim (Bool-cases (leb (suc i) n)) [
        | inl below ↦ quiet i (ground arith)
        | inr above ↦ outside_idle section reach i (ground arith)
      ],
    )
    | inl (i, lt, busy) ↦
        let (j, below, a) = some_moves section reach i lt busy in
        let lighter : work n a.after.pc < work n s.pc =
          rw a.stands (work-update-lt n j a.to s.pc below a.lighter) in
        let (t, finish, quiet) = drains fuel (next reach (move j below a.moved)) (omega arith) in
        (t, on j below a.moved finish, quiet)
  ]

  -- From every state that n goroutines reach, moves inside the calls that have begun lead to a state
  -- where every call has returned: no interleaving ends in a deadlock.
  pub Reach-drains :
      {s : System M C L R}
      → Reach section n first s
      → (t : System M C L R) × Finish section n t s × ((i : ℕ) → t.pc i ≡ idle)
  Reach-drains {s} reach = drains (suc (work n s.pc)) reach (omega arith)
