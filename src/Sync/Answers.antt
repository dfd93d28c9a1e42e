-- ===== src/Sync/Answers.antt =====
-- Every call that has begun is answered by the time it has returned.
use go_benefit.Prelude.{
  ℕ, ◌≡◌, refl, ◌∙◌, ap, Option, some, none, List, [], ◌∷◌, ◌++◌, arith, inl, inr, ◌==◌, nat_eq,
  Bool-cases,
}
use go_benefit.Sync.{
  Section, Pc, idle, waiting, inside, looked, leaving, System, Move, lock, rlock, look, commit,
  release,
}
use go_benefit.Sync.Invariant.{Logged}
use go_benefit.Sync.Progress.{Finish, done, on}

-- The call that has begun and has not taken effect.
abbrev pub pending : {C L R : Type 0} → Pc C L R → Option C
pending idle = none
pending (waiting c) = some c
pending (inside c) = some c
pending (looked c l) = some c
pending (leaving c r) = none

module _ {M C L R : Type 0} (section : Section M C L R) where
  -- From s on, the log grows by replies to the calls that were pending in s and have returned in t.
  pub record Ends (s t : System M C L R) : Type 0 where
    pub replies : List (C × R)
    pub logged : t.log ≡ replies ++ s.log
    pub answered :
        (i : ℕ) (c : C)
        → pending (s.pc i) ≡ some c
        → t.pc i ≡ idle
        → (r : R) × Logged section c r replies

  Logged-append :
      (c : C) (r : R) (log more : List (C × R))
      → Logged section c r log
      → Logged section c r (log ++ more)
  Logged-append c r [] more h = absurd h
  Logged-append c r (e ∷ log) more (inl same) = inl same
  Logged-append c r (e ∷ log) more (inr later) = inr (Logged-append c r log more later)

  Logged-last : (c : C) (r : R) (log : List (C × R)) → Logged section c r (log ++ (c, r) ∷ [])
  Logged-last c r [] = inl (refl, refl)
  Logged-last c r (e ∷ log) = inr (Logged-last c r log)

  append_one : (e : C × R) (log rest : List (C × R)) → log ++ e ∷ rest ≡ (log ++ e ∷ []) ++ rest
  append_one e [] rest = refl
  append_one e (d ∷ log) rest = ap (λ l. d ∷ l) (append_one e log rest)

  -- A move that logs no reply leaves every call as pending as it was.
  quiet-Ends :
      {s u t : System M C L R}
      → u.log ≡ s.log
      → ((j : ℕ) → pending (u.pc j) ≡ pending (s.pc j))
      → Ends u t
      → Ends s t
  quiet-Ends same still e = record {
    replies = e.replies;
    logged = e.logged ∙ ap (λ l. e.replies ++ l) same;
    answered = λ i c here back. e.answered i c (still i ∙ here) back;
  }

  Move-Ends :
      {s t : System M C L R} (i : ℕ) {u : System M C L R} → Move section s i u → Ends u t → Ends s t
  Move-Ends i (lock c here w q) e = quiet-Ends refl (λ j. ground arith) e
  Move-Ends i (rlock c here w q) e = quiet-Ends refl (λ j. ground arith) e
  Move-Ends i (look c here) e = quiet-Ends refl (λ j. ground arith) e
  Move-Ends i (release c r here) e = quiet-Ends refl (λ j. ground arith) e
  Move-Ends {s} i (commit c l here) e =
      let r = (section.commit c l s.mem).1 in
      record {
        replies = e.replies ++ (c, r) ∷ [];
        logged = e.logged ∙ append_one (c, r) e.replies s.log;
        answered = λ j d begun back. elim (Bool-cases (i == j)) [
          | inl same ↦ let its : c ≡ d = ground arith in (r, rw (← its) (Logged-last c r e.replies))
          | inr other ↦
              let (q, h) = e.answered j d (ground arith) back in
              (q, Logged-append d q e.replies ((c, r) ∷ []) h)
        ];
      }

  -- Whichever goroutines move, a call that has begun and returns has its reply in the log, among those
  -- that were logged since.
  pub Finish-Ends : {n : ℕ} {t s : System M C L R} → Finish section n t s → Ends s t
  Finish-Ends done = record {
    replies = [];
    logged = refl;
    answered = λ i c begun back. absurd (ground arith);
  }
  Finish-Ends (on i lt m rest) = Move-Ends i m (Finish-Ends rest)
