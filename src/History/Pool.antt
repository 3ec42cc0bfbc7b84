-- ===== src/History/Pool.antt =====
-- The pool as a map from process handles to histories: what a search by position finds, and what
-- taking an entry out or putting one in does to the other processes.
use conhost.Prelude.{
  ℕ, zero, suc, ◌+◌, ◌-◌, ◌==◌, ◌≤◌, ◌≡◌, ◌≢◌, ◌↔◌, refl, sym, ap, ◌∙◌, arith, if◌then◌else◌, Bool,
  true, false, [], ◌∷◌, length, All, get_elem?, set, Bool-cases, ◌⊎◌, inl, inr, Option, none, some,
}
use conhost.History.{
  CommandHistory, CommandHistoryPool, Candidate, is_of_process, find_by_process, find_position,
  best_loop, best_step, remove_at, free_for_process,
}

-- How many entries belong to a process.
abbrev pub owners : ℕ → CommandHistoryPool → ℕ
owners p [] = 0
owners p (h ∷ hs) = (if is_of_process p h then 1 else 0) + owners p hs

-- No process owns two entries.
abbrev pub IsUnique : CommandHistoryPool → Type 0
IsUnique pool = (p : ℕ) → owners p pool ≤ 1

abbrev pub IsAllocated : CommandHistory → Type 0
IsAllocated h = h.allocated ≡ true

-- The candidate is an entry of the pool from position `i` on, and is free.
pub record IsFreeAt (i : ℕ) (pool : CommandHistoryPool) (c : Candidate) : Type 0 where
  pub offset : ℕ
  pub index_is : c.index ≡ i + offset
  pub entry_is : get_elem? pool offset ≡ some c.entry
  pub free : c.entry.allocated ≡ false

IsFreeAt-cons :
    (i : ℕ) (h : CommandHistory) (pool : CommandHistoryPool) (c : Candidate)
    → IsFreeAt (suc i) pool c
    → IsFreeAt i (h ∷ pool) c
IsFreeAt-cons i h pool c f = record {
  offset = suc f.offset;
  index_is = omega arith;
  entry_is = f.entry_is;
  free = f.free;
}

pub find_position-IsFreeAt :
    (test : CommandHistory → Bool) (i : ℕ) (pool : CommandHistoryPool) (c : Candidate)
    → ((h : CommandHistory) → test h ≡ true → h.allocated ≡ false)
    → find_position test i pool ≡ some c
    → IsFreeAt i pool c × (test c.entry ≡ true)
unfolding find_position
find_position-IsFreeAt test i [] c frees e = cc
find_position-IsFreeAt test i (h ∷ pool) c frees e = elim (Bool-cases (test h)) [
  | inl hit ↦
      let same : ◌≡◌ {A = Option Candidate} (some (record { index = i; entry = h })) (some c) =
        rw hit at e in
      (
        record {
          offset = 0;
          index_is = ground arith;
          entry_is = ground arith;
          free = ground (arith, frees h hit);
        },
        ground arith,
      )
  | inr miss ↦
      let r = find_position-IsFreeAt test (suc i) pool c frees (rw miss at e) in
      (IsFreeAt-cons i h pool c r.0, r.1)
]

best_step-picked :
    (i : ℕ) (best : Option Candidate) (h : CommandHistory) (c : Candidate)
    → best_step i best h ≡ some c
    → (best ≡ some c) ⊎ ((c.index ≡ i) × (c.entry ≡ h) × (h.allocated ≡ false))
unfolding best_step
best_step-picked i none h c e = ground arith
best_step-picked i (some b) h c e = ground arith

best_step-IsFreeAt :
    (i : ℕ) (best : Option Candidate) (h : CommandHistory) (pool : CommandHistoryPool)
    (c : Candidate)
    → best_step i best h ≡ some c
    → (best ≡ some c) ⊎ IsFreeAt i (h ∷ pool) c
best_step-IsFreeAt i best h pool c e = elim (best_step-picked i best h c e) [
  | inl old ↦ inl old
  | inr (ix, en, fr) ↦ inr (record {
    offset = 0;
    index_is = omega arith;
    entry_is = ap some (sym en);
    free = ap (λ (x : CommandHistory). x.allocated) en ∙ fr;
  })
]

best_step-none :
    (i : ℕ) (best : Option Candidate) (h : CommandHistory)
    → best_step i best h ≡ none
    → (best ≡ none) × (h.allocated ≡ true)
unfolding best_step
best_step-none i none h e = ground arith
best_step-none i (some b) h e = ground arith

pub best_loop-IsFreeAt :
    (i : ℕ) (best : Option Candidate) (pool : CommandHistoryPool) (c : Candidate)
    → best_loop i best pool ≡ some c
    → (best ≡ some c) ⊎ IsFreeAt i pool c
unfolding best_loop
best_loop-IsFreeAt i best [] c e = inl e
best_loop-IsFreeAt i best (h ∷ pool) c e =
    elim (best_loop-IsFreeAt (suc i) (best_step i best h) pool c e) [
      | inl kept ↦ best_step-IsFreeAt i best h pool c kept
      | inr later ↦ inr (IsFreeAt-cons i h pool c later)
    ]

-- No candidate means no free entry.
pub best_loop-none :
    (i : ℕ) (best : Option Candidate) (pool : CommandHistoryPool)
    → best_loop i best pool ≡ none
    → (best ≡ none) × All IsAllocated pool
unfolding best_loop
best_loop-none i best [] e = (e, tt)
best_loop-none i best (h ∷ pool) e =
    let (stepped, rest) = best_loop-none (suc i) (best_step i best h) pool e in
    let here = best_step-none i best h stepped in (here.0, (here.1, rest))

pub find_by_process-cons :
    (q : ℕ) (h : CommandHistory) (pool : CommandHistoryPool)
    → find_by_process q (h ∷ pool) ≡ (if is_of_process q h then some h else find_by_process q pool)
unfolding find_by_process
find_by_process-cons q h pool = refl

module _ (q : ℕ) where
  -- A search for a process passes over a free entry.
  pub find_by_process-remove_at :
      (k : ℕ) (pool : CommandHistoryPool) (h : CommandHistory)
      → get_elem? pool k ≡ some h
      → h.allocated ≡ false
      → find_by_process q (remove_at k pool) ≡ find_by_process q pool
  unfolding find_by_process
  find_by_process-remove_at k [] h e f = refl
  find_by_process-remove_at zero (x ∷ pool) h e f = ground arith
  find_by_process-remove_at (suc k) (x ∷ pool) h e f =
      ground (arith, find_by_process-remove_at k pool h e f)

  pub find_by_process-set :
      (k : ℕ) (pool : CommandHistoryPool) (h h' : CommandHistory)
      → get_elem? pool k ≡ some h
      → h.allocated ≡ false
      → h'.allocated ≡ false
      → find_by_process q (set pool k h') ≡ find_by_process q pool
  unfolding find_by_process
  find_by_process-set k [] h h' e f f' = refl
  find_by_process-set zero (x ∷ pool) h h' e f f' = ground arith
  find_by_process-set (suc k) (x ∷ pool) h h' e f f' =
      ground (arith, find_by_process-set k pool h h' e f f')

  pub owners-remove_at :
      (k : ℕ) (pool : CommandHistoryPool) → owners q (remove_at k pool) ≤ owners q pool
  owners-remove_at k [] = omega arith
  owners-remove_at zero (x ∷ pool) = omega arith
  owners-remove_at (suc k) (x ∷ pool) = omega (arith, owners-remove_at k pool)

  pub owners-set :
      (k : ℕ) (pool : CommandHistoryPool) (h : CommandHistory)
      → h.allocated ≡ false
      → owners q (set pool k h) ≤ owners q pool
  owners-set k [] h f = omega arith
  owners-set zero (x ∷ pool) h f = ground arith
  owners-set (suc k) (x ∷ pool) h f = omega (arith, owners-set k pool h f)

  pub owners-free_for_process :
      (p : ℕ) (pool : CommandHistoryPool)
      → owners q (free_for_process p pool) ≤ (if q == p then owners q pool - 1 else owners q pool)
  unfolding free_for_process
  owners-free_for_process p [] = ground arith
  owners-free_for_process p (x ∷ pool) = ground (arith, owners-free_for_process p pool)

  pub find_by_process-none :
      (pool : CommandHistoryPool) → (find_by_process q pool ≡ none) ↔ (owners q pool ≡ 0)
  unfolding find_by_process
  find_by_process-none [] = ground arith
  find_by_process-none (x ∷ pool) = ground (arith, find_by_process-none pool)

pub length-remove_at :
    (k : ℕ) (pool : CommandHistoryPool) (h : CommandHistory)
    → get_elem? pool k ≡ some h
    → length (remove_at k pool) + 1 ≡ length pool
length-remove_at k [] h e = cc
length-remove_at zero (x ∷ pool) h e = omega arith
length-remove_at (suc k) (x ∷ pool) h e = omega (arith, length-remove_at k pool h e)

pub length-set :
    (k : ℕ) (pool : CommandHistoryPool) (h : CommandHistory) → length (set pool k h) ≡ length pool
length-set k [] h = refl
length-set zero (x ∷ pool) h = refl
length-set (suc k) (x ∷ pool) h = ap suc (length-set k pool h)

released :
    (p : ℕ) (pool : CommandHistoryPool)
    → owners p pool ≤ 1
    → find_by_process p (free_for_process p pool) ≡ none
unfolding find_by_process free_for_process
released p [] h = refl
released p (x ∷ pool) h = ground (arith, released p pool, (find_by_process-none p pool).1)

others :
    (p q : ℕ)
    → q ≢ p
    → (pool : CommandHistoryPool)
    → find_by_process q (free_for_process p pool) ≡ find_by_process q pool
unfolding find_by_process free_for_process
others p q ne [] = refl
others p q ne (x ∷ pool) = ground (arith, others p q ne pool)

-- `free_for_process` lets go of the process's entry: in a pool where no process owns two entries,
-- the process has none afterwards, and what every other process finds is unchanged.
find_by_process-free_for_process :
    (p : ℕ) (pool : CommandHistoryPool)
    → IsUnique pool
    → (find_by_process p (free_for_process p pool) ≡ none)
      × ((q : ℕ) → q ≢ p → find_by_process q (free_for_process p pool) ≡ find_by_process q pool)
find_by_process-free_for_process p pool u = (released p pool (u p), λ q ne. others p q ne pool)
