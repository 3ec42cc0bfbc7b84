-- ===== src/History/Lifecycle.antt =====
-- `allocate_for_process`: what it gives to the process, and what it leaves to the others.
use conhost.Prelude.{
  ℕ, suc, ◌+◌, ◌≤◌, ◌<◌, ◌≡◌, ◌≢◌, refl, ap, ◌∙◌, arith, ltb, ◌==◌, if◌then◌else◌, Bool, true,
  false, [], ◌∷◌, Text, length, All, get_elem?, set, Bool-cases, Option-cases, ◌⊎◌, inl, inr,
  Option, none, some,
}
use conhost.History.{
  CommandHistory, CommandHistoryPool, Candidate, is_of_process, find_by_process, find_position,
  best_loop, remove_at, reuse_other, allocate_at, allocate_for_process, fresh_entry, is_free_of_app,
  try_set_app_name, realloc, release_process, free_for_process, assign_process, app_name_matches,
  clear_commands,
}
use conhost.History.Pool.{
  owners, IsAllocated, IsFreeAt, find_position-IsFreeAt, best_loop-IsFreeAt, best_loop-none,
  find_by_process-cons, find_by_process-remove_at, find_by_process-set, owners-remove_at,
  owners-set, length-remove_at, length-set,
}

-- What every branch of `allocate_for_process` keeps: the other processes find what they found, the
-- process gains one entry at most, and the pool grows to the given maximum at most.
pub record Keeps (p max_histories : ℕ) (pool after : CommandHistoryPool) : Type 0 where
  pub others : (q : ℕ) → q ≢ p → find_by_process q after ≡ find_by_process q pool
  pub owned : (q : ℕ) → owners q after ≤ owners q pool + (if q == p then 1 else 0)
  pub no_smaller : length pool ≤ length after
  pub size : (length after ≡ length pool) ⊎ (length after ≤ max_histories)

module _ (p max_histories : ℕ) (pool : CommandHistoryPool) where
  Keeps-self : Keeps p max_histories pool pool
  Keeps-self = record {
    others = λ q ne. refl;
    owned = λ q. omega arith;
    no_smaller = omega arith;
    size = inl refl;
  }

  -- A free entry is changed to belong to the process, and goes to the front.
  Keeps-splice :
      (c : Candidate) (h : CommandHistory)
      → IsFreeAt 0 pool c
      → Keeps p max_histories pool (assign_process p h ∷ remove_at c.index pool)
  Keeps-splice c h f =
      let at : get_elem? pool c.index ≡ some c.entry =
        ap (λ (k : ℕ). get_elem? pool k) (omega arith) ∙ f.entry_is in
      record {
        others = λ q ne. ground (
          arith,
          find_by_process-cons q (assign_process p h) (remove_at c.index pool),
          find_by_process-remove_at q c.index pool c.entry at f.free,
        );
        owned = λ q. ground (arith, owners-remove_at q c.index pool);
        no_smaller = omega (arith, length-remove_at c.index pool c.entry at);
        size = inl (omega (arith, length-remove_at c.index pool c.entry at));
      }

  Keeps-rename_failed :
      (c : Candidate) (h : CommandHistory)
      → IsFreeAt 0 pool c
      → h.allocated ≡ false
      → Keeps p max_histories pool (set pool c.index h)
  Keeps-rename_failed c h f free =
      let at : get_elem? pool c.index ≡ some c.entry =
        ap (λ (k : ℕ). get_elem? pool k) (omega arith) ∙ f.entry_is in
      record {
        others = λ q ne. find_by_process-set q c.index pool c.entry h at f.free free;
        owned = λ q. omega (arith, owners-set q c.index pool h free);
        no_smaller = omega (arith, length-set c.index pool h);
        size = inl (length-set c.index pool h);
      }

  Keeps-fresh :
      (h : CommandHistory)
      → length pool < max_histories
      → Keeps p max_histories pool (assign_process p h ∷ pool)
  Keeps-fresh h room = record {
    others = λ q ne. ground (arith, find_by_process-cons q (assign_process p h) pool);
    owned = λ q. ground arith;
    no_smaller = omega arith;
    size = inr (omega arith);
  }

  Keeps-reuse_other :
      (names : Bool) (name : Text) (c : Candidate)
      → IsFreeAt 0 pool c
      → Keeps p max_histories pool (reuse_other names name p pool c)
  unfolding reuse_other try_set_app_name
  Keeps-reuse_other true name c f =
      Keeps-splice c (record (clear_commands c.entry) { app_name = name }) f
  Keeps-reuse_other false name c f =
      Keeps-rename_failed c (record (clear_commands c.entry) { app_name = [] }) f f.free

best_free :
    (pool : CommandHistoryPool) (c : Candidate) → best_loop 0 none pool ≡ some c → IsFreeAt 0 pool c
best_free pool c e = elim (best_loop-IsFreeAt 0 none pool c e) [ inl absurd_case ↦ cc | inr f ↦ f ]

module _ (compare_string_ordinal : Text → Text → Bool) where
  is_free_of_app-free :
      (name : Text) (h : CommandHistory)
      → is_free_of_app compare_string_ordinal name h ≡ true
      → h.allocated ≡ false
  is_free_of_app-free name h e = ground arith

  -- Whatever allocations fail, `allocate_for_process` leaves every other process the history that it
  -- had, gives its own process at most one more entry, takes no entry away, and lets the pool grow
  -- to the given maximum only.
  pub allocate_for_process-Keeps :
      (names allocates : Bool) (name : Text) (p max_histories default_max : ℕ)
      (pool : CommandHistoryPool)
      → Keeps p max_histories pool (
          allocate_for_process compare_string_ordinal names allocates name p max_histories
            default_max pool)
  unfolding allocate_for_process allocate_at
  allocate_for_process-Keeps names allocates name p max_histories default_max pool =
      let test = is_free_of_app compare_string_ordinal name in
      elim (Option-cases (find_position test 0 pool)) [
        | inr (c, e) ↦ rw e (
            Keeps-splice p max_histories pool c c.entry
              (find_position-IsFreeAt test 0 pool c (is_free_of_app-free name) e).0)
        | inl e ↦ rw e (elim (Bool-cases (ltb (length pool) max_histories)) [
          | inl room ↦ rw room (elim (Bool-cases allocates) [
            | inl y ↦ rw y (
                Keeps-fresh p max_histories pool (fresh_entry names name p default_max)
                  (ground arith))
            | inr n ↦ rw n (Keeps-self p max_histories pool)
          ])
          | inr full ↦ rw full (elim (Option-cases (best_loop 0 none pool)) [
            | inl nothing ↦ rw nothing (Keeps-self p max_histories pool)
            | inr (c, e') ↦
                rw e' (Keeps-reuse_other p max_histories pool names name c (best_free pool c e'))
          ])
        ])
      ]

  -- The history that a search for the process gives is of the named application.
  abbrev pub FindsHistory : Text → ℕ → CommandHistoryPool → Type 0
  FindsHistory name p after =
      (h : CommandHistory) × (find_by_process p after ≡ some h)
      × ((h.app_name ≡ name) ⊎ (app_name_matches compare_string_ordinal name h ≡ true))

  finds_front :
      (name : Text) (p : ℕ) (h : CommandHistory) (rest : CommandHistoryPool)
      → (h.app_name ≡ name) ⊎ (app_name_matches compare_string_ordinal name h ≡ true)
      → FindsHistory name p (assign_process p h ∷ rest)
  unfolding app_name_matches
  finds_front name p h rest named =
      (assign_process p h, find_by_process-cons p (assign_process p h) rest ∙ ground arith, named)

  -- When its allocations succeed, `allocate_for_process` gives the process a history of the named
  -- application, unless the pool is full and every entry in it belongs to some process; then it
  -- leaves the pool as it was.
  pub allocate_for_process-finds :
      (name : Text) (p max_histories default_max : ℕ) (pool : CommandHistoryPool)
      → FindsHistory name p (
          allocate_for_process compare_string_ordinal true true name p max_histories default_max
            pool)
        ⊎ (All IsAllocated pool
            × (max_histories ≤ length pool)
            × (allocate_for_process compare_string_ordinal true true name p max_histories
                  default_max pool
                ≡ pool))
  unfolding allocate_for_process allocate_at reuse_other try_set_app_name realloc
  allocate_for_process-finds name p max_histories default_max pool =
      let test = is_free_of_app compare_string_ordinal name in
      elim (Option-cases (find_position test 0 pool)) [
        | inr (c, e) ↦
            let found = find_position-IsFreeAt test 0 pool c (is_free_of_app-free name) e in
            rw e (inl (finds_front name p c.entry _ (inr (ground arith))))
        | inl e ↦ rw e (elim (Bool-cases (ltb (length pool) max_histories)) [
          | inl room ↦
              rw room
                (inl (finds_front name p (fresh_entry true name p default_max) pool (inl refl)))
          | inr full ↦ rw full (elim (Option-cases (best_loop 0 none pool)) [
            | inl nothing ↦
                rw nothing (inr ((best_loop-none 0 none pool nothing).1, ground arith, refl))
            | inr (c, e') ↦ rw e' (
                inl (
                  finds_front name p (record (clear_commands c.entry) { app_name = name }) _
                    (inl refl)))
          ])
        ])
      ]

  released_position :
      (name : Text) (p i : ℕ) (pool : CommandHistoryPool) (h : CommandHistory)
      → find_by_process p pool ≡ some h
      → find_position (is_free_of_app compare_string_ordinal name) i pool ≡ none
      → app_name_matches compare_string_ordinal name h ≡ true
      → (k : ℕ) × (find_position
            (is_free_of_app compare_string_ordinal name)
            i
            (free_for_process p pool)
          ≡ some (record { index = k; entry = release_process h }))
  unfolding find_by_process free_for_process find_position app_name_matches
  released_position name p i [] h e none_free m = cc
  released_position name p i (x ∷ pool) h e none_free m = elim (Bool-cases (is_of_process p x)) [
    | inl owner ↦
        let same : ◌≡◌ {A = Option CommandHistory} (some x) (some h) = rw owner at e in
        (i, ground arith)
    | inr other ↦
        let (k, found) = released_position name p (suc i) pool h (ground arith) (ground arith) m in
        (k, ground arith)
  ]

  -- A process that lets go of its history and a later one of the same application: when no other free
  -- history matches the application, the later process gets the first one's commands and maximum
  -- back, whatever the limits and allocations are.
  allocate_for_process-free_for_process :
      (names allocates : Bool) (name : Text) (p q max_histories default_max : ℕ)
      (pool : CommandHistoryPool) (h : CommandHistory)
      → find_by_process p pool ≡ some h
      → app_name_matches compare_string_ordinal name h ≡ true
      → find_position (is_free_of_app compare_string_ordinal name) 0 pool ≡ none
      → find_by_process q (
          allocate_for_process compare_string_ordinal names allocates name q max_histories
            default_max
            (free_for_process p pool))
        ≡ some (record h { process_handle = q; allocated = true })
  unfolding allocate_for_process allocate_at
  allocate_for_process-free_for_process names allocates name p q max default_max pool h e m n =
      let (k, found) = released_position name p 0 pool h e n m in
      rw found (
        find_by_process-cons q (assign_process q (release_process h))
          (remove_at k (free_for_process p pool))
        ∙ ground arith)
