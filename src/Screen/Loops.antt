-- ===== src/Screen/Loops.antt =====
-- The loops that read and write cells (Screen/Cells), against the list of the cells they run over
-- (src/condrv/condrv_server.cpp).
use conhost.Prelude.{
  ℕ, zero, suc, ◌-◌, ◌≤◌, ◌<◌, ◌≡◌, refl, ap, ◌∙◌, arith, none, some, List, [], ◌∷◌, map, length,
  get_elem?, set, take, min, length-set, get_elem?-set_same, get_elem?-set_other, Option-cases, inl,
  inr,
}
use conhost.Screen.{ScreenCell}
use conhost.Screen.Cells.{write_loop, read_loop}

pub get_elem?-none : {A : Type 0} → (xs : List A) (i : ℕ) → get_elem? xs i ≡ none → length xs ≤ i
get_elem?-none [] i e = omega arith
get_elem?-none (x ∷ xs) zero e = ground arith
get_elem?-none (x ∷ xs) (suc i) e = omega (arith, get_elem?-none xs i e)

pub get_elem?-some :
    {A : Type 0} → (xs : List A) (i : ℕ) (v : A) → get_elem? xs i ≡ some v → i < length xs
get_elem?-some [] i v e = ground arith
get_elem?-some (x ∷ xs) zero v e = omega arith
get_elem?-some (x ∷ xs) (suc i) v e = omega (arith, get_elem?-some xs i v e)

same_head : {A : Type 0} → {x y : A} → some x ≡ some y → y ≡ x
same_head e = cc

module _ (put : ℕ → ScreenCell → ScreenCell) (i v : ℕ) (values : List ℕ)
    (cells : List ScreenCell) where
  pub write_loop-none : get_elem? cells i ≡ none → write_loop put i (v ∷ values) cells ≡ (cells, 0)
  unfolding write_loop
  write_loop-none e = ground arith

  pub write_loop-some :
      (c : ScreenCell)
      → get_elem? cells i ≡ some c
      → write_loop put i (v ∷ values) cells ≡ (
        (write_loop put (suc i) values (set cells i (put v c))).0,
        suc ((write_loop put (suc i) values (set cells i (put v c))).1),
      )
  unfolding write_loop
  write_loop-some c e = ground arith

read_loop-some :
    (get : ScreenCell → ℕ) (i n : ℕ) (cells : List ScreenCell) (c : ScreenCell)
    → get_elem? cells i ≡ some c
    → read_loop get i (suc n) cells ≡ get c ∷ read_loop get (suc i) n cells
unfolding read_loop
read_loop-some get i n cells c e = ground arith

module _ (put : ℕ → ScreenCell → ScreenCell) where
  pub length-write_loop :
      (i : ℕ) (values : List ℕ) (cells : List ScreenCell)
      → length ((write_loop put i values cells).0) ≡ length cells
  unfolding write_loop
  length-write_loop i [] cells = refl
  length-write_loop i (v ∷ values) cells = elim (Option-cases (get_elem? cells i)) [
    | inl e ↦ rw (write_loop-none put i v values cells e) refl
    | inr (c, e) ↦
        rw (write_loop-some put i v values cells c e)
          (length-write_loop (suc i) values (set cells i (put v c)) ∙ length-set cells i (put v c))
  ]

  pub write_loop_count :
      (i : ℕ) (values : List ℕ) (cells : List ScreenCell)
      → (write_loop put i values cells).1 ≡ min (length values) (length cells - i)
  unfolding write_loop
  write_loop_count i [] cells = omega arith
  write_loop_count i (v ∷ values) cells = elim (Option-cases (get_elem? cells i)) [
    | inl e ↦ rw (write_loop-none put i v values cells e) (omega (arith, get_elem?-none cells i e))
    | inr (c, e) ↦ rw (write_loop-some put i v values cells c e) (
        omega (
          arith,
          get_elem?-some cells i c e,
          write_loop_count (suc i) values (set cells i (put v c)),
          length-set cells i (put v c),
        ))
  ]

  write_loop_before :
      (i j : ℕ) (values : List ℕ) (cells : List ScreenCell)
      → j < i
      → get_elem? ((write_loop put i values cells).0) j ≡ get_elem? cells j
  unfolding write_loop
  write_loop_before i j [] cells h = refl
  write_loop_before i j (v ∷ values) cells h = elim (Option-cases (get_elem? cells i)) [
    | inl e ↦ rw (write_loop-none put i v values cells e) refl
    | inr (c, e) ↦ rw (write_loop-some put i v values cells c e) (
        write_loop_before (suc i) j values (set cells i (put v c)) (omega arith)
        ∙ get_elem?-set_other cells i j (put v c) (omega arith))
  ]

  module _ (get : ScreenCell → ℕ) (reads : (v : ℕ) (c : ScreenCell) → get (put v c) ≡ v) where
    pub read_loop-write_loop :
        (i : ℕ) (values : List ℕ) (cells : List ScreenCell)
        → read_loop get i ((write_loop put i values cells).1) ((write_loop put i values cells).0)
          ≡ take ((write_loop put i values cells).1) values
    unfolding write_loop read_loop
    read_loop-write_loop i [] cells = refl
    read_loop-write_loop i (v ∷ values) cells = elim (Option-cases (get_elem? cells i)) [
      | inl e ↦ rw (write_loop-none put i v values cells e) refl
      | inr (c, e) ↦
          rw
            (
              write_loop-some put i v values cells c e,
              read_loop-some get i ((write_loop put (suc i) values (set cells i (put v c))).1)
                  ((write_loop put (suc i) values (set cells i (put v c))).0) (put v c)
                  (write_loop_before (suc i) i values (set cells i (put v c)) (omega arith)
                    ∙ get_elem?-set_same cells i (put v c) (get_elem?-some cells i c e)),
              reads v c,
            )
            (ap (◌∷◌ v) (read_loop-write_loop (suc i) values (set cells i (put v c))))
    ]

  module _ (other : ScreenCell → ℕ)
      (keeps : (v : ℕ) (c : ScreenCell) → other (put v c) ≡ other c) where
    map-set :
        (cells : List ScreenCell) (i v : ℕ) (c : ScreenCell)
        → get_elem? cells i ≡ some c
        → map other (set cells i (put v c)) ≡ map other cells
    map-set [] i v c e = refl
    map-set (x ∷ cells) zero v c e =
        ap (λ z. z ∷ map other cells) (keeps v c ∙ ap other (same_head e))
    map-set (x ∷ cells) (suc i) v c e = ap (◌∷◌ (other x)) (map-set cells i v c e)

    pub map-write_loop :
        (i : ℕ) (values : List ℕ) (cells : List ScreenCell)
        → map other ((write_loop put i values cells).0) ≡ map other cells
    unfolding write_loop
    map-write_loop i [] cells = refl
    map-write_loop i (v ∷ values) cells = elim (Option-cases (get_elem? cells i)) [
      | inl e ↦ rw (write_loop-none put i v values cells e) refl
      | inr (c, e) ↦
          rw (write_loop-some put i v values cells c e)
            (map-write_loop (suc i) values (set cells i (put v c)) ∙ map-set cells i v c e)
    ]
