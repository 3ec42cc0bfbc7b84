-- ===== src/History/Entry.antt =====
-- One history: its bound, its order and its duplicates under `add` and `realloc`.
use conhost.Prelude.{
  ℕ, zero, suc, ◌+◌, ◌-◌, ◌≤◌, ◌<◌, ◌≡◌, ◌≢◌, refl, sym, ap, ◌∙◌, arith, ◌==◌, if◌then◌else◌, Bool,
  true, false, List, [], ◌∷◌, ◌++◌, Text, equal, equal_iff, equal_self, length, drop, length-append,
  length-take, Bool-cases, inl, inr,
}
use conhost.History.{CommandHistory, add, realloc, make_room, erase_first, erase_begin, back_is}

-- No more commands than the maximum.
abbrev pub IsBounded : CommandHistory → Type 0
IsBounded h = length h.commands ≤ h.max_commands

length-erase_first : (c : Text) (cs : List Text) → length (erase_first c cs) ≤ length cs
length-erase_first c [] = omega arith
length-erase_first c (d ∷ cs) = ground (arith, length-erase_first c cs)

length-erase_begin : (cs : List Text) → length (erase_begin cs) ≡ length cs - 1
length-erase_begin [] = omega arith
length-erase_begin (c ∷ cs) = omega arith

length-make_room :
    (h : CommandHistory) (c : Text) (suppress : Bool)
    → IsBounded h
    → 0 < h.max_commands
    → length (make_room h c suppress) < h.max_commands
length-make_room h c suppress b p =
    let kept = if suppress then erase_first c h.commands else h.commands in
    ground (arith, length-erase_first c h.commands, length-erase_begin kept)

-- `add` keeps the number of commands within the maximum, which it does not change, whether or not
-- the allocation succeeds; `realloc` brings any history within its new maximum.
add-IsBounded :
    (allocates : Bool) (c : Text) (suppress : Bool) (h : CommandHistory) (max : ℕ)
    → IsBounded h
    → IsBounded (add allocates c suppress h)
      × ((add allocates c suppress h).max_commands ≡ h.max_commands)
      × IsBounded (realloc max h)
      × ((realloc max h).max_commands ≡ max)
unfolding add realloc
add-IsBounded allocates c suppress h max b =
    let room = make_room h c suppress in
    (
      ground (arith, length-make_room h c suppress b, length-append room (c ∷ [])),
      ground arith,
      ground (arith, length-take max h.commands),
      refl,
    )

back_is-append : (c : Text) (cs : List Text) → back_is c (cs ++ c ∷ []) ≡ true
back_is-append c [] = equal_self c
back_is-append c (d ∷ []) = equal_self c
back_is-append c (d ∷ e ∷ cs) = back_is-append c (e ∷ cs)

drop-append_le : (n : ℕ) (xs ys : List Text) → n ≤ length xs → drop n (xs ++ ys) ≡ drop n xs ++ ys
drop-append_le zero xs ys h = refl
drop-append_le (suc n) [] ys h = absurd (omega arith)
drop-append_le (suc n) (x ∷ xs) ys h = drop-append_le n xs ys (omega arith)

drop-one : (xs : List Text) → drop 1 xs ≡ erase_begin xs
drop-one [] = refl
drop-one (x ∷ xs) = refl

-- The list behind an `add` that stores its command without erasing duplicates, as a window: the
-- last `max` of the commands with the new one behind them.
abbrev pub window : ℕ → List Text → Text → List Text
window max commands c = drop (length commands + 1 - max) (commands ++ c ∷ [])

make_room-window :
    (cs : List Text) (max : ℕ) (c : Text)
    → length cs ≤ max
    → 0 < max
    → (if length cs == max then erase_begin cs else cs) ++ c ∷ [] ≡ window max cs c
make_room-window cs max c b p = elim (Bool-cases (length cs == max)) [
  | inl full ↦
      let one : length cs + 1 - max ≡ 1 = ground arith in
      rw (full, one)
        (ap (λ (t : List Text). t ++ c ∷ []) (sym (drop-one cs))
          ∙ sym (drop-append_le 1 cs (c ∷ []) (ground arith)))
  | inr free ↦ let zero_left : length cs + 1 - max ≡ 0 = ground arith in rw (free, zero_left)
]

-- On a bounded history with room for commands, `add` of a command that is not empty leaves it last.
-- If it was not last before and duplicates stay, the commands are then the newest ones of the old
-- list with the new one behind it, as many as the maximum admits, in order.
pub add-window :
    (c : Text) (suppress : Bool) (h : CommandHistory)
    → IsBounded h
    → 0 < h.max_commands
    → c ≢ []
    → (back_is c (add true c suppress h).commands ≡ true)
      × (back_is c h.commands ≡ false
          → (add true c false h).commands ≡ window h.max_commands h.commands c)
unfolding add
add-window [] suppress h b p ne = absurd (ne refl)
add-window (x ∷ c) suppress h b p ne = (
  ground (arith, back_is-append (x ∷ c) (make_room h (x ∷ c) suppress)),
  λ e. ground (arith, make_room-window h.commands h.max_commands (x ∷ c) b p),
)

abbrev pub occurrences : Text → List Text → ℕ
occurrences c [] = 0
occurrences c (d ∷ cs) = (if equal d c then 1 else 0) + occurrences c cs

-- No command twice.
abbrev pub IsDistinct : List Text → Type 0
IsDistinct cs = (c : Text) → occurrences c cs ≤ 1

occurrences-append :
    (c : Text) (xs ys : List Text) → occurrences c (xs ++ ys) ≡ occurrences c xs + occurrences c ys
occurrences-append c [] ys = omega arith
occurrences-append c (x ∷ xs) ys = omega (arith, occurrences-append c xs ys)

occurrences-erase_first :
    (c d : Text) (cs : List Text)
    → (occurrences d (erase_first c cs) ≤ occurrences d cs)
      × (occurrences c cs ≤ 1 → occurrences c (erase_first c cs) ≡ 0)
occurrences-erase_first c d [] = (omega arith, λ h. refl)
occurrences-erase_first c d (e ∷ cs) = ground (arith, occurrences-erase_first c d cs)

occurrences-erase_begin :
    (c : Text) (cs : List Text) → occurrences c (erase_begin cs) ≤ occurrences c cs
occurrences-erase_begin c [] = omega arith
occurrences-erase_begin c (d ∷ cs) = omega arith

-- With duplicates suppressed `add` keeps a history without duplicates so.
add-IsDistinct :
    (allocates : Bool) (c : Text) (h : CommandHistory)
    → IsDistinct h.commands
    → IsDistinct (add allocates c true h).commands
unfolding add
add-IsDistinct allocates c h u d =
    let kept = erase_first c h.commands in
    let room = make_room h c true in
    ground (
      arith,
      u d,
      u c,
      occurrences-erase_first c d h.commands,
      occurrences-erase_begin d kept,
      occurrences-append d room (c ∷ []),
      equal_iff c d,
    )
