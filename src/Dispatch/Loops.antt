-- ===== src/Dispatch/Loops.antt =====
-- The loops over entries of text in `dispatch_message` (src/condrv/condrv_server.hpp): the one that adds
-- up sizes, and the one that writes to an output buffer.
use conhost.Prelude.{
  ℕ, replicate, ◌+◌, ◌-◌, ◌≤◌, ◌<◌, ◌≡◌, refl, sym, ap, ◌∙◌, arith, min, ◌⊎◌, inl, inr, List, [],
  ◌∷◌, ◌++◌, length, length-append, append_assoc, append-nil, take-append, Option, none, some,
  Option-cases,
}
use conhost.Prelude.Result.{expected}
use conhost.Dispatch.{
  Reply, status_success, status_buffer_too_small, status_invalid_parameter, a_number, answer,
  reject,
}
use conhost.Dispatch.Strings.{
  ulong_max, total_bytes, listed, overflow, conversion_failed, list_entries, no_text, text_of,
  length_reply, listing_reply, release_message_buffers,
}

-- The entries one behind the other.
abbrev pub joined {ℓ} : {A : Type ℓ} → (A → Option (List ℕ)) → List A → List ℕ
joined bytes [] = []
joined bytes (entry ∷ entries) =
    elim (bytes entry) [ none ↦ [] | some text ↦ text ] ++ joined bytes entries

module _ {ℓ} {A : Type ℓ} (size : A → Option ℕ) where
  total_bytes-ge : (t r : ℕ) (entries : List A) → total_bytes size t entries ≡ some r → t ≤ r
  unfolding total_bytes
  total_bytes-ge t r [] e = ground arith
  total_bytes-ge t r (entry ∷ entries) e = elim (Option-cases (size entry)) [
    | inl none_there ↦ ground (arith, none_there)
    | inr (n, there) ↦ ground (arith, there, total_bytes-ge (t + n) r entries)
  ]

le-or-lt : (a b : ℕ) → (a ≤ b) ⊎ (b < a)
le-or-lt a b = ground arith

-- Whatever has a size has its bytes.
abbrev pub IsSized {ℓ} : {A : Type ℓ} → (A → Option ℕ) → (A → Option (List ℕ)) → Type ℓ
IsSized {A} size bytes =
    (entry : A) (n : ℕ)
    → size entry ≡ some n
    → (text : List ℕ) × (bytes entry ≡ some text) × (length text ≡ n)

module _ {ℓ} {A : Type ℓ} (size : A → Option ℕ) (bytes : A → Option (List ℕ)) (capacity : ℕ)
    (sized : IsSized size bytes) where
  module _ (t n : ℕ) (out text : List ℕ) (entry : A) (entries : List A)
      (there : size entry ≡ some n) where
    total_bytes-step : total_bytes size t (entry ∷ entries) ≡ total_bytes size (t + n) entries
    unfolding total_bytes
    total_bytes-step = ground (arith, there)

    list_entries-full :
        capacity - t < n → list_entries size bytes capacity t out (entry ∷ entries) ≡ overflow
    unfolding list_entries
    list_entries-full h = ground (arith, there)

    list_entries-step :
        bytes entry ≡ some text
        → n ≤ capacity - t
        → (list_entries size bytes capacity t out (entry ∷ entries)
            ≡ list_entries size bytes capacity (t + n) (out ++ text) entries)
          × ((out ++ text) ++ joined bytes entries ≡ out ++ joined bytes (entry ∷ entries))
    unfolding list_entries
    list_entries-step given h =
        (ground (arith, there, given), rw given (append_assoc out text (joined bytes entries)))

  length-joined :
      (t r : ℕ) (entries : List A)
      → total_bytes size t entries ≡ some r
      → t + length (joined bytes entries) ≡ r
  unfolding total_bytes
  length-joined t r [] e = ground arith
  length-joined t r (entry ∷ entries) e = elim (Option-cases (size entry)) [
    | inl none_there ↦ absurd (ground (arith, none_there))
    | inr (n, there) ↦
        let (text, given, long) = sized entry n there in
        let rest = sym (total_bytes-step t n [] text entry entries there) ∙ e in
        ground (
          arith,
          given,
          length-append text (joined bytes entries),
          length-joined (t + n) r entries rest,
        )
  ]

  -- With room for the whole list, it is written, and otherwise it overflows.
  list_entries-total :
      (t r : ℕ) (out : List ℕ) (entries : List A)
      → total_bytes size t entries ≡ some r
      → length out ≡ t
      → t ≤ capacity
      → ((r ≤ capacity)
          × (list_entries size bytes capacity t out entries
              ≡ listed r (out ++ joined bytes entries)))
        ⊎ ((capacity < r) × (list_entries size bytes capacity t out entries ≡ overflow))
  unfolding total_bytes list_entries
  list_entries-total t r out [] e l h = inl (ground arith, ground (arith, append-nil out))
  list_entries-total t r out (entry ∷ entries) e l h = elim (Option-cases (size entry)) [
    | inl none_there ↦ absurd (ground (arith, none_there))
    | inr (n, there) ↦
        let (text, given, long) = sized entry n there in
        let rest = sym (total_bytes-step t n out text entry entries there) ∙ e in
        elim (le-or-lt n (capacity - t)) [
          | inl room ↦
              let (step, same) = list_entries-step t n out text entry entries there given room in
              let ih =
                list_entries-total (t + n) r (out ++ text) entries rest
                  (omega (arith, length-append out text)) (omega arith) in
              rw (step, ← same) ih
          | inr full ↦ inr (
            omega (arith, total_bytes-ge size (t + n) r entries rest),
            list_entries-full t n out text entry entries there full,
          )
        ]
  ]

  list_entries-none :
      (t : ℕ) (out : List ℕ) (entries : List A)
      → total_bytes size t entries ≡ none
      → (list_entries size bytes capacity t out entries ≡ overflow)
        ⊎ (list_entries size bytes capacity t out entries ≡ conversion_failed)
  unfolding total_bytes list_entries
  list_entries-none t out [] e = ground arith
  list_entries-none t out (entry ∷ entries) e = elim (Option-cases (size entry)) [
    | inl none_there ↦ inr (ground (arith, none_there))
    | inr (n, there) ↦
        let (text, given, _) = sized entry n there in
        let rest = sym (total_bytes-step t n out text entry entries there) ∙ e in
        elim (le-or-lt n (capacity - t)) [
          | inl room ↦
              rw (list_entries-step t n out text entry entries there given room).0
                (list_entries-none (t + n) (out ++ text) entries rest)
          | inr full ↦ inl (list_entries-full t n out text entry entries there full)
        ]
  ]

-- What a message that asks for the length of a list, and the message that asks for the list, reply:
-- the length, with either the list in just as many bytes, all of which the driver is given, or a refusal
-- since they do not fit; or two refusals.
abbrev pub Tallies : ℕ → List ℕ → Reply → Reply → Type 0
Tallies capacity out size list =
    ((size ≡ answer (a_number (min (length out) ulong_max)))
      × (((length out ≤ capacity)
            × (list ≡ text_of (length out) out)
            × (release_message_buffers capacity list.status list.information out ≡ expected out))
          ⊎ ((capacity < length out) × (list ≡ no_text status_buffer_too_small))))
    ⊎ ((size ≡ record (reject status_invalid_parameter) { body = a_number 0 })
        × ((list ≡ no_text status_invalid_parameter) ⊎ (list ≡ no_text status_buffer_too_small)))

released_whole :
    (capacity : ℕ) (out : List ℕ)
    → length out ≤ capacity
    → release_message_buffers capacity status_success (length out) out ≡ expected out
unfolding release_message_buffers
released_whole capacity out h =
    let fill = replicate {A = ℕ} (capacity - length out) 0 in ground (arith, take-append out fill)

listed_whole :
    (r : ℕ) (out : List ℕ)
    → 0 + length out ≡ r
    → r ≤ ulong_max
    → listing_reply (listed r out) ≡ text_of (length out) out
unfolding listing_reply
listed_whole r out e h = let exact : min r ulong_max ≡ length out = omega arith in rw exact refl

module _ {ℓ} {A : Type ℓ} (size : A → Option ℕ) (bytes : A → Option (List ℕ)) (capacity : ℕ)
    (sized : IsSized size bytes) (entries : List A) (h : capacity ≤ ulong_max) where
  pub loops-Tallies :
      Tallies capacity
        (joined bytes entries)
        (length_reply (total_bytes size 0 entries))
        (listing_reply (list_entries size bytes capacity 0 [] entries))
  unfolding length_reply listing_reply
  loops-Tallies = elim (Option-cases (total_bytes size 0 entries)) [
    | inl failed ↦ inr (
      rw failed refl,
      elim (list_entries-none size bytes capacity sized 0 [] entries failed) [
        | inl over ↦ inr (rw over refl)
        | inr bad ↦ inl (rw bad refl)
      ],
    )
    | inr (r, total) ↦
        let long = length-joined size bytes capacity sized 0 r entries total in
        inl (
          rw total (ap (λ n. answer (a_number (min n ulong_max))) (omega (arith, long))),
          elim (list_entries-total size bytes capacity sized 0 r [] entries total refl
              (omega arith)) [
                | inl (room, made) ↦
                    let out = joined bytes entries in
                    let whole = ap listing_reply made ∙ listed_whole r out long (omega arith) in
                    inl (
                      omega (arith, long),
                      whole,
                      rw whole (released_whole capacity out (omega (arith, long))),
                    )
                | inr (full, over) ↦ inr (omega (arith, long), rw over refl)
              ],
        )
  ]
