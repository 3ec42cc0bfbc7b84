-- ===== src/Dispatch/Drain.antt =====
-- The last process that disconnects ends the program.
use conhost.Server.Invariant.{IsValid, disconnect_client-IsValid, IsOwned}
use conhost.Prelude.{
  ℕ, ◌≡◌, refl, ◌∙◌, ap, arith, ◌==◌, Bool, List, ◌∷◌, Text, some, [], zero, suc, length, map, true,
  false, subst,
}
use conhost.Prelude.Table.{
  find, contains, find-cons, IsDistinct, erase, Every, erase-cons_same, contains-cons_same,
}
use conhost.Server.{ObjectHandle, disconnect_client, ProcessState, process_count}
use conhost.Dispatch.{Host, Reply}
use conhost.Dispatch.Connection.{disconnect}
use conhost.Dispatch.Valid.{run-IsValid}
use conhost.Dispatch.Ledger.{Message, console_io_disconnect, handle, run}

abbrev pub exits : Message × Reply → Bool
exits (m, reply) = reply.request_exit

abbrev pub disconnects : ℕ × ProcessState → Message
disconnects (p, state) = console_io_disconnect p

-- An exit is asked for once, at the end.
abbrev pub exits_at_end : ℕ → List Bool
exits_at_end zero = true ∷ []
exits_at_end (suc n) = false ∷ exits_at_end n

no_objects : (objects : List (ℕ × ObjectHandle)) → Every (IsOwned []) objects → objects ≡ []
unfolding contains find
no_objects [] o = refl
no_objects ((h, object) ∷ t) o =
    let found : find h ((h, object) ∷ t) ≡ some object = ground (arith, find-cons h h object t) in
    let stranger = (o h object found).0 in ground arith

-- The process that is first in the map.
disconnect_first :
    (p : ℕ) (state : ProcessState) (t : List (ℕ × ProcessState)) (host : Host)
    → host.state.processes ≡ (p, state) ∷ t
    → contains p t ≡ false
    → ((disconnect p host).0.state.processes ≡ t)
      × ((disconnect p host).1.request_exit ≡ (length t == 0))
unfolding disconnect disconnect_client process_count
disconnect_first p state t host e fresh =
    let there = ap (contains p) e ∙ contains-cons_same p state t in
    let left = ap (erase p) e ∙ erase-cons_same p state t fresh in
    rw there (left, ap (λ (x : List (ℕ × ProcessState)). length x == 0) left)

not_last :
    (t : List (ℕ × ProcessState)) (entry : ℕ × ProcessState) → (length (entry ∷ t) == 0) ≡ false
not_last t entry = ground arith

fresh_first :
    (p : ℕ) (state : ProcessState) (t : List (ℕ × ProcessState)) (host : Host)
    → host.state.processes ≡ (p, state) ∷ t
    → IsValid host.state
    → contains p t ≡ false
fresh_first p state t host e v =
    (subst (λ (x : List (ℕ × ProcessState)). IsDistinct x) e v.processes_distinct).0

module _ (compare : Text → Text → Bool) where
  run-drained :
      (t : List (ℕ × ProcessState)) (p : ℕ) (state : ProcessState) (host : Host)
      → host.state.processes ≡ (p, state) ∷ t
      → IsValid host.state
      → ((run compare (map disconnects ((p, state) ∷ t)) host).0.state.processes ≡ [])
        × (map exits (run compare (map disconnects ((p, state) ∷ t)) host).1
            ≡ exits_at_end (length t))
  unfolding run handle
  run-drained [] p state host e v =
      let (left, exit) = disconnect_first p state [] host e (fresh_first p state [] host e v) in
      (left, ap (λ (b : Bool). b ∷ []) exit)
  run-drained ((q, next) ∷ t) p state host e v =
      let (left, exit) =
        disconnect_first p state ((q, next) ∷ t) host e
          (fresh_first p state ((q, next) ∷ t) host e v) in
      let (gone, rest) =
        run-drained t q next (disconnect p host).0 left
          (disconnect_client-IsValid p host.state v) in
      (gone, rw (exit ∙ not_last t (q, next), rest) refl)

  -- When every process that is connected disconnects, in the order of the map, then no process and no
  -- handle is left, and the program is asked to exit by the reply to the last one and by no other.
  pub run-drains :
      (p : ℕ) (state : ProcessState) (t : List (ℕ × ProcessState)) (host : Host)
      → host.state.processes ≡ (p, state) ∷ t
      → IsValid host.state
      → ((run compare (map disconnects ((p, state) ∷ t)) host).0.state.processes ≡ [])
        × ((run compare (map disconnects ((p, state) ∷ t)) host).0.state.objects ≡ [])
        × (map exits (run compare (map disconnects ((p, state) ∷ t)) host).1
            ≡ exits_at_end (length t))
  run-drains p state t host e v =
      let (gone, exit) = run-drained t p state host e v in
      let ms = map disconnects ((p, state) ∷ t) in
      let owned = (run-IsValid compare ms host v).owned in
      (
        gone,
        no_objects (run compare ms host).0.state.objects (
            subst
              (λ (x : List (ℕ × ProcessState)).
                Every (IsOwned x) (run compare ms host).0.state.objects)
              gone owned),
        exit,
      )
