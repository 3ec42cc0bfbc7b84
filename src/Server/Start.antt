-- ===== src/Server/Start.antt =====
-- The state that the constructor of `ServerState` leaves.
use conhost.Prelude.{ℕ, arith, Option}
use conhost.Prelude.Table.{find, contains}
use conhost.Server.Connect.{construct_state}
use conhost.Server.Invariant.{IsValid}

pub construct_state-IsValid :
    (get_oemcp : ℕ) (buffer : Option ℕ) → IsValid (construct_state get_oemcp buffer)
unfolding construct_state find contains
construct_state-IsValid get_oemcp buffer = record {
  processes_distinct = tt;
  objects_distinct = tt;
  keyed = λ p state e. ground arith;
  owned = λ h object e. ground arith;
  held = λ p. ground arith;
}
