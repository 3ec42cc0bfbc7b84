-- ===== src/VtOutput/Switches.antt =====
-- The switches of the alternate buffer and the modes (src/condrv/condrv_server.hpp) keep the invariant of a
-- call.
use conhost.Prelude.{
  subst, ℕ, ◌≡◌, ◌∙◌, arith, ◌==◌, if◌then◌else◌, Bool, true, false, not, ◌&&◌, Bool-cases,
  Option-cases, inl, inr, none, some, List, [], ◌∷◌, length, length-replicate,
}
use conhost.Prelude.Int.{pos}
use conhost.Screen.{Coord, ScreenCell, ScreenBuffer, VtAlternateBufferBackup}
use conhost.Screen.Window.{IsSize}
use conhost.Screen.Alternate.{
  set_vt_using_alternate_screen_buffer, enable_alternate, disable_alternate,
}
use conhost.VtOutput.{Call, Output, region, blank}
use conhost.VtOutput.Modes.{read_back, switch_buffer, set_mode, set_modes}
use conhost.VtOutput.Sound.{IsSound, IsSound-Like, IsBackup, Holds}
use conhost.VtOutput.Lines.{Holds-if}
use conhost.VtOutput.Sequences.{set_cursor_info-Like, region_top, home-Holds}

-- The switches that leave the buffer alone.
enabled :
    (allocated : Bool) (fill : ScreenCell) (b : ScreenBuffer) (backup : VtAlternateBufferBackup)
    → b.vt_main_backup ≡ some backup
    → enable_alternate allocated fill b ≡ (b, true)
unfolding enable_alternate
enabled allocated fill b backup e = ground arith

unallocated :
    (allocated : Bool) (fill : ScreenCell) (b : ScreenBuffer)
    → b.vt_main_backup ≡ none
    → allocated ≡ false
    → enable_alternate allocated fill b ≡ (b, false)
unfolding enable_alternate
unallocated allocated fill b e f = ground arith

disabled : (b : ScreenBuffer) → b.vt_main_backup ≡ none → disable_alternate b ≡ (b, true)
unfolding disable_alternate
disabled b e = ground arith

-- A switch to the alternate buffer, and one back, keep the buffer sound.
enable_alternate-IsSound :
    (size : Coord) (allocated : Bool) (fill : ScreenCell) (b : ScreenBuffer)
    → IsSize size.x
    → IsSize size.y
    → IsSound size b
    → IsSound size (enable_alternate allocated fill b).0
unfolding enable_alternate
enable_alternate-IsSound size allocated fill b x y s = elim (Option-cases b.vt_main_backup) [
  | inl e ↦ elim (Bool-cases allocated) [
    | inl t ↦
        rw (e, t)
          (record {
            sized = s.sized;
            full = length-replicate (length b.cells) fill ∙ s.full;
            cursor = (omega arith, omega arith, omega arith, omega arith);
            across = s.across;
            down = s.down;
            backup = (s.full, s.cursor);
          })
    | inr f ↦ rw (unallocated allocated fill b e f) s
  ]
  | inr (backup, e) ↦ rw (enabled allocated fill b backup e) s
]

disable_alternate-IsSound :
    (size : Coord) (b : ScreenBuffer) → IsSound size b → IsSound size (disable_alternate b).0
unfolding disable_alternate
disable_alternate-IsSound size b s = elim (Option-cases b.vt_main_backup) [
  | inl e ↦ rw (disabled b e) s
  | inr (backup, e) ↦
      let kept : IsBackup size (some backup) = subst (IsBackup size) e s.backup in
      rw e (record {
        sized = s.sized;
        full = kept.0;
        cursor = kept.1;
        across = s.across;
        down = s.down;
        backup = tt;
      })
]

pub alternate-IsSound :
    (size : Coord) (allocated enable : Bool) (fill : ScreenCell) (b : ScreenBuffer)
    → IsSize size.x
    → IsSize size.y
    → IsSound size b
    → IsSound size (set_vt_using_alternate_screen_buffer allocated enable fill b).0
unfolding set_vt_using_alternate_screen_buffer
alternate-IsSound size allocated true fill b x y s =
    enable_alternate-IsSound size allocated fill b x y s
alternate-IsSound size allocated false fill b x y s = disable_alternate-IsSound size b s

switch_buffer-Holds :
    (c : Call) (enable : Bool) (o : Output) → Holds c o → Holds c (switch_buffer c enable o)
unfolding switch_buffer read_back
switch_buffer-Holds c enable o h =
    let sound =
      alternate-IsSound c.size c.allocated enable (blank o) o.screen h.wide h.high h.screen in
    let done = set_vt_using_alternate_screen_buffer c.allocated enable (blank o) o.screen in
    Holds-if c (done.1) _ _
      (λ _. record { wide = h.wide; high = h.high; screen = sound; inside = sound.cursor })
      (λ _. record { wide = h.wide; high = h.high; screen = sound; inside = h.inside })

set_mode-Holds :
    (c : Call) (private_marker enable : Bool) (param : ℕ) (o : Output)
    → Holds c o
    → Holds c (set_mode c private_marker enable param o)
unfolding set_mode
set_mode-Holds c private_marker enable param o h =
    let y = region_top c o enable h.high in
    Holds-if c (not private_marker && (param == 4)) _ _
      (λ _. record { wide = h.wide; high = h.high; screen = h.screen; inside = h.inside })
      (λ _.
        Holds-if c (param == 25) _ _
          (λ _. record {
            wide = h.wide;
            high = h.high;
            screen =
                IsSound-Like c.size o.screen _ (set_cursor_info-Like _ enable o.screen) h.screen;
            inside = h.inside;
          })
          (λ _.
            Holds-if c (param == 6) _ _
              (λ _. record {
                wide = h.wide;
                high = h.high;
                screen = h.screen;
                inside = (home-Holds c (if enable then (region c o).0 else pos 0) o y h).inside;
              })
              (λ _.
                Holds-if c (param == 7) _ _
                  (λ _. record {
                    wide = h.wide;
                    high = h.high;
                    screen = h.screen;
                    inside = h.inside;
                  })
                  (λ _.
                    Holds-if c (param == 1049) _ _ (λ _. switch_buffer-Holds c enable o h)
                      (λ _. h)))))

pub set_modes-Holds :
    (c : Call) (private_marker enable : Bool) (params : List ℕ) (o : Output)
    → Holds c o
    → Holds c (set_modes c private_marker enable params o)
unfolding set_modes
set_modes-Holds c private_marker enable [] o h = h
set_modes-Holds c private_marker enable (param ∷ params) o h =
    set_modes-Holds c private_marker enable params (set_mode c private_marker enable param o)
      (set_mode-Holds c private_marker enable param o h)
