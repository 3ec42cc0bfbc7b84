-- ===== src/Dispatch/Sound.antt =====
-- The messages that resize a screen buffer leave it usable, whatever they ask for.
use conhost.Prelude.{
  ℕ, ◌≡◌, refl, ◌∙◌, arith, if◌then◌else◌, Bool, true, false, Bool-cases, ◌⊎◌, inl, inr, Option,
  none, some, List,
}
use conhost.Prelude.Int.{IsShort}
use conhost.Screen.{
  Coord, ScreenBuffer, VtAlternateBufferBackup, is_degenerate, set_cursor_position, set_window_rect,
  touch, to_size,
}
use conhost.Screen.Window.{IsSize}
use conhost.Screen.Cursor.{set_text_attributes, set_default_text_attributes, set_color_table}
use conhost.Screen.Place.{positive}
use conhost.Screen.Size.{set_screen_buffer_size, resize, resize_backup, old_extent, blank_of}
use conhost.Screen.Resized.{length-resize_cells, resize_placed, resize-IsFilled, clip_to_bounds}
use conhost.VtOutput.Sound.{IsBackup}
use conhost.Dispatch.{
  Reply, ScreenBufferInfo, reject, status_no_memory, accepted_or, succeed, Status,
  status_invalid_parameter,
}
use conhost.Dispatch.Buffers.{
  is_outside, apply_window, apply_info, set_screen_buffer_info, set_screen_buffer_size_message,
  info_window, is_negative, is_reversed, is_beyond,
}
use conhost.Dispatch.Usable.{
  IsUsable, IsUsable-Like, is_inside, set_cursor_position-IsUsable, snap-IsUsable,
  set_window_rect-IsUsable,
}

resize_backup-IsBackup :
    (old size : Coord) (backup : Option VtAlternateBufferBackup)
    → IsSize size.x
    → IsSize size.y
    → IsBackup old backup
    → IsBackup size (resize_backup old size backup)
unfolding resize_backup
resize_backup-IsBackup old size none wide high h = tt
resize_backup-IsBackup old size (some backup) wide high (full, inside) =
    let cx = clip_to_bounds size.x backup.cursor_position.x wide (inside.0) in
    let cy = clip_to_bounds size.y backup.cursor_position.y high (inside.2) in
    (
      length-resize_cells (old_extent old.x) (old_extent old.y) (to_size size.x) (to_size size.y)
            (blank_of backup.text_attributes) backup.cells
          ∙ omega arith,
      (cx.0, cx.1, cy.0, cy.1),
    )

resize-IsUsable :
    (old size : Coord) (b : ScreenBuffer)
    → IsSize size.x
    → IsSize size.y
    → IsUsable old b
    → IsUsable size (touch (resize size b))
unfolding resize
resize-IsUsable old size b wide high u =
    let (placed, cursor) = resize_placed size b wide high (u.sound.cursor.0) (u.sound.cursor.2) in
    record {
      wide = wide;
      high = high;
      sound = record {
        sized = refl;
        full = resize-IsFilled size b;
        cursor = cursor;
        across = placed.across;
        down = placed.down;
        backup =
            resize_backup-IsBackup b.buffer_size size b.vt_main_backup wide high
              (rw u.sound.sized u.sound.backup);
      };
    }

-- A resize to a size that is positive, whether it gets its memory or not.
abbrev Resizes : Coord → Coord → ScreenBuffer × Bool → Type 0
Resizes old size r = if r.1 then IsUsable size (r.0) else IsUsable old (r.0)

set_screen_buffer_size-Resizes :
    (allocated : Bool) (old size : Coord) (b : ScreenBuffer)
    → IsShort size.x
    → IsShort size.y
    → is_degenerate size ≡ false
    → IsUsable old b
    → Resizes old size (set_screen_buffer_size allocated size b)
unfolding set_screen_buffer_size
set_screen_buffer_size-Resizes false old size b x y ok u = rw ok u
set_screen_buffer_size-Resizes true old size b x y ok u =
    let (px, py) = positive size ok in
    rw ok
      (snap-IsUsable size (touch (resize size b))
        (resize-IsUsable old size b (omega arith, omega arith) (omega arith, omega arith) u)).0

-- Which buffer a message leaves, whatever the reply.
abbrev pub Leaves : ScreenBuffer → ScreenBuffer → ScreenBuffer → Type 0
Leaves r b c = (r ≡ b) ⊎ (r ≡ c)

pub Leaves-IsUsable :
    (size : Coord) (r b c : ScreenBuffer)
    → Leaves r b c
    → IsUsable size b
    → IsUsable size c
    → IsUsable size r
Leaves-IsUsable size r b c (inl e) p q = rw e p
Leaves-IsUsable size r b c (inr e) p q = rw e q

-- Up to three tests, each of which ends the message with the buffer as it is.
pub guarded-Leaves :
    (t u v : Bool) (p q r : Reply) (b : ScreenBuffer) (y : ScreenBuffer × Reply) (c : ScreenBuffer)
    → Leaves (y.0) b c
    → Leaves (if t then (b, p) else if u then (b, q) else if v then (b, r) else y).0 b c
guarded-Leaves true u v p q r b y c l = inl refl
guarded-Leaves false true v p q r b y c l = inl refl
guarded-Leaves false false true p q r b y c l = inl refl
guarded-Leaves false false false p q r b y c l = l

pub accepted-Leaves :
    (status : Status) (b : ScreenBuffer) (r : ScreenBuffer × Bool)
    → Leaves (accepted_or status succeed r).0 b (r.0)
unfolding accepted_or succeed
accepted-Leaves status b (c, true) = inr refl
accepted-Leaves status b (c, false) = inr refl

apply_window-Leaves :
    (info : ScreenBufferInfo) (b : ScreenBuffer)
    → Leaves (apply_window info b).0 b (set_window_rect (info_window info) b).0
unfolding apply_window
apply_window-Leaves info b =
    let bad = reject status_invalid_parameter in
    guarded-Leaves (is_negative info) (is_reversed info) (is_beyond info b.buffer_size) bad bad bad
      b (accepted_or status_invalid_parameter succeed (set_window_rect (info_window info) b)) _
      (accepted-Leaves status_invalid_parameter b (set_window_rect (info_window info) b))

apply_window-IsUsable :
    (size : Coord) (info : ScreenBufferInfo) (b : ScreenBuffer)
    → IsUsable size b
    → IsUsable size (apply_window info b).0
apply_window-IsUsable size info b u =
    Leaves-IsUsable size _ b _ (apply_window-Leaves info b) u
      (set_window_rect-IsUsable size (info_window info) b u)

-- The attributes and the color table are no part of what makes a buffer usable.
with_colors-IsUsable :
    (size : Coord) (attributes : ℕ) (table : List ℕ) (b : ScreenBuffer)
    → IsUsable size b
    → IsUsable size (
        set_color_table table
          (set_default_text_attributes attributes (set_text_attributes attributes b)))
with_colors-IsUsable size attributes table b = IsUsable-Like size b _ (record {
  same_size = refl;
  same_length = refl;
  same_cursor = refl;
  same_window = refl;
  same_backup = refl;
})

apply_info-IsUsable :
    (info : ScreenBufferInfo) (b : ScreenBuffer)
    → IsUsable info.size b
    → IsUsable info.size (apply_info info b).0
unfolding apply_info
apply_info-IsUsable info b u = elim (Bool-cases (is_outside info.cursor_position info.size)) [
  | inl out ↦ rw out u
  | inr inside ↦ rw inside (
      apply_window-IsUsable info.size info _ (
        with_colors-IsUsable info.size info.attributes info.color_table
          (set_cursor_position info.cursor_position b)
          (set_cursor_position-IsUsable info.size info.cursor_position b
            (is_inside info.cursor_position info.size inside) u)))
]

-- A buffer that is usable at some size.
abbrev pub HasSize : ScreenBuffer → Type 0
HasSize b = (size : Coord) × IsUsable size b

HasSize-else :
    (test : Bool) (x y : ScreenBuffer × Reply)
    → HasSize (x.0)
    → (test ≡ false → HasSize (y.0))
    → HasSize (if test then x else y).0
HasSize-else true x y p q = p
HasSize-else false x y p q = q refl

info_after :
    (old : Coord) (info : ScreenBufferInfo) (r : ScreenBuffer × Bool)
    → Resizes old info.size r
    → HasSize (accepted_or status_no_memory (apply_info info) r).0
unfolding accepted_or
info_after old info (b, true) u = (info.size, apply_info-IsUsable info b u)
info_after old info (b, false) u = (old, u)

size_after :
    (old size : Coord) (r : ScreenBuffer × Bool)
    → Resizes old size r
    → HasSize (accepted_or status_no_memory succeed r).0
unfolding accepted_or succeed
size_after old size (b, true) u = (size, u)
size_after old size (b, false) u = (old, u)

pub set_screen_buffer_info-HasSize :
    (allocated : Bool) (old : Coord) (info : ScreenBufferInfo) (b : ScreenBuffer)
    → IsShort info.size.x
    → IsShort info.size.y
    → IsUsable old b
    → HasSize (set_screen_buffer_info allocated info b).0
unfolding set_screen_buffer_info
set_screen_buffer_info-HasSize allocated old info b x y u =
    HasSize-else (is_degenerate info.size) (b, reject status_invalid_parameter)
      (accepted_or status_no_memory (apply_info info)
        (set_screen_buffer_size allocated info.size b))
      (old, u)
      (λ ok.
        info_after old info (set_screen_buffer_size allocated info.size b)
          (set_screen_buffer_size-Resizes allocated old info.size b x y ok u))

pub set_screen_buffer_size_message-HasSize :
    (allocated : Bool) (old size : Coord) (b : ScreenBuffer)
    → IsShort size.x
    → IsShort size.y
    → IsUsable old b
    → HasSize (set_screen_buffer_size_message allocated size b).0
unfolding set_screen_buffer_size_message
set_screen_buffer_size_message-HasSize allocated old size b x y u =
    HasSize-else (is_degenerate size) (b, reject status_invalid_parameter)
      (accepted_or status_no_memory succeed (set_screen_buffer_size allocated size b)) (old, u)
      (λ ok.
        size_after old size (set_screen_buffer_size allocated size b)
          (set_screen_buffer_size-Resizes allocated old size b x y ok u))
