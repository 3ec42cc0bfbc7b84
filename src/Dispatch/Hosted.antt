-- ===== src/Dispatch/Hosted.antt =====
-- A message on a screen buffer as the host handles it: through the handle, on the buffer that the
-- handle refers to.
use conhost.Server.{find_object, is_output, ObjectHandle}
use conhost.Prelude.{
  ℕ, ◌≡◌, ◌≢◌, refl, Bool, List, [], ◌∷◌, All, set, zero, suc, get_elem?, get_elem?-set_other,
  Option, none, some, Option-cases, inl, inr, subst, arith, sym, Bool-cases,
}
use conhost.Screen.{ScreenBuffer}
use conhost.Dispatch.{
  Host, Target, target, on_buffer, target_at, target_of, target_through, Reply, reject,
  status_invalid_handle,
}
use conhost.Dispatch.Calls.{BufferMessage, call}
use conhost.Dispatch.Sound.{HasSize}
use conhost.Dispatch.Kept.{HasShorts, call-HasSize}

some_inj : (c b : ScreenBuffer) → ◌≡◌ {A = Option ScreenBuffer} (some c) (some b) → c ≡ b
some_inj c b e = ground arith

at_place :
    (buffers : List ScreenBuffer) (i : ℕ) (b : ScreenBuffer)
    → All HasSize buffers
    → get_elem? buffers i ≡ some b
    → HasSize b
at_place [] i b h e = cc
at_place (c ∷ cs) zero b (h, hs) e = subst HasSize (some_inj c b e) h
at_place (c ∷ cs) (suc i) b (h, hs) e = at_place cs i b hs e

set-All :
    (buffers : List ScreenBuffer) (i : ℕ) (b : ScreenBuffer)
    → All HasSize buffers
    → HasSize b
    → All HasSize (set buffers i b)
set-All [] i b h p = tt
set-All (c ∷ cs) zero b (h, hs) p = (p, hs)
set-All (c ∷ cs) (suc i) b (h, hs) p = (h, set-All cs i b hs p)

target_at-place :
    (o : Option ScreenBuffer) (place : ℕ) (t : Target)
    → target_at o place ≡ some t
    → (t.place ≡ place) × (o ≡ some t.buffer)
target_at-place none place t e = cc
target_at-place (some b) place t e = ground arith

target_of-place :
    (ref : Option ℕ) (buffers : List ScreenBuffer) (t : Target)
    → target_of ref buffers ≡ some t
    → get_elem? buffers t.place ≡ some t.buffer
target_of-place none buffers t e = cc
target_of-place (some place) buffers t e =
    let (same, found) = target_at-place (get_elem? buffers place) place t e in rw same found

target_through-place :
    (o : Option ObjectHandle) (buffers : List ScreenBuffer) (t : Target)
    → target_through o buffers ≡ some t
    → get_elem? buffers t.place ≡ some t.buffer
target_through-place none buffers t e = cc
target_through-place (some object) buffers t e = elim (Bool-cases (is_output object.kind)) [
  | inl yes' ↦ target_of-place object.screen_buffer buffers t (rw yes' at e)
  | inr no' ↦ ground arith
]

target-place :
    (handle_id : ℕ) (host : Host) (t : Target)
    → target handle_id host ≡ some t
    → get_elem? host.buffers t.place ≡ some t.buffer
unfolding target
target-place handle_id host t e =
    target_through-place (find_object handle_id host.state) host.buffers t e

module _ (f : ScreenBuffer → ScreenBuffer × Reply) (handle_id : ℕ) (host : Host) where
  on_buffer-missing :
      target handle_id host ≡ none
      → on_buffer f handle_id host ≡ (host, reject status_invalid_handle)
  unfolding on_buffer
  on_buffer-missing e = rw (on_buffer, e) refl

  on_buffer-found :
      (t : Target)
      → target handle_id host ≡ some t
      → on_buffer f handle_id host
        ≡ (record host { buffers = set host.buffers t.place (f t.buffer).0 }, (f t.buffer).1)
  unfolding on_buffer
  on_buffer-found t e = rw (on_buffer, e) refl

-- A message on a screen buffer, through whatever handle, keeps every buffer of the host usable and
-- the server's state as it is. It changes no buffer but the one that the handle refers to.
pub on_buffer-HasSize :
    (allocated : Bool) (m : BufferMessage) (handle_id : ℕ) (host : Host)
    → HasShorts m
    → All HasSize host.buffers
    → All HasSize (on_buffer (call allocated m) handle_id host).0.buffers
      × ((on_buffer (call allocated m) handle_id host).0.state ≡ host.state)
      × ((place : ℕ)
          → ((t : Target) → target handle_id host ≡ some t → place ≢ t.place)
          → get_elem? (on_buffer (call allocated m) handle_id host).0.buffers place
            ≡ get_elem? host.buffers place)
on_buffer-HasSize allocated m handle_id host shorts h =
    elim (Option-cases (target handle_id host)) [
      | inl missing ↦
          rw (on_buffer-missing (call allocated m) handle_id host missing)
            (h, refl, λ place apart. refl)
      | inr (t, found) ↦
          let at = target-place handle_id host t found in
          let (size, u) = at_place host.buffers t.place t.buffer h at in
          rw (on_buffer-found (call allocated m) handle_id host t found) (
            set-All host.buffers t.place (call allocated m t.buffer).0 h
                (call-HasSize allocated m size t.buffer shorts u),
            refl,
            λ place apart.
                get_elem?-set_other host.buffers t.place place (call allocated m t.buffer).0
                  (λ same. apart t found (sym same)),
          )
    ]
