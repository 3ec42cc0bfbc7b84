-- ===== src/Vk.antt =====
-- The virtual-key codes of the Windows SDK that src/condrv/vt_input_decoder.cpp and
-- src/runtime/key_input_encoder.cpp name.
use Prim.Native.Nat.{ℕ}

abbrev pub prior : ℕ
prior = 0x21

abbrev pub next : ℕ
next = 0x22

abbrev pub end : ℕ
end = 0x23

abbrev pub home : ℕ
home = 0x24

abbrev pub left : ℕ
left = 0x25

abbrev pub up : ℕ
up = 0x26

abbrev pub right : ℕ
right = 0x27

abbrev pub down : ℕ
down = 0x28

abbrev pub insert : ℕ
insert = 0x2d

abbrev pub delete : ℕ
delete = 0x2e

abbrev pub f1 : ℕ
f1 = 0x70

abbrev pub f2 : ℕ
f2 = 0x71

abbrev pub f3 : ℕ
f3 = 0x72

abbrev pub f4 : ℕ
f4 = 0x73

abbrev pub back : ℕ
back = 0x08

abbrev pub tab : ℕ
tab = 0x09

abbrev pub return : ℕ
return = 0x0d

abbrev pub cancel : ℕ
cancel = 0x03

abbrev pub escape : ℕ
escape = 0x1b
