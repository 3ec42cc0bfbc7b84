-- ===== src/VtOutput/Alternate.antt =====
-- The alternate buffer from within a text (src/condrv/condrv_server.hpp): CSI ? 1049 h and CSI ? 1049 l
-- through the whole parser, with text between them.
use conhost.Prelude.{◌≡◌, Bool, true, false, none, if◌then◌else◌, ◌∷◌, Text}
use conhost.Screen.{VtAlternateBufferBackup}
use conhost.VtOutput.{Output}
use conhost.VtOutput.Parser.{csi, empty_csi, VtOutputParseState}

-- CSI ? 1049 h and CSI ? 1049 l.
abbrev pub switch_text : Bool → Text → Text
switch_text enable rest =
    27 ∷ b'[' ∷ b'?' ∷ b'1' ∷ b'0' ∷ b'4' ∷ b'9' ∷ (if enable then b'h' else b'l') ∷ rest

-- Behind `CSI ? 104`, so before the last digit and the final character.
abbrev near_end : VtOutputParseState → VtOutputParseState
near_end p = record p {
  phase = csi;
  csi = record empty_csi { private_marker = true };
  csi_current = 104;
  csi_have_digits = true;
  csi_last_was_separator = false;
  csi_length = 4;
}

-- The variables of a call whose buffer is the main one again, as `backup` has it.
pub record Restored (backup : VtAlternateBufferBackup) (o : Output) : Type 0 where
  pub main : o.screen.vt_main_backup ≡ none
  pub cells : o.screen.cells ≡ backup.cells
  pub cursor : o.cursor ≡ backup.cursor_position
  pub attributes : o.attributes ≡ backup.text_attributes
  pub margins : o.vertical_margins ≡ backup.vt_vertical_margins
  pub origin_mode : o.origin_mode ≡ backup.vt_origin_mode_enabled
