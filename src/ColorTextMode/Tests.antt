-- ===== src/ColorTextMode/Tests.antt =====
-- Tests of the model of src/drivers/graphic/colortextmode.c, and the inputs at which its theorems are
-- applied.
use unagi_os.Common.{◌+◌, ◌*◌, ◌≡◌, refl, arith, some, [], ◌∷◌, ltb, if◌then◌else◌}
use unagi_os.ColorTextMode.{
  Screen, make_char, put_char, write_char, row_scrolldown, kprint, fill_row, copy_row, copy_rows,
  terminal_scroll,
}
use unagi_os.ColorTextMode.Scroll.{blank, terminal_scroll_lem}
use unagi_os.ColorTextMode.Print.{IsPlaced, SameBehind, kprint_lem}

-- a screen whose cells hold their own indexes, with the last cell next
abbrev at_end : Screen
at_end = record { video_mem = λ k. k; row = 24; col = 79 }

-- the character of a byte above 127 loses its color
colored : (make_char 65 4 ≡ 0x441) × (make_char 0xE9 4 ≡ 0xFFE9)
unfolding make_char
colored = (refl, refl)

-- a character in the last cell scrolls the screen
scrolled :
    ((write_char 65 7 at_end).video_mem 0 ≡ 80)
    × ((write_char 65 7 at_end).video_mem 1919 ≡ 0x741)
    × ((write_char 65 7 at_end).video_mem 1999 ≡ 32)
unfolding write_char row_scrolldown terminal_scroll copy_rows copy_row fill_row put_char make_char
scrolled = (refl, refl, refl)

terminal_scroll_lem_example : (terminal_scroll at_end).video_mem 1919 ≡ (
    if ltb 1919 (24 * 80)
    then at_end.video_mem (1919 + 80)
    else if ltb 1919 (25 * 80)
    then blank
    else at_end.video_mem 1919)
terminal_scroll_lem_example = terminal_scroll_lem at_end 1919

kprint_lem_example :
    (s' : Screen) × (kprint (65 ∷ 10 ∷ 66 ∷ []) 3 7 at_end ≡ some s')
    × IsPlaced s'
    × SameBehind at_end s'
kprint_lem_example =
    kprint_lem (65 ∷ 10 ∷ 66 ∷ []) 3 7 at_end (omega arith, omega arith) (omega arith) (omega arith)
