-- ===== src/TextOps/Utf8.antt =====
-- unicode/utf8.Valid of Go's standard library, as a machine that reads one byte at a time.
use phonepad.Base.{
  Bool, Bytes, [], false, if◌then◌else◌, leb, ltb, refl, true, ℕ, ◌&&◌, ◌++◌, ◌∷◌, ◌≡◌,
}

-- What may follow: nothing owed, or one, two or three continuation bytes, the first of them
-- limited where an overlong form, a surrogate or a value above 0x10ffff must be refused.
pub data Utf8State : Type 0 where
  between one_more two_more three_more after_e0 after_ed after_f0 after_f4 bad : Utf8State

abbrev within : ℕ → ℕ → ℕ → Bool
within lo hi b = leb lo b && leb b hi

lead : ℕ → Utf8State
lead b =
    if ltb b 0x80
    then between
    else if within 0xc2 0xdf b
    then one_more
    else if within 0xe0 0xe0 b
    then after_e0
    else if within 0xed 0xed b
    then after_ed
    else if within 0xe1 0xef b
    then two_more
    else if within 0xf0 0xf0 b
    then after_f0
    else if within 0xf1 0xf3 b
    then three_more
    else if within 0xf4 0xf4 b
    then after_f4
    else bad

unfoldable pub utf8_step : Utf8State → ℕ → Utf8State
unfolding lead
utf8_step between b = lead b
utf8_step one_more b = if within 0x80 0xbf b then between else bad
utf8_step two_more b = if within 0x80 0xbf b then one_more else bad
utf8_step three_more b = if within 0x80 0xbf b then two_more else bad
utf8_step after_e0 b = if within 0xa0 0xbf b then one_more else bad
utf8_step after_ed b = if within 0x80 0x9f b then one_more else bad
utf8_step after_f0 b = if within 0x90 0xbf b then two_more else bad
utf8_step after_f4 b = if within 0x80 0x8f b then two_more else bad
utf8_step bad b = bad

unfoldable pub utf8_run : Utf8State → Bytes → Utf8State
utf8_run st [] = st
utf8_run st (b ∷ s) = utf8_run (utf8_step st b) s

abbrev at_end : Utf8State → Bool
at_end between = true
at_end _ = false

-- utf8.Valid
unfoldable pub utf8_valid : Bytes → Bool
unfolding utf8_step utf8_run
utf8_valid s = at_end (utf8_run between s)

-- A text that arrives in pieces is read as one: a character may straddle two of them.
pub utf8_run-append :
    (st : Utf8State) (s t : Bytes) → utf8_run st (s ++ t) ≡ utf8_run (utf8_run st s) t
unfolding utf8_run
utf8_run-append st [] t = refl
utf8_run-append st (b ∷ s) t = utf8_run-append (utf8_step st b) s t
