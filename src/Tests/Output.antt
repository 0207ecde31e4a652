-- ===== src/Tests/Output.antt =====
-- The number conversions of the user library.
use armv7_os.Prelude.{◌==◌, if◌then◌else◌, inr, refl, ℕ, ◌≡◌, arith, pos, some, List, [], ◌∷◌, ◌++◌}
use armv7_os.Print.{Printer}
use armv7_os.Print.{hex_char, usr_kprintf, is_digit}
use armv7_os.Print.Format.{Piece, lit, conv, chr, int, hex, encode}
use armv7_os.Print.Render.{usr_kprintf-render}
use armv7_os.Print.Strings.{usr_strcpy, usr_strlen, HoldsText, SameOutside, usr_strlen-usr_strcpy}
use armv7_os.Print.Digits.{to_text}

abbrev printer : Printer
printer = record { out = []; j = 0; offset = pos 0; zeros = 0 }

-- The format of the threads of user/user_thread_functions.c, "%c:%x (%c:%i)\n", with a width for the
-- counter, "%5x".
abbrev thread_format : List Piece
thread_format =
    conv [] chr
    ∷ lit b':'
    ∷ conv (b'5' ∷ []) hex
    ∷ lit b' '
    ∷ lit b'('
    ∷ conv [] chr
    ∷ lit b':'
    ∷ conv [] int
    ∷ lit b')'
    ∷ lit 10
    ∷ []

-- "a:1f (2:-3)" and the end of the line.
usr_kprintf-render_example :
    (p' : Printer) × (usr_kprintf 11
        (λ x. 0)
        (encode thread_format (0 ∷ 7 ∷ []))
        (b'a' ∷ 31 ∷ b'2' ∷ 4294967293 ∷ [])
        printer
      ≡ some p')
    × (p'.out
        ≡ []
          ++ (b'a' ∷ b':' ∷ b'1' ∷ b'f' ∷ b' ' ∷ b'(' ∷ b'2' ∷ b':' ∷ b'-' ∷ b'3' ∷ b')' ∷ 10 ∷ []))
unfolding to_text is_digit hex_char
usr_kprintf-render_example =
    usr_kprintf-render (λ x. 0) thread_format 11 (7 ∷ []) (b'a' ∷ 31 ∷ b'2' ∷ 4294967293 ∷ [])
      (b'a' ∷ b':' ∷ b'1' ∷ b'f' ∷ b' ' ∷ b'(' ∷ b'2' ∷ b':' ∷ b'-' ∷ b'3' ∷ b')' ∷ 10 ∷ []) printer
      (ground arith) refl (omega arith)

-- The bytes "four" and a NUL, from address 100 on.
abbrev word_memory : ℕ → ℕ
word_memory x =
    if x == 100
    then b'f'
    else if x == 101
    then b'o'
    else if x == 102
    then b'u'
    else if x == 103
    then b'r'
    else 0

usr_strlen-usr_strcpy_example :
    (memory' : ℕ → ℕ) × (usr_strcpy 9 105 100 word_memory ≡ some (105, memory'))
    × HoldsText memory' 105 (b'f' ∷ b'o' ∷ b'u' ∷ b'r' ∷ [])
    × SameOutside 105 5 word_memory memory'
    × (usr_strlen 9 105 memory' ≡ some 4)
usr_strlen-usr_strcpy_example =
    usr_strlen-usr_strcpy 9 105 100 word_memory (b'f' ∷ b'o' ∷ b'u' ∷ b'r' ∷ [])
      (refl, λ e. cc, (refl, λ e. cc, (refl, λ e. cc, (refl, λ e. cc, refl)))) (inr (omega arith))
      (omega arith) (omega arith)
