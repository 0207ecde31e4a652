-- ===== src/Print/Kprintf.antt =====
-- `usr_kprintf` of user/user_kprintf.c. The format is the list of its characters from the place `i`
-- on, NUL included; `none` is a read behind its end, a missing argument, or the end of the fuel.
-- The arrays `buff` and `tmp` are read by nothing and left out.
use armv7_os.Prelude.{
  ℕ, zero, suc, ◌+◌, ◌-◌, ◌*◌, ◌%◌, ◌^◌, ℤ, pos, negsuc, Bool, true, false, ◌&&◌, Option, none,
  some, List, [], ◌∷◌, leb, ◌==◌, if◌then◌else◌, ◌>>=◌,
}
use armv7_os.Print.Defs.{
  Printer, syscall_putc, usr_unusr_int_to_str, usr_int_to_str, usr_dec_to_hex_str,
}

-- `va_arg`: the next argument's word.
abbrev pub va_arg : List ℕ → Option (ℕ × List ℕ)
va_arg [] = none
va_arg (a ∷ args) = some (a, args)

unfoldable pub is_digit : ℕ → Bool
is_digit c = leb 48 c && leb c 57

-- offset * 10 + d for a digit d.
unfoldable pub shift_in : ℤ → ℕ → ℤ
shift_in (pos n) d = pos (n * 10 + d)
shift_in (negsuc n) d = negsuc ((n + 1) * 10 - d - 1)

-- The loop over the digits of a field width.
unfoldable pub width_loop : List ℕ → Printer → List ℕ × Printer
unfolding is_digit shift_in
width_loop [] p = ([], p)
width_loop (c ∷ cs) p =
    let rest = width_loop cs (record p { offset = shift_in p.offset (c - 48) }) in
    if is_digit c then rest else (c ∷ cs, p)

-- `offset = 0;zeros=0;` after a conversion.
abbrev pub reset_width : Option Printer → Option Printer
reset_width m = do p ← m; some (record p { offset = pos 0; zeros = 0 })

-- The `switch` on the character `c`, and on no digit; `res` is what the conversions' buffers hold.
unfoldable pub convert : (ℕ → ℕ) → ℕ → List ℕ → Printer → Option (List ℕ × Printer)
unfolding syscall_putc usr_unusr_int_to_str usr_int_to_str usr_dec_to_hex_str
convert res c args p =
    if c == b'c'
    then (do (a, args) ← va_arg args; some (args, syscall_putc (a % 2 ^ 8) p))
    else if c == b'x'
    then (do
      (a, args) ← va_arg args
      p ← reset_width (usr_dec_to_hex_str res a false p)
      some (args, p))
    else if c == b'i'
    then (do (a, args) ← va_arg args; p ← reset_width (usr_int_to_str res a p); some (args, p))
    else if c == b'u'
    then (do
      (a, args) ← va_arg args
      p ← reset_width (usr_unusr_int_to_str res a p)
      some (args, p))
    else if c == b'p'
    then (do
      (a, args) ← va_arg args
      p ← reset_width (usr_dec_to_hex_str res a true p)
      some (args, p))
    else if c == b'%'
    then some (args, syscall_putc b'%' p)
    else some (args, syscall_putc c (syscall_putc b'%' p))

-- What follows a `%`: the width, if any, and the conversion. It yields what is left of the format.
unfoldable pub switch_on : (ℕ → ℕ) → List ℕ → List ℕ → Printer → Option (List ℕ × List ℕ × Printer)
unfolding convert
switch_on res [] args p = none
switch_on res (c ∷ cs) args p = do (args, p) ← convert res c args p; some (cs, args, p)

unfoldable pub directive : (ℕ → ℕ) → List ℕ → List ℕ → Printer → Option (List ℕ × List ℕ × Printer)
unfolding switch_on width_loop is_digit
directive res [] args p = none
directive res (c ∷ cs) args p =
    if is_digit c
    then (let p = if c == b'0' then record p { zeros = 1 } else p in
        let (cs, p) = width_loop (c ∷ cs) p in switch_on res cs args p)
    else switch_on res (c ∷ cs) args p

-- The loop over the format.
unfoldable pub format_loop : ℕ → (ℕ → ℕ) → List ℕ → List ℕ → Printer → Option Printer
unfolding directive
format_loop zero res str args p = none
format_loop (suc fuel) res [] args p = none
format_loop (suc fuel) res (c ∷ cs) args p =
    let directive_next =
      directive res cs args p >>= λ (cs, args, p). format_loop fuel res cs args p in
    let next = format_loop fuel res cs args (syscall_putc c p) in
    if c == 0 then some p else if c == b'%' then directive_next else next

-- Before the loop the global `j` is set to 0.
unfoldable pub usr_kprintf : ℕ → (ℕ → ℕ) → List ℕ → List ℕ → Printer → Option Printer
unfolding format_loop
usr_kprintf fuel res str args p = format_loop fuel res str args (record p { j = 0 })

unfoldable pub print_line : List ℕ → Printer → Option Printer
unfolding syscall_putc
print_line [] p = none
print_line (c ∷ str) p =
    let rest = print_line str (syscall_putc c p) in if c == 0 then some p else rest
