-- ===== src/Print/Digits.antt =====
-- Numerals, and the text that the conversions of user/user_kprintf.c print.
use armv7_os.Prelude.{
  ℕ, zero, suc, ◌+◌, ◌-◌, ◌*◌, ◌/◌, ◌%◌, ◌^◌, ◌≤◌, ◌<◌, ◌≡◌, refl, sym, ap, ◌∙◌, Bool, some, none,
  Option, Option-cases, ◌>>=◌, ◌&&◌, List, [], ◌∷◌, ◌++◌, ltb, arith, inl, inr, Bool-cases, within,
  for_loop-modify, update, if◌then◌else◌,
}
use mathlib.Core.List.{append_assoc, append-nil}
use mathlib.Core.Path.{◌≡⟨◌⟩◌, ◌∎}
use armv7_os.Print.Defs.{
  Printer, buff_size, hex_char, digit_loop, put_down, usr_memset, print_digits, syscall_putc,
  usr_unusr_int_to_str, hex_prefix,
}

-- The digits of `n`, the highest first, `count` of them.
unfoldable pub numeral : ℕ → ℕ → ℕ → List ℕ
numeral base zero n = []
numeral base (suc count) n = numeral base count (n / base) ++ (hex_char (n % base) ∷ [])

-- The digits of a numeral, 0 to 9 and a to f.
abbrev pub digit_name : ℕ → ℕ
digit_name d = if ltb d 10 then 48 + d else 87 + d

hex_char-digit_name : (d : ℕ) → hex_char d ≡ digit_name d
unfolding hex_char
hex_char-digit_name d = ground arith

-- A numeral with no leading zero, of at most `fuel` digits.
unfoldable pub to_text : ℕ → ℕ → ℕ → List ℕ
to_text zero base n = []
to_text (suc fuel) base n =
    let rest = to_text fuel base (n / base) in
    if ltb 0 (n / base) then rest ++ (digit_name (n % base) ∷ []) else digit_name (n % base) ∷ []

-- Reading a numeral from the left; a character that is no digit of the base is refused.
abbrev pub digit_value : ℕ → ℕ → Option ℕ
digit_value base c =
    if within 48 58 c && ltb (c - 48) base
    then some (c - 48)
    else if within 97 103 c && ltb (c - 87) base
    then some (c - 87)
    else none

abbrev pub parse : ℕ → List ℕ → ℕ → Option ℕ
parse base [] v = some v
parse base (c ∷ cs) v = digit_value base c >>= λ d. parse base cs (v * base + d)

parse-snoc :
    (base : ℕ) (cs : List ℕ) (c v : ℕ)
    → parse base (cs ++ (c ∷ [])) v
      ≡ (parse base cs v >>= λ x. digit_value base c >>= λ d. some (x * base + d))
parse-snoc base [] c v = refl
parse-snoc base (e ∷ cs) c v = elim (Option-cases (digit_value base e)) [
  | inl refused ↦ rw refused refl
  | inr (d, is) ↦ rw is (parse-snoc base cs c (v * base + d))
]

digit_value-hex_char : (base d : ℕ) → d < 16 → d < base → digit_value base (hex_char d) ≡ some d
unfolding hex_char
digit_value-hex_char base d small lt = ground arith

-- `res` holds the `count` digits of `n` from place `i` on, the lowest first.
abbrev Digits : ℕ → (ℕ → ℕ) → ℕ → ℕ → ℕ → Type 0
Digits base res i zero n = n ≡ 0
Digits base res i (suc count) n =
    (res i ≡ hex_char (n % base)) × Digits base res (i + 1) count (n / base)

add_zero : (i : ℕ) → i + 0 ≡ i
add_zero i = omega arith

count_up_lem : (i count : ℕ) → (i + suc count ≡ i + 1 + count) × (i + 1 ≡ suc i)
count_up_lem i count = (omega arith, omega arith)

Digits-put_down :
    (base count i n : ℕ) (res : ℕ → ℕ) (p : Printer)
    → Digits base res i count n
    → put_down (i + count) res p ≡ put_down i res (record p { out = p.out ++ numeral base count n })
unfolding put_down numeral syscall_putc
Digits-put_down base zero i n res p digits =
    put_down (i + 0) res p
    ≡⟨ ap (λ x. put_down x res p) (add_zero i) ⟩ put_down i res p
    ≡⟨ ap (λ o. put_down i res (record p { out = o })) (sym (append-nil p.out)) ⟩
      put_down i res (record p { out = p.out ++ [] }) ∎
Digits-put_down base (suc count) i n res p digits =
    put_down (i + suc count) res p
    ≡⟨ ap (λ x. put_down x res p) (count_up_lem i count).0 ⟩ put_down (i + 1 + count) res p
    ≡⟨ Digits-put_down base count (i + 1) (n / base) res p digits.1 ⟩
      put_down (i + 1) res (record p { out = p.out ++ numeral base count (n / base) })
    ≡⟨ ap (λ x. put_down x res (record p { out = p.out ++ numeral base count (n / base) }))
        (count_up_lem i count).1 ⟩
      put_down (suc i) res (record p { out = p.out ++ numeral base count (n / base) })
    ≡⟨ ap (λ o. put_down i res (record p { out = o }))
        (append_assoc p.out (numeral base count (n / base)) (res i ∷ [])
          ∙ ap (λ c. p.out ++ (numeral base count (n / base) ++ (c ∷ []))) digits.0) ⟩
      put_down i res (record p { out = p.out ++ numeral base (suc count) n }) ∎

module _ (base : ℕ) (halves : (m : ℕ) → m / base * 2 ≤ m)
    (splits : (m : ℕ) → m / base * base + m % base ≡ m)
    (small : (m : ℕ) → (m % base < 16) × (m % base < base)) where
  parse-numeral :
      (count i n : ℕ) (res : ℕ → ℕ)
      → Digits base res i count n
      → parse base (numeral base count n) 0 ≡ some n
  unfolding numeral
  parse-numeral zero i n res digits = ap some (sym digits)
  parse-numeral (suc count) i n res digits =
      rw
        (
          parse-snoc base (numeral base count (n / base)) (hex_char (n % base)) 0,
          parse-numeral count (i + 1) (n / base) res digits.1,
          digit_value-hex_char base (n % base) (small n).0 (small n).1,
        )
        (ap some (splits n))

  digit_loop-Digits :
      (fuel n i : ℕ) (res : ℕ → ℕ)
      → n < 2 ^ suc fuel
      → i + fuel < buff_size
      → (count : ℕ) × (res' : ℕ → ℕ) × (digit_loop (suc fuel) base n i res
          ≡ some (i + suc count, res'))
        × (count ≤ fuel)
        × ((x : ℕ) → x < i → res' x ≡ res x)
        × Digits base res' i (suc count) n
        × (numeral base (suc count) n ≡ to_text (suc fuel) base n)
  unfolding digit_loop numeral to_text
  digit_loop-Digits zero n i res small_n fits = (
    0,
    update res i (hex_char (n % base)),
    ground (arith, halves n),
    omega arith,
    λ x lt. ground arith,
    (ground arith, omega (arith, halves n)),
    ground (arith, halves n, hex_char-digit_name (n % base)),
  )
  digit_loop-Digits (suc fuel) n i res small_n fits = elim (Bool-cases (ltb 0 (n / base))) [
    | inl more ↦
        let (count, res', run, le, kept, digits, text) =
          digit_loop-Digits fuel (n / base) (i + 1) (update res i (hex_char (n % base)))
            (omega (arith, halves n)) (omega arith) in
        (
          suc count,
          res',
          ground (arith, more, run),
          omega arith,
          (λ x lt. kept x (omega arith) ∙ ground arith),
          ((kept i (omega arith) ∙ ground arith), digits),
          rw (more, text, hex_char-digit_name (n % base)) refl,
        )
    | inr last ↦ (
      0,
      update res i (hex_char (n % base)),
      ground (arith, last),
      omega arith,
      (λ x lt. ground arith),
      (ground arith, ground (arith, last)),
      rw (last, hex_char-digit_name (n % base)) refl,
    )
  ]

  pub print_digits-to_text :
      (res : ℕ → ℕ) (n : ℕ) (before : Printer → Printer) (p : Printer)
      → n < 2 ^ 32
      → (print_digits res base n before p
          ≡ some (record (before p) { out = (before p).out ++ to_text 32 base n }))
        × (parse base (to_text 32 base n) 0 ≡ some n)
  unfolding print_digits usr_memset
  print_digits-to_text res n before p lt =
      let cleared : ℕ → ℕ = λ j. if within 0 (0 + buff_size) j then 0 else res j in
      let (count, res', run, le, kept, digits, text) =
        digit_loop-Digits 31 n 0 cleared lt (omega arith) in
      rw (← text) (
        rw (for_loop-modify buff_size (λ i _. 0) 512 0 res (omega arith), run)
            (ap some (Digits-put_down base (suc count) 0 n res' (before p) digits)),
        parse-numeral (suc count) 0 n res' digits,
      )

  -- The digits of a word are read back as it.
  print_digits_run :
      (res : ℕ → ℕ) (n : ℕ) (before : Printer → Printer) (p : Printer)
      → n < 2 ^ 32
      → (text : List ℕ) × (print_digits res base n before p
          ≡ some (record (before p) { out = (before p).out ++ text }))
        × (parse base text 0 ≡ some n)
  print_digits_run res n before p lt =
      let (run, value) = print_digits-to_text res n before p lt in (to_text 32 base n, run, value)

-- For every word `usr_unusr_int_to_str` appends a text to the output, and nothing else changes; read
-- as a decimal numeral, the text is the word.
pub usr_unusr_int_to_str-parse :
    (res : ℕ → ℕ) (n : ℕ) (p : Printer)
    → n < 2 ^ 32
    → (text : List ℕ) × (usr_unusr_int_to_str res n p ≡ some (record p { out = p.out ++ text }))
      × (parse 10 text 0 ≡ some n)
unfolding usr_unusr_int_to_str
usr_unusr_int_to_str-parse res n p lt =
    print_digits_run 10 (λ m. omega arith) (λ m. omega arith) (λ m. omega arith) res n (λ p. p) p lt

pub hex_prefix_lem :
    (pointer : Bool) (p : Printer)
    → (hex_prefix pointer p).out
      ≡ (if pointer then (p.out ++ (b'0' ∷ [])) ++ (b'x' ∷ []) else p.out)
unfolding hex_prefix syscall_putc
hex_prefix_lem pointer p = ground arith
