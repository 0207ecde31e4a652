-- ===== src/Print/Render.antt =====
-- The loop of `usr_kprintf` over a format.
use armv7_os.Prelude.{
  length, ℕ, zero, suc, ◌-◌, ◌<◌, ◌≡◌, refl, ap, ◌∙◌, false, some, List, [], ◌∷◌, ◌++◌, ◌==◌,
  >>=-eq-some, arith, if◌then◌else◌, ◌>>=◌,
}
use armv7_os.Print.Defs.{Printer, syscall_putc}
use mathlib.Core.List.{append_assoc, append-nil}
use armv7_os.Print.Kprintf.{
  is_digit, shift_in, width_loop, switch_on, directive, format_loop, usr_kprintf,
}
use armv7_os.Print.Format.{
  Conv, chr, Piece, lit, conv, letter, encode, AllDigits, AllValid, arg_text, render,
}
use armv7_os.Print.Convert.{convert-arg_text}

module _ (res : ℕ → ℕ) where
  width_passed :
      (ds : List ℕ) (c : ℕ) (rest : List ℕ) (p : Printer)
      → AllDigits ds
      → is_digit c ≡ false
      → (p' : Printer) × (width_loop (ds ++ (c ∷ rest)) p ≡ (c ∷ rest, p')) × (p'.out ≡ p.out)
  unfolding width_loop
  width_passed [] c rest p digits other = (p, rw other refl, refl)
  width_passed (d ∷ ds) c rest p digits other =
      let (p', run, same) =
        width_passed ds c rest (record p { offset = shift_in p.offset (d - 48) }) digits.1 other in
      (p', rw (digits.0, run) refl, same)

  letter-is_digit : (k : Conv) → is_digit (letter k) ≡ false
  unfolding is_digit
  letter-is_digit chr = refl
  letter-is_digit k = refl

  -- A width only sets the globals.
  directive-switch :
      (ds : List ℕ) (k : Conv) (rest args : List ℕ) (p : Printer)
      → AllDigits ds
      → (p' : Printer) × (directive res (ds ++ (letter k ∷ rest)) args p
          ≡ switch_on res (letter k ∷ rest) args p')
        × (p'.out ≡ p.out)
  directive-switch [] k rest args p digits =
      (p, (unfold directive in rw (letter-is_digit k) refl), refl)
  directive-switch (d ∷ ds) k rest args p digits =
      let p₀ : Printer = if d == b'0' then record p { zeros = 1 } else p in
      let (p', run, same) = width_passed (d ∷ ds) (letter k) rest p₀ digits (letter-is_digit k) in
      let enters : directive res (d ∷ (ds ++ (letter k ∷ rest))) args p
          ≡ switch_on res (width_loop (d ∷ (ds ++ (letter k ∷ rest))) p₀).0 args
              (width_loop (d ∷ (ds ++ (letter k ∷ rest))) p₀).1 =
        (unfold directive in rw digits.0 refl) in
      (
        p',
        enters ∙ ap (λ (r : List ℕ × Printer). switch_on res r.0 args r.1) run,
        same ∙ ground arith,
      )

  directive-conv :
      (ds : List ℕ) (k : Conv) (rest args own args' : List ℕ) (p : Printer)
      → AllDigits ds
      → arg_text k args ≡ some (own, args')
      → (p' : Printer) × (directive res (ds ++ (letter k ∷ rest)) args p ≡ some (rest, args', p'))
        × (p'.out ≡ p.out ++ own)
  directive-conv ds k rest args own args' p digits is =
      let (p₁, run₁, same) = directive-switch ds k rest args p digits in
      let (p₂, run₂, out) = convert-arg_text res k args own args' p₁ is in
      (p₂, run₁ ∙ (unfold switch_on in rw run₂ refl), out ∙ ap (λ o. o ++ own) same)

  format_loop-render :
      (ps : List Piece) (fuel : ℕ) (rest args text : List ℕ) (p : Printer)
      → AllValid ps
      → render ps args ≡ some text
      → length ps < fuel
      → (p' : Printer) × (format_loop fuel res (encode ps (0 ∷ rest)) args p ≡ some p')
        × (p'.out ≡ p.out ++ text)
  unfolding format_loop
  format_loop-render ps zero rest args text p valid is enough = absurd (omega arith)
  format_loop-render [] (suc fuel) rest args text p valid is enough =
      (p, refl, ground (arith, append-nil p.out))
  format_loop-render (lit c ∷ ps) (suc fuel) rest args text p valid is enough =
      let (after, is_after, same) = >>=-eq-some (render ps args) (λ text. some (c ∷ text)) is in
      let (p', run, out) =
        format_loop-render ps fuel rest args after (syscall_putc c p) valid.2 is_after
          (omega arith) in
      let plain : (c == 0 ≡ false) × (c == b'%' ≡ false) = ground arith in
      (
        p',
        rw (plain.0, plain.1) run,
        out ∙ (unfold syscall_putc in append_assoc p.out (c ∷ []) after) ∙ ground (arith, same),
      )
  format_loop-render (conv ds k ∷ ps) (suc fuel) rest args text p valid is enough =
      let ((own, args'), is_own, is_rest) =
        >>=-eq-some (arg_text k args) (λ (own, args). render ps args >>= λ text. some (own ++ text))
          is in
      let (after, is_after, same) =
        >>=-eq-some (render ps args') (λ text. some (own ++ text)) is_rest in
      let (p₁, run₁, out₁) =
        directive-conv ds k (encode ps (0 ∷ rest)) args own args' p valid.0 is_own in
      let (p', run, out) =
        format_loop-render ps fuel rest args' after p₁ valid.1 is_after (omega arith) in
      (
        p',
        rw (run₁) run,
        out ∙ ap (λ o. o ++ after) out₁ ∙ append_assoc p.out own after ∙ ground (arith, same),
      )

-- For every format of characters and conversions, with or without field widths, and all arguments for
-- which the pieces have a text, that is enough of them, words, and not the least integer for an `i`:
-- `usr_kprintf` appends exactly that text to the output. The fuel has to exceed the number of pieces,
-- and what lies behind the NUL is not read.
pub usr_kprintf-render :
    (res : ℕ → ℕ) (ps : List Piece) (fuel : ℕ) (rest args text : List ℕ) (p : Printer)
    → AllValid ps
    → render ps args ≡ some text
    → length ps < fuel
    → (p' : Printer) × (usr_kprintf fuel res (encode ps (0 ∷ rest)) args p ≡ some p')
      × (p'.out ≡ p.out ++ text)
unfolding usr_kprintf
usr_kprintf-render res ps fuel rest args text p valid is enough =
    format_loop-render res ps fuel rest args text (record p { j = 0 }) valid is enough
