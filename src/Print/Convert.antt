-- ===== src/Print/Convert.antt =====
-- What the conversions of `usr_kprintf` print.
use armv7_os.Prelude.{
  ℕ, ◌-◌, ◌^◌, ◌<◌, ◌≡◌, ◌≢◌, refl, pos, Bool, true, false, Option, some, List, [], ◌∷◌, ◌++◌, ltb,
  Bool-cases, >>=-eq-some, inl, inr, arith,
}
use armv7_os.Print.Defs.{
  Printer, print_digits, hex_prefix, syscall_putc, usr_unusr_int_to_str, usr_int_to_str,
  usr_dec_to_hex_str,
}
use armv7_os.Print.Digits.{to_text, print_digits-to_text, hex_prefix_lem}
use mathlib.Core.List.{append_assoc}
use armv7_os.Print.Kprintf.{convert}
use armv7_os.Print.Format.{
  Conv, chr, hex, int, uns, ptr, percent, letter, text_of, word_text, arg_text,
}

-- `m` succeeds, leaves the arguments `args` and appends `text` to the output.
abbrev pub Prints : Option (List ℕ × Printer) → List ℕ → Printer → List ℕ → Type 0
Prints m args p text = (p' : Printer) × (m ≡ some (args, p')) × (p'.out ≡ p.out ++ text)

module _ (res : ℕ → ℕ) where
  decimal :
      (n : ℕ) (p : Printer)
      → n < 2 ^ 32
      → print_digits res 10 n (λ p. p) p ≡ some (record p { out = p.out ++ to_text 32 10 n })
  decimal n p lt =
      (print_digits-to_text 10 (λ m. omega arith) (λ m. omega arith) (λ m. omega arith) res n
        (λ p. p) p lt).0

  hexadecimal :
      (n : ℕ) (pointer : Bool) (p : Printer)
      → n < 2 ^ 32
      → usr_dec_to_hex_str res n pointer p
        ≡ some (record (hex_prefix pointer p) {
          out = (hex_prefix pointer p).out ++ to_text 32 16 n;
          offset = pos 0;
        })
  unfolding usr_dec_to_hex_str
  hexadecimal n pointer p lt =
      rw
        ((print_digits-to_text 16 (λ m. omega arith) (λ m. omega arith) (λ m. omega arith) res n
          (hex_prefix pointer) p lt).0)
        refl

  convert_arg :
      (k : Conv) (a : ℕ) (args own : List ℕ) (p : Printer)
      → k ≢ percent
      → a < 2 ^ 32
      → text_of k a ≡ some own
      → Prints (convert res (letter k) (a ∷ args) p) args p own
  unfolding convert syscall_putc usr_unusr_int_to_str usr_int_to_str
  convert_arg chr a args own p arg lt is = (_, refl, ground arith)
  convert_arg hex a args own p arg lt is = (
    record (hex_prefix false p) {
      out = (hex_prefix false p).out ++ to_text 32 16 a;
      offset = pos 0;
      zeros = 0;
    },
    rw (hexadecimal a false p lt) refl,
    ground (arith, hex_prefix_lem false p),
  )
  convert_arg int a args own p arg lt is = elim (Bool-cases (ltb (2 ^ 31) a)) [
    | inl negative ↦ (
      record p {
        out = (p.out ++ (b'-' ∷ [])) ++ to_text 32 10 (2 ^ 32 - a);
        offset = pos 0;
        zeros = 0;
      },
      ground (
        arith,
        negative,
        decimal (2 ^ 32 - a) (record p { out = p.out ++ (b'-' ∷ []) }) (ground (arith, negative)),
      ),
      ground (arith, negative, append_assoc p.out (b'-' ∷ []) (to_text 32 10 (2 ^ 32 - a))),
    )
    | inr positive ↦ (
      record p { out = p.out ++ to_text 32 10 a; offset = pos 0; zeros = 0 },
      ground (arith, positive, decimal a p lt),
      ground (arith, positive),
    )
  ]
  convert_arg uns a args own p arg lt is = (
    record p { out = p.out ++ to_text 32 10 a; offset = pos 0; zeros = 0 },
    rw (decimal a p lt) refl,
    ground arith,
  )
  convert_arg ptr a args own p arg lt is = (
    record (hex_prefix true p) {
      out = (hex_prefix true p).out ++ to_text 32 16 a;
      offset = pos 0;
      zeros = 0;
    },
    rw (hexadecimal a true p lt) refl,
    ground (
      arith,
      hex_prefix_lem true p,
      append_assoc (p.out ++ (b'0' ∷ [])) (b'x' ∷ []) (to_text 32 16 a),
      append_assoc p.out (b'0' ∷ []) (b'x' ∷ to_text 32 16 a),
    ),
  )
  convert_arg percent a args own p arg lt is = absurd (arg refl)

  word_arg :
      (k : Conv) (a : ℕ) (args own args' : List ℕ)
      → word_text k a args ≡ some (own, args')
      → (a < 2 ^ 32) × (text_of k a ≡ some own) × (args' ≡ args)
  word_arg k a args own args' is = elim (Bool-cases (ltb a (2 ^ 32))) [
    | inl small ↦
        let (text, is_text, same) =
          >>=-eq-some (text_of k a) (λ own. some (own, args)) (rw small at is) in
        (ground (arith, small), ground (arith, is_text, same), ground (arith, same))
    | inr large ↦ absurd (ground (arith, large, is))
  ]

  convert_word :
      (k : Conv) (a : ℕ) (args own args' : List ℕ) (p : Printer)
      → k ≢ percent
      → word_text k a args ≡ some (own, args')
      → Prints (convert res (letter k) (a ∷ args) p) args' p own
  convert_word k a args own args' p arg is =
      let (small, is_text, same) = word_arg k a args own args' is in
      rw same (convert_arg k a args own p arg small is_text)

  none_left : (k : Conv) {own args' : List ℕ} → k ≢ percent → arg_text k [] ≢ some (own, args')
  none_left percent arg is = arg refl
  none_left k arg is = cc

  pub convert-arg_text :
      (k : Conv) (args own args' : List ℕ) (p : Printer)
      → arg_text k args ≡ some (own, args')
      → Prints (convert res (letter k) args p) args' p own
  convert-arg_text percent args own args' p is =
      (syscall_putc b'%' p, (unfold convert in ground arith), (unfold syscall_putc in ground arith))
  convert-arg_text chr (a ∷ args) own args' p is = convert_word chr a args own args' p (cc) is
  convert-arg_text hex (a ∷ args) own args' p is = convert_word hex a args own args' p (cc) is
  convert-arg_text int (a ∷ args) own args' p is = convert_word int a args own args' p (cc) is
  convert-arg_text uns (a ∷ args) own args' p is = convert_word uns a args own args' p (cc) is
  convert-arg_text ptr (a ∷ args) own args' p is = convert_word ptr a args own args' p (cc) is
  convert-arg_text k [] own args' p is = absurd (none_left k (cc) is)
