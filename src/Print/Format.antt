-- ===== src/Print/Format.antt =====
-- What a format of `usr_kprintf` means, written without its code.
use armv7_os.Prelude.{
  ℕ, ◌-◌, ◌%◌, ◌^◌, ◌≡◌, ◌≢◌, true, Option, none, some, List, [], ◌∷◌, ◌++◌, ltb, ◌==◌,
  if◌then◌else◌, ◌>>=◌,
}
use armv7_os.Print.Digits.{to_text}
use armv7_os.Print.Kprintf.{is_digit}

pub data Conv : Type 0 where
  chr hex int uns ptr percent : Conv

-- A piece of a format: a character, or a conversion with the digits of a field width.
pub data Piece : Type 0 where
  lit : ℕ → Piece
  conv : List ℕ → Conv → Piece

abbrev pub letter : Conv → ℕ
letter chr = b'c'
letter hex = b'x'
letter int = b'i'
letter uns = b'u'
letter ptr = b'p'
letter percent = b'%'

-- The format that the pieces are written as, before the NUL.
abbrev pub encode : List Piece → List ℕ → List ℕ
encode [] rest = rest
encode (lit c ∷ ps) rest = c ∷ encode ps rest
encode (conv ds k ∷ ps) rest = b'%' ∷ (ds ++ (letter k ∷ encode ps rest))

abbrev pub AllDigits : List ℕ → Type 0
AllDigits [] = Unit {0}
AllDigits (d ∷ ds) = (is_digit d ≡ true) × AllDigits ds

abbrev pub AllValid : List Piece → Type 0
AllValid [] = Unit {0}
AllValid (lit c ∷ ps) = (c ≢ 0) × (c ≢ b'%') × AllValid ps
AllValid (conv ds k ∷ ps) = AllDigits ds × AllValid ps

-- The text of an argument. The least integer has none.
abbrev pub text_of : Conv → ℕ → Option (List ℕ)
text_of chr a = some ((a % 2 ^ 8) ∷ [])
text_of hex a = some (to_text 32 16 a)
text_of int a =
    if a == 2 ^ 31
    then none
    else some (if ltb (2 ^ 31) a then b'-' ∷ to_text 32 10 (2 ^ 32 - a) else to_text 32 10 a)
text_of uns a = some (to_text 32 10 a)
text_of ptr a = some (b'0' ∷ b'x' ∷ to_text 32 16 a)
text_of percent a = none

abbrev pub word_text : Conv → ℕ → List ℕ → Option (List ℕ × List ℕ)
word_text k a args = if ltb a (2 ^ 32) then (text_of k a >>= λ own. some (own, args)) else none

-- What a conversion prints, and the arguments after its own, which are words.
abbrev pub arg_text : Conv → List ℕ → Option (List ℕ × List ℕ)
arg_text percent args = some (b'%' ∷ [], args)
arg_text k [] = none
arg_text k (a ∷ args) = word_text k a args

-- The text of the pieces with their arguments. The field widths do not count.
abbrev pub render : List Piece → List ℕ → Option (List ℕ)
render [] args = some []
render (lit c ∷ ps) args = render ps args >>= λ text. some (c ∷ text)
render (conv ds k ∷ ps) args = do
  (own, args) ← arg_text k args
  text ← render ps args
  some (own ++ text)
