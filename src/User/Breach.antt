-- ===== src/User/Breach.antt =====
-- user/user_thread_routine.c: the accesses that are meant to be refused. What a thread does is a list
-- of actions; `peek` is what a load of a byte yields.
use armv7_os.Prelude.{ℕ, String, List, [], ◌∷◌, ◌==◌, if◌then◌else◌}

-- The functions that `create_security_breach` starts as threads.
pub data Program : Type 0 where
  read_null_pointer read_unordered_address : Program

-- `say format c`, a system call, a load, a jump, and a recursion without end.
pub data Action : Type 0 where
  say : String → ℕ → Action
  exec : Program → Action
  load : ℕ → Action
  jump : ℕ → Action
  overflow_stack : Action

unfoldable pub run_program : (ℕ → ℕ) → Program → List Action
run_program peek read_null_pointer = load 0 ∷ say "not supposed to read anything %c\n" (peek 0) ∷ []
run_program peek read_unordered_address =
    load 0xFFFF_FFF1 ∷ say "not supposed to read anything %c\n" (peek 0xFFFF_FFF1) ∷ []

unfoldable pub create_security_breach : (ℕ → ℕ) → ℕ → List Action
create_security_breach peek c =
    if c == b'n'
    then say "%c pressed. initiate Zugriff auf Null-Pointer\n" c
      ∷ exec read_null_pointer
      ∷ load 0
      ∷ say "not supposed to read anything %c\n" (peek 0)
      ∷ []
    else if c == b'p'
    then say "%c pressed. initiate Sprung auf Null-Pointer\n" c ∷ jump 0 ∷ []
    else if c == b'd'
    then say "%c pressed. initiate lesender Zugriff auf Kernel-Daten\n" c ∷ []
    else if c == b'k'
    then say "%c pressed. initiate lesender Zugriff auf Kernel-Code\n" c ∷ []
    else if c == b'K'
    then say "%c pressed. initiate lesender Zugriff auf Kernel-Stack\n" c ∷ []
    else if c == b'g'
    then say "%c pressed. initiate lesender Zugriff auf Peripherie-Gerät\n" c ∷ []
    else if c == b'c'
    then say "%c pressed. initiate schreibender Zugriff auf eigenen Code\n" c ∷ []
    else if c == b's'
    then say "%c pressed. initiate stackOverFlow\n" c ∷ overflow_stack ∷ []
    else if c == b'u'
    then say "%c pressed. initiate lesender Zugriff auf nicht zugeordnete Adresse\n" c
      ∷ exec read_unordered_address
      ∷ []
    else if c == b'x'
    then say "%c pressed. Sprung auf eigene Daten oder Stack\n" c ∷ []
    else []
