-- ===== src/User/Start.antt =====
-- user/src/usr_start.c and `anwendung` of user/user_thread.c: what the first user thread does for the
-- keys that it reads, as a list of its prints and system calls.
use armv7_os.Prelude.{ℕ, String, List, [], ◌∷◌, ◌++◌, ◌&&◌, ltb, ◌==◌, if◌then◌else◌}

-- A print with its argument, if it has one, and an EXEC of either thread. The flags are 0, PARENT.
pub data Request : Type 0 where
  print_text : String → Request
  print_key : String → ℕ → Request
  exec_malloc_loop : Request
  exec_user_parent_runner : ℕ → Request

unfoldable pub anwendung : ℕ → List Request
anwendung c =
    if c == b'm'
    then print_text "creating new process with malloc loop\n" ∷ exec_malloc_loop ∷ []
    else print_key "Anwendung: creating process for %c\n" c ∷ exec_user_parent_runner c ∷ []

-- The loop, for the keys that `syscall_getc` returns.
unfoldable pub serve_keys : List ℕ → List Request
unfolding anwendung
serve_keys [] = []
serve_keys (c ∷ keys) = (if ltb 0 c && ltb c 128 then anwendung c else []) ++ serve_keys keys

unfoldable pub start_usr : List ℕ → List Request
unfolding serve_keys
start_usr keys =
    print_text ".\n.\n.... welcome to User Mode ....\n.\n.\n"
    ∷ print_text "press any button to start a normal Aufgabe 6 process \n"
    ∷ print_text "press m to start a malloc process\n"
    ∷ serve_keys keys
