-- ===== src/Print/Strings.antt =====
-- The string functions of user/user_kprintf.c, over a memory of bytes whose addresses do not wrap
-- around.
use armv7_os.Prelude.{
  ℕ, zero, suc, ◌+◌, ◌-◌, ◌≤◌, ◌<◌, ◌≡◌, ◌≢◌, ◌⊎◌, inl, inr, ◌∙◌, ap, arith, Option, some, none,
  ◌>>=◌, ◌==◌, if◌then◌else◌, update, List, [], ◌∷◌, length,
}

-- NULL of user/user_kprintf.c.
abbrev pub null_string : ℕ
null_string = 0xFFFFFFFF

-- The address of the first NUL from `s` on.
unfoldable pub end_loop : ℕ → ℕ → (ℕ → ℕ) → Option ℕ
end_loop zero s memory = none
end_loop (suc fuel) s memory =
    let rest = end_loop fuel (s + 1) memory in if memory s == 0 then some s else rest

unfoldable pub usr_strlen : ℕ → ℕ → (ℕ → ℕ) → Option ℕ
unfolding end_loop
usr_strlen fuel str memory = do s ← end_loop fuel str memory; some (s - str)

-- The loop from round `i` on, with the rounds that are left.
unfoldable pub copy_bytes : ℕ → ℕ → ℕ → ℕ → (ℕ → ℕ) → ℕ → ℕ
copy_bytes zero i dest src memory = memory
copy_bytes (suc rounds) i dest src memory =
    copy_bytes rounds (i + 1) dest src (update memory (dest + i) (memory (src + i)))

unfoldable pub usr_memcpy : ℕ → ℕ → ℕ → (ℕ → ℕ) → ℕ → ℕ
unfolding copy_bytes
usr_memcpy dest src n memory = copy_bytes n 0 dest src memory

-- The loop of `usr_strcpy` and the NUL after it.
unfoldable pub copy_string : ℕ → ℕ → ℕ → (ℕ → ℕ) → Option (ℕ → ℕ)
copy_string zero dest src memory = none
copy_string (suc fuel) dest src memory =
    let rest = copy_string fuel (dest + 1) (src + 1) (update memory dest (memory src)) in
    if memory src == 0 then some (update memory dest 0) else rest

unfoldable pub usr_strcpy : ℕ → ℕ → ℕ → (ℕ → ℕ) → Option (ℕ × (ℕ → ℕ))
unfolding copy_string
usr_strcpy fuel dest src memory =
    if dest == null_string
    then some (null_string, memory)
    else copy_string fuel dest src memory >>= λ memory. some (dest, memory)

-- The text stands at the address, with a NUL behind it.
abbrev pub HoldsText : (ℕ → ℕ) → ℕ → List ℕ → Type 0
HoldsText memory a [] = memory a ≡ 0
HoldsText memory a (c ∷ cs) = (memory a ≡ c) × (c ≢ 0) × HoldsText memory (a + 1) cs

HoldsText-same :
    (memory memory' : ℕ → ℕ) (a : ℕ) (text : List ℕ)
    → ((x : ℕ) → a ≤ x → x ≤ a + length text → memory' x ≡ memory x)
    → HoldsText memory a text
    → HoldsText memory' a text
HoldsText-same memory memory' a [] same h = ground (arith, same a)
HoldsText-same memory memory' a (c ∷ cs) same (at, proper, rest) = (
  same a (omega arith) (ground arith) ∙ at,
  proper,
  HoldsText-same memory memory' (a + 1) cs (λ x low high. same x (omega arith) (ground arith)) rest,
)

end_loop-HoldsText :
    (fuel s : ℕ) (memory : ℕ → ℕ) (text : List ℕ)
    → HoldsText memory s text
    → length text < fuel
    → end_loop fuel s memory ≡ some (s + length text)
unfolding end_loop
end_loop-HoldsText zero s memory text h enough = ground arith
end_loop-HoldsText (suc fuel) s memory [] h enough = ground arith
end_loop-HoldsText (suc fuel) s memory (c ∷ cs) (at, proper, rest) enough =
    ground (arith, end_loop-HoldsText fuel (s + 1) memory cs rest)

-- Outside `count` bytes from `a` on, both memories agree.
abbrev pub SameOutside : ℕ → ℕ → (ℕ → ℕ) → (ℕ → ℕ) → Type 0
SameOutside a count memory memory' = (x : ℕ) → x < a ⊎ a + count ≤ x → memory' x ≡ memory x

copy_string-HoldsText :
    (fuel dest src : ℕ) (memory : ℕ → ℕ) (text : List ℕ)
    → HoldsText memory src text
    → dest ≤ src ⊎ src + length text < dest
    → length text < fuel
    → (memory' : ℕ → ℕ) × (copy_string fuel dest src memory ≡ some memory')
      × HoldsText memory' dest text
      × SameOutside dest (length text + 1) memory memory'
unfolding copy_string
copy_string-HoldsText zero dest src memory text h apart enough = absurd (omega arith)
copy_string-HoldsText (suc fuel) dest src memory [] h apart enough =
    (update memory dest 0, ground (arith, h), ground arith, λ x out. ground arith)
copy_string-HoldsText (suc fuel) dest src memory (c ∷ cs) (at, proper, rest) apart enough =
    let written = update memory dest (memory src) in
    let (memory', run, holds, same) =
      copy_string-HoldsText fuel (dest + 1) (src + 1) written cs
        (HoldsText-same memory written (src + 1) cs (λ x low high. ground arith) rest)
        (elim apart [ inl before ↦ inl (omega arith) | inr behind ↦ inr (ground arith) ])
        (ground arith) in
    (
      memory',
      ground (arith, run),
      (same dest (inl (omega arith)) ∙ ground (arith, at), proper, holds),
      λ x out. ground (arith, same x),
    )

-- A string is copied unless `dest` lies within it, behind its first character: `usr_strcpy` returns `dest`,
-- where the same text stands then with its NUL, no other byte is changed, and `usr_strlen` of the copy
-- is the length of the text.
pub usr_strlen-usr_strcpy :
    (fuel dest src : ℕ) (memory : ℕ → ℕ) (text : List ℕ)
    → HoldsText memory src text
    → dest ≤ src ⊎ src + length text < dest
    → dest ≢ null_string
    → length text < fuel
    → (memory' : ℕ → ℕ) × (usr_strcpy fuel dest src memory ≡ some (dest, memory'))
      × HoldsText memory' dest text
      × SameOutside dest (length text + 1) memory memory'
      × (usr_strlen fuel dest memory' ≡ some (length text))
unfolding usr_strcpy usr_strlen
usr_strlen-usr_strcpy fuel dest src memory text h apart proper enough =
    let (memory', run, holds, same) =
      copy_string-HoldsText fuel dest src memory text h apart enough in
    (
      memory',
      ground (arith, run),
      holds,
      same,
      rw (end_loop-HoldsText fuel dest memory' text holds enough) (ap some (omega arith)),
    )
