-- ===== src/Mmu/Tlb.antt =====
-- memory/mmu.c on a processor with a TLB: `map_userdata_to` invalidates it before it writes the
-- table, and the hardware may fetch entries of the table at any time, also between the two.
use armv7_os.Prelude.{
  ℕ, ◌+◌, ◌≡◌, ◌≢◌, refl, Option, some, none, List, [], ◌∷◌, arith, update, read, write, ◌>>=◌, ◌<◌,
  ltb, lt→ltb, true,
}
use armv7_os.Mmu.Defs.{Mmu, map_userdata_to, l1_table_size, user_data, user_heap}

-- The table, and for each section the entry that the TLB holds, if it does.
pub record Core : Type 0 where
  pub mmu : Mmu
  pub tlb : ℕ → Option ℕ

-- The entry by which an access of a section is translated.
abbrev pub held_or : Option ℕ → ℕ → ℕ
held_or none v = v
held_or (some e) v = e

abbrev pub translated : ℕ → Core → ℕ
translated s c = held_or (c.tlb s) (c.mmu.l1_table s)

-- The hardware fetches the entry of a section, or drops it.
pub data Fetch : Type 0 where
  load : ℕ → Fetch
  drop : ℕ → Fetch

abbrev pub fetch : Fetch → Core → Core
fetch (load s) c = record c { tlb = update c.tlb s (some (translated s c)) }
fetch (drop s) c = record c { tlb = update c.tlb s none }

abbrev pub fetch_all : List Fetch → Core → Core
fetch_all [] c = c
fetch_all (f ∷ fs) c = fetch_all fs (fetch f c)

-- `mcr p15, 0, r0, c8, c7, 0`: the whole TLB is invalidated.
unfoldable pub invalidate_tlb : Core → Core
invalidate_tlb c = record c { tlb = λ s. none }

abbrev pub write_entry : ℕ → ℕ → Core → Option Core
write_entry i v c = do
  t ← write l1_table_size c.mmu.l1_table i v
  let m = c.mmu
  some (record c { mmu = record m { l1_table = t } })

-- `map_userdata_to`, where the hardware fetches `before` the first write and `between` the writes.
unfoldable pub remap : (before between : List Fetch) → ℕ → Core → Option Core
unfolding invalidate_tlb
remap before between new c = do
  let c = fetch_all before (invalidate_tlb c)
  data_entry ← read l1_table_size c.mmu.l1_table new
  c ← write_entry user_data data_entry c
  let c = fetch_all between c
  heap_entry ← read l1_table_size c.mmu.l1_table (new + 16)
  write_entry user_heap heap_entry c

-- What the TLB holds is what the table says.
abbrev pub IsCoherent : Core → Type 0
IsCoherent c = (s : ℕ) → translated s c ≡ c.mmu.l1_table s

-- No entry of the section `i` is loaded.
abbrev pub Avoids : ℕ → List Fetch → Type 0
Avoids i [] = Unit {0}
Avoids i (load s ∷ fs) = (s ≢ i) × Avoids i fs
Avoids i (drop s ∷ fs) = Avoids i fs

fetch_all-mmu : (fs : List Fetch) (c : Core) → (fetch_all fs c).mmu ≡ c.mmu
fetch_all-mmu [] c = refl
fetch_all-mmu (load s ∷ fs) c = fetch_all-mmu fs (fetch (load s) c)
fetch_all-mmu (drop s ∷ fs) c = fetch_all-mmu fs (fetch (drop s) c)

fetch_all-IsCoherent : (fs : List Fetch) (c : Core) → IsCoherent c → IsCoherent (fetch_all fs c)
fetch_all-IsCoherent [] c coherent = coherent
fetch_all-IsCoherent (load s ∷ fs) c coherent =
    fetch_all-IsCoherent fs (fetch (load s) c) (λ i. ground (arith, coherent i, coherent s))
fetch_all-IsCoherent (drop s ∷ fs) c coherent =
    fetch_all-IsCoherent fs (fetch (drop s) c) (λ i. ground (arith, coherent i))

fetch_all-Avoids :
    (i : ℕ) (fs : List Fetch) (c : Core)
    → Avoids i fs
    → c.tlb i ≡ none
    → (fetch_all fs c).tlb i ≡ none
fetch_all-Avoids i [] c avoids empty = empty
fetch_all-Avoids i (load s ∷ fs) c avoids empty =
    fetch_all-Avoids i fs (fetch (load s) c) avoids.1 (ground (arith, avoids.0, empty))
fetch_all-Avoids i (drop s ∷ fs) c avoids empty =
    fetch_all-Avoids i fs (fetch (drop s) c) avoids (ground (arith, empty))

-- A write of an entry that the TLB does not hold.
abbrev written : ℕ → ℕ → Core → Core
written i v c = let m = c.mmu in record c { mmu = record m { l1_table = update m.l1_table i v } }

written-IsCoherent :
    (i v : ℕ) (c : Core) → IsCoherent c → c.tlb i ≡ none → IsCoherent (written i v c)
written-IsCoherent i v c coherent empty s = ground (arith, coherent s, empty)

write_entry_run :
    (i v : ℕ) (c : Core) → i < l1_table_size → write_entry i v c ≡ some (written i v c)
write_entry_run i v c lt = ground arith

-- Where the hardware fetches neither section before the first write, nor the section of the user heap
-- between the writes: `map_userdata_to` of a section of the table below 4080 succeeds, with the same
-- table as without a TLB, and every translation after it is by that table, whatever the TLB held before.
pub remap-IsCoherent :
    (before between : List Fetch) (new : ℕ) (c : Core)
    → new + 16 < l1_table_size
    → Avoids user_data before
    → Avoids user_heap before
    → Avoids user_heap between
    → (c' : Core) × (remap before between new c ≡ some c')
      × (map_userdata_to new c.mmu ≡ some c'.mmu)
      × IsCoherent c'
unfolding remap map_userdata_to
remap-IsCoherent before between new c lt no_data no_heap no_heap_between =
    let data_in_range : ltb new l1_table_size ≡ true = lt→ltb new l1_table_size (omega arith) in
    let heap_in_range : ltb (new + 16) l1_table_size ≡ true = lt→ltb (new + 16) l1_table_size lt in
    let c₁ = fetch_all before (invalidate_tlb c) in
    let coherent₁ : IsCoherent c₁ = fetch_all-IsCoherent before (invalidate_tlb c) (λ s. refl) in
    let c₂ = written user_data (c₁.mmu.l1_table new) c₁ in
    let coherent₂ : IsCoherent c₂ =
      written-IsCoherent user_data (c₁.mmu.l1_table new) c₁ coherent₁
        (fetch_all-Avoids user_data before (invalidate_tlb c) no_data refl) in
    let c₃ = fetch_all between c₂ in
    let coherent₃ : IsCoherent c₃ = fetch_all-IsCoherent between c₂ coherent₂ in
    let heap_empty : c₃.tlb user_heap ≡ none =
      fetch_all-Avoids user_heap between c₂ no_heap_between
        (fetch_all-Avoids user_heap before (invalidate_tlb c) no_heap refl) in
    let c₄ = written user_heap (c₃.mmu.l1_table (new + 16)) c₃ in
    (
      c₄,
      rw (data_in_range, heap_in_range) refl,
      rw (fetch_all-mmu between c₂, fetch_all-mmu before (invalidate_tlb c))
          (rw (data_in_range, heap_in_range) refl),
      written-IsCoherent user_heap (c₃.mmu.l1_table (new + 16)) c₃ coherent₃ heap_empty,
    )

-- Where the hardware fetches the section of the user data once, after the TLB is invalidated and
-- before the first write: `map_userdata_to` succeeds with the new entry in the table, and accesses
-- of that section are still translated by the old one.
pub remap-stale :
    (new : ℕ) (c : Core)
    → new + 16 < l1_table_size
    → (c' : Core) × (remap (load user_data ∷ []) [] new c ≡ some c')
      × (c'.mmu.l1_table user_data ≡ c.mmu.l1_table new)
      × (translated user_data c' ≡ c.mmu.l1_table user_data)
unfolding remap
remap-stale new c lt =
    let data_in_range : ltb new l1_table_size ≡ true = lt→ltb new l1_table_size (omega arith) in
    let heap_in_range : ltb (new + 16) l1_table_size ≡ true = lt→ltb (new + 16) l1_table_size lt in
    let c₁ = fetch (load user_data) (invalidate_tlb c) in
    let c₂ = written user_data (c₁.mmu.l1_table new) c₁ in
    (
      written user_heap (c₂.mmu.l1_table (new + 16)) c₂,
      rw (data_in_range, heap_in_range) refl,
      refl,
      refl,
    )
