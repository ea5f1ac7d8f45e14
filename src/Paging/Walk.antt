-- ===== src/Paging/Walk.antt =====
-- `paging_set_page` of src/memory/paging/paging.c against the walk of the processor.
use unagi_os.Common.{
  ℕ, ◌*◌, ◌/◌, ◌%◌, ◌^◌, ◌<◌, ◌≡◌, refl, ◌≢◌, arith, ==_cases, inl, inr, ◌==◌, ◌&&◌, ==_refl, ne→==,
  if◌then◌else◌, ap, Option, some, none, ◌>>=◌, List, get_elem?, Option-cases, ◌⊎◌, false,
}
use unagi_os.Paging.{
  DirectoryEntry, TableEntry, Memory, pd_table_set, vaddress_to_page_indexes, paging_set_page,
  set_entry,
}
use unagi_os.Paging.Entries.{vaddress_to_page_indexes_lem}

-- the table that the processor reads for the address `v`, and the entry's index in it
abbrev pub table_of : List DirectoryEntry → ℕ → Option ℕ
table_of dir v = get_elem? dir (v / 2 ^ 22) >>= λ e. some (e.higher_address * 2 ^ 12)

abbrev pub index_of : ℕ → ℕ
index_of v = v / 2 ^ 12 % 2 ^ 10

-- The walk for the address `v`: the entry of its page.
abbrev pub walk : List DirectoryEntry → Memory → ℕ → Option TableEntry
walk dir mem v = table_of dir v >>= λ t. some (mem t (index_of v))

module _ (dir : List DirectoryEntry) (mem : Memory) (v word : ℕ) (table : ℕ) (whole : v < 2 ^ 32)
    (present : table_of dir v ≡ some table) (in_range : table < 2 ^ 32) where
  indexes :
      ((vaddress_to_page_indexes v).0 ≡ v / 2 ^ 22) × ((vaddress_to_page_indexes v).1 ≡ index_of v)
  indexes =
      let l = vaddress_to_page_indexes_lem v whole in
      (omega (arith, l.0, l.1, l.2), omega (arith, l.0, l.1, l.2))

  set_value :
      paging_set_page dir v word mem ≡ some (set_entry table (index_of v) (pd_table_set word) mem)
  unfolding paging_set_page
  set_value = elim (Option-cases (get_elem? dir (v / 2 ^ 22))) [
    | inl missing ↦ let gone : table_of dir v ≡ none = rw missing refl in cc (gone, present)
    | inr (d, e) ↦
        let at : table_of dir v ≡ some (d.higher_address * 2 ^ 12) = rw e refl in
        let same : d.higher_address * 2 ^ 12 ≡ table = cc (at, present) in
        let word_table : d.higher_address * 2 ^ 12 % 2 ^ 32 ≡ table = omega (arith, same) in
        rw (indexes.0, indexes.1, e, word_table) refl
  ]

  -- `paging_set_page` of an address whose table is present returns. The processor's walk for every
  -- address of that page then ends at the new entry; for an address of another page, whose table no
  -- other entry of the directory shares with `v`, it ends as before.
  pub paging_set_page_lem :
      (u t : ℕ)
      → table_of dir u ≡ some t
      → (t ≢ table) ⊎ (u / 2 ^ 22 ≡ v / 2 ^ 22)
      → (mem' : Memory) × (paging_set_page dir v word mem ≡ some mem')
        × (walk dir mem' u
            ≡ (if u / 2 ^ 12 == v / 2 ^ 12 then some (pd_table_set word) else walk dir mem u))
  paging_set_page_lem u t e unshared = (
    set_entry table (index_of v) (pd_table_set word) mem,
    set_value,
    elim (==_cases (u / 2 ^ 12) (v / 2 ^ 12)) [
      | inl page ↦
          let entry : u / 2 ^ 22 ≡ v / 2 ^ 22 = omega arith in
          let same : table_of dir u ≡ table_of dir v =
            ap (λ n. get_elem? dir n >>= λ (d : DirectoryEntry). some (d.higher_address * 2 ^ 12))
              entry in
          let at : t ≡ table = cc (e, same, present) in
          let index : index_of u ≡ index_of v = omega arith in
          rw (e, at, index, page, ==_refl table, ==_refl (index_of v), ==_refl (v / 2 ^ 12)) refl
      | inr page ↦
          let apart : (t == table && index_of u == index_of v) ≡ false = elim unshared [
            | inl other ↦ ground (arith, ne→== t table other)
            | inr entry ↦
                let index : index_of u ≢ index_of v = omega arith in
                ground (arith, ne→== (index_of u) (index_of v) index)
          ] in
          rw (e, ne→== (u / 2 ^ 12) (v / 2 ^ 12) page, apart) refl
    ],
  )
