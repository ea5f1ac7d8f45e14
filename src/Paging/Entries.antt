-- ===== src/Paging/Entries.antt =====
-- The words and the indexes of src/memory/paging/paging.c.
use unagi_os.Common.{ℕ, ◌+◌, ◌-◌, ◌*◌, ◌%◌, ◌^◌, ◌<◌, ◌≡◌, arith}
use unagi_os.Paging.{
  DirectoryEntry, TableEntry, page_size, total_entries, pd_entry_set_flags, pd_entry_to_val,
  pd_table_set, align_addr_to_lower, vaddress_to_page_indexes,
}

-- `pd_entry_to_val` gives back the low 12 bits of the flags that `pd_entry_set_flags` has set, under
-- the address that the entry had.
pub set_flags_to_val :
    (e : DirectoryEntry) (flags : ℕ)
    → pd_entry_to_val (pd_entry_set_flags e flags) ≡ e.higher_address * 2 ^ 12 + flags % 2 ^ 12
unfolding pd_entry_to_val pd_entry_set_flags
set_flags_to_val e flags = omega arith

-- the word that the processor reads from an entry of a page table: the fields from bit 0 on
abbrev pub table_word : TableEntry → ℕ
table_word e =
    e.p
    + 2
      * (e.r_w
          + 2
            * (e.u_s
                + 2
                  * (e.pwt
                      + 2
                        * (e.pcd
                            + 2
                              * (e.a
                                  + 2
                                    * (e.d
                                        + 2
                                          * (e.pat
                                              + 2
                                                * (e.g + 2 * (e.avl + 8 * e.higher_address)))))))))

-- `pd_table_set` splits a word of 32 bits into the fields that make it up.
pub pd_table_set_word : (word : ℕ) → word < 2 ^ 32 → table_word (pd_table_set word) ≡ word
unfolding pd_table_set
pd_table_set_word word h = omega arith

align_addr_to_lower_lem : (v : ℕ) → v < 2 ^ 32 → align_addr_to_lower v ≡ v - v % page_size
unfolding align_addr_to_lower
align_addr_to_lower_lem v h = ground arith

-- The two indexes of an address of 32 bits are below 1024, and with the offset in the page they make
-- up the address.
pub vaddress_to_page_indexes_lem :
    (v : ℕ)
    → v < 2 ^ 32
    → ((vaddress_to_page_indexes v).0 < total_entries)
      × ((vaddress_to_page_indexes v).1 < total_entries)
      × ((vaddress_to_page_indexes v).0 * 2 ^ 22
            + (vaddress_to_page_indexes v).1 * 2 ^ 12
            + v % page_size
          ≡ v)
unfolding vaddress_to_page_indexes
vaddress_to_page_indexes_lem v h =
    rw (align_addr_to_lower_lem v h) (omega arith, omega arith, omega arith)
