-- ===== src/Paging.antt =====
-- src/memory/paging/paging.c and paging.h: the entries of page directories and page tables.
--
-- A bit field is a number below its width's power of 2, and `|` of fields at different bits is
-- written `+`. A page table is named by its address; `Memory` holds the entries of all tables. How
-- `pd_init` fills a new directory is not modelled.
pub mod Entries
pub mod Walk
mod Tests
use unagi_os.Common.{
  ℕ, ◌+◌, ◌*◌, ◌/◌, ◌%◌, ◌^◌, Option, none, some, List, ◌&&◌, ◌==◌, if◌then◌else◌, get_elem?, ◌>>=◌,
}
use unagi_os.Common.Words.{sub32}

-- `PAGE_DIRECTORY_ENTRY_4KB`
pub record DirectoryEntry : Type 0 where
  pub p : ℕ
  pub r_w : ℕ
  pub u_s : ℕ
  pub a : ℕ
  pub pwt : ℕ
  pub pcd : ℕ
  pub avl1 : ℕ
  pub ps : ℕ
  pub avl0 : ℕ
  pub higher_address : ℕ

-- `PAGE_TABLE_ENTRY_4KB`
pub record TableEntry : Type 0 where
  pub p : ℕ
  pub r_w : ℕ
  pub u_s : ℕ
  pub pwt : ℕ
  pub pcd : ℕ
  pub a : ℕ
  pub d : ℕ
  pub pat : ℕ
  pub g : ℕ
  pub avl : ℕ
  pub higher_address : ℕ

-- `PAGE_OS_PAGE_SIZE`, and `PAGE_…_TOTAL_ENTRIES`
abbrev pub page_size : ℕ
page_size = 4096

abbrev pub total_entries : ℕ
total_entries = 1024

-- `pd_entry_set_flags`
unfoldable pub pd_entry_set_flags : DirectoryEntry → ℕ → DirectoryEntry
pd_entry_set_flags e flags = record e {
  avl0 = flags / 2 ^ 8 % 16;
  ps = flags / 2 ^ 7 % 2;
  avl1 = flags / 2 ^ 6 % 2;
  a = flags / 2 ^ 5 % 2;
  pcd = flags / 2 ^ 4 % 2;
  pwt = flags / 2 ^ 3 % 2;
  u_s = flags / 2 ^ 2 % 2;
  r_w = flags / 2 % 2;
  p = flags % 2;
}

-- `pd_entry_to_val`
unfoldable pub pd_entry_to_val : DirectoryEntry → ℕ
pd_entry_to_val e =
    e.higher_address * 2 ^ 12
    + e.avl0 * 2 ^ 8
    + e.ps * 2 ^ 7
    + e.avl1 * 2 ^ 6
    + e.a * 2 ^ 5
    + e.pcd * 2 ^ 4
    + e.pwt * 2 ^ 3
    + e.u_s * 2 ^ 2
    + e.r_w * 2
    + e.p

-- `pd_table_set`, which sets every field
unfoldable pub pd_table_set : ℕ → TableEntry
pd_table_set word = record {
  higher_address = word / 2 ^ 12 % 2 ^ 20;
  avl = word / 2 ^ 9 % 8;
  g = word / 2 ^ 8 % 2;
  pat = word / 2 ^ 7 % 2;
  d = word / 2 ^ 6 % 2;
  a = word / 2 ^ 5 % 2;
  pcd = word / 2 ^ 4 % 2;
  pwt = word / 2 ^ 3 % 2;
  u_s = word / 2 ^ 2 % 2;
  r_w = word / 2 % 2;
  p = word % 2;
}

-- `align_addr_to_lower`
unfoldable pub align_addr_to_lower : ℕ → ℕ
align_addr_to_lower val =
    let residual = val % page_size in if residual == 0 then val else sub32 val residual

-- `vaddress_to_page_indexes`: the directory's index and the table's
unfoldable pub vaddress_to_page_indexes : ℕ → ℕ × ℕ
vaddress_to_page_indexes virtual_address =
    let aligned = align_addr_to_lower virtual_address in
    (aligned / (page_size * total_entries), aligned % (page_size * total_entries) / page_size)

-- the entries of every table, by its address and the index
abbrev pub Memory : Type 0
Memory = ℕ → ℕ → TableEntry

abbrev pub set_entry : ℕ → ℕ → TableEntry → Memory → Memory
set_entry table i e mem = λ t j. if t == table && j == i then e else mem t j

-- `paging_set_page`
unfoldable pub paging_set_page : List DirectoryEntry → ℕ → ℕ → Memory → Option Memory
paging_set_page dir virtual_address word mem = do
  let (dir_index, table_index) = vaddress_to_page_indexes virtual_address
  e ← get_elem? dir dir_index
  let table = e.higher_address * 2 ^ 12 % 2 ^ 32
  some (set_entry table table_index (pd_table_set word) mem)
