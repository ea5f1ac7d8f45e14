-- ===== src/Kutil/Remove.antt =====
-- `arr_remove_element_u32` of src/util/kutil.c. An access outside an array is a fault: `none`.
use unagi_os.Common.{
  ℕ, zero, suc, ◌+◌, Bool, false, ◌==◌, ltb, if◌then◌else◌, Option, some, ◌>>=◌, List, get_elem?,
  set,
}

-- `di < index_to_remove_size && oldi == index_to_remove[di]`
unfoldable pub is_removed : List ℕ → ℕ → ℕ → ℕ → Option Bool
is_removed idx size di oldi =
    let read = get_elem? idx di >>= λ i. some (oldi == i) in
    if ltb di size then read else some false

-- the loop with `n` elements left, at `oldi`, `di` and `newi`
unfoldable pub remove_loop : List ℕ → ℕ → ℕ → ℕ → ℕ → ℕ → List ℕ → Option (List ℕ)
remove_loop idx size zero oldi di newi arr = some arr
remove_loop idx size (suc n) oldi di newi arr = do
  removed ← is_removed idx size di oldi
  let skipped = remove_loop idx size n (oldi + 1) (di + 1) newi arr
  let kept =
      get_elem? arr oldi >>= λ x. remove_loop idx size n (oldi + 1) di (newi + 1) (set arr newi x)
  if removed then skipped else kept

-- `arr_remove_element_u32`
unfoldable pub arr_remove_element_u32 : List ℕ → List ℕ → ℕ → ℕ → Option (List ℕ)
arr_remove_element_u32 arr idx arr_size idx_size = remove_loop idx idx_size arr_size 0 0 0 arr
