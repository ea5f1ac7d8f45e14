-- ===== src/Kutil/Memory.antt =====
-- src/util/kutil.c: the functions that write regions of memory: kstrcpy, memset, kmemset, kmemcpy.
-- Memory gives each address its byte.
use unagi_os.Common.{
  ℕ, zero, suc, ◌+◌, ◌-◌, ◌%◌, ◌^◌, ◌≤◌, ◌<◌, ◌≡◌, refl, ◌≢◌, ◌⊎◌, inl, inr, Bool, true, false,
  ◌&&◌, ◌==◌, ne→==, ==_cases, Bool-cases, ltb, leb, if◌then◌else◌, Option, some, none, arith, ap,
  subst, ◌∙◌,
}

abbrev pub Bytes : Type 0
Bytes = ℕ → ℕ

-- `*p = v`
abbrev pub store : ℕ → ℕ → Bytes → Bytes
store p v m = λ x. if x == p then v else m x

-- the loop of `kmemset`, with `n` turns to go
unfoldable pub set_loop : ℕ → ℕ → ℕ → ℕ → Bytes → Bytes
set_loop zero dst c i m = m
set_loop (suc n) dst c i m = set_loop n dst c (i + 1) (store (dst + i) (c % 2 ^ 8) m)

-- `kmemset`
unfoldable pub kmemset : ℕ → ℕ → ℕ → Bytes → ℕ × Bytes
kmemset ptr c size m = (ptr, set_loop size ptr c 0 m)

-- `memset`
unfoldable pub memset : ℕ → ℕ → ℕ → Bytes → Bytes
memset ptr c size m = (kmemset ptr c size m).1

-- the loop of `kmemcpy`, with `n` turns to go
unfoldable pub copy_loop : ℕ → ℕ → ℕ → ℕ → Bytes → Bytes
copy_loop zero dst src i m = m
copy_loop (suc n) dst src i m = copy_loop n dst src (i + 1) (store (dst + i) (m (src + i)) m)

-- `kmemcpy`
unfoldable pub kmemcpy : ℕ → ℕ → ℕ → Bytes → ℕ × Bytes
kmemcpy dst src size m = (dst, copy_loop size dst src 0 m)

-- `kstrcpy`, with fuel for the turns of its loop
unfoldable pub kstrcpy : ℕ → ℕ → ℕ → Bytes → Option (ℕ × Bytes)
kstrcpy zero dest src m = none
kstrcpy (suc fuel) dest src m =
    let rest = kstrcpy fuel (dest + 1) (src + 1) (store dest (m src) m) in
    if m src == 0 then some (dest, store dest 0 m) else rest

-- Whether `x` is one of `n` addresses from `p` on.
abbrev pub within : ℕ → ℕ → ℕ → Bool
within p n x = leb p x && ltb x (p + n)

set_loop_lem :
    (n dst c i : ℕ) (m : Bytes) (x : ℕ)
    → set_loop n dst c i m x ≡ (if within (dst + i) n x then c % 2 ^ 8 else m x)
unfolding set_loop
set_loop_lem zero dst c i m x = ground arith
set_loop_lem (suc n) dst c i m x =
    set_loop_lem n dst c (i + 1) (store (dst + i) (c % 2 ^ 8) m) x ∙ ground arith

copy_loop_lem :
    (n dst src i : ℕ) (m : Bytes) (x : ℕ)
    → ((dst ≤ src) ⊎ (src + (i + n) ≤ dst))
    → copy_loop n dst src i m x ≡ (if within (dst + i) n x then m (src + (x - dst)) else m x)
unfolding copy_loop
copy_loop_lem zero dst src i m x apart = ground arith
copy_loop_lem (suc n) dst src i m x apart =
    let next : (dst ≤ src) ⊎ (src + (i + 1 + n) ≤ dst) = elim apart [
      | inl h ↦ inl h
      | inr h ↦ inr (omega (arith, h))
    ] in
    let rest = copy_loop_lem n dst src (i + 1) (store (dst + i) (m (src + i)) m) x next in
    elim (==_cases x (dst + i)) [
      | inl e ↦
          let here : src + (x - dst) ≡ src + i = omega (arith, e) in
          rest ∙ rw here (ground (arith, e))
      | inr ne ↦
          let other : within (dst + (i + 1)) n x ≡ true → (src + (x - dst) == dst + i) ≡ false =
            λ h. elim apart [ inl k ↦ ground (arith, h, k) | inr k ↦ ground (arith, h, k) ] in
          elim (Bool-cases (within (dst + (i + 1)) n x)) [
            | inl h ↦ let apart_at = other h in rest ∙ ground (arith, h, ne, apart_at)
            | inr h ↦ rest ∙ ground (arith, h, ne)
          ]
    ]

-- For every address, `kmemset` leaves the byte `c` at the `size` addresses from `ptr` on and no other
-- byte changes; it returns `ptr`.
pub kmemset_lem :
    (ptr c size : ℕ) (m : Bytes)
    → ((kmemset ptr c size m).0 ≡ ptr)
      × ((x : ℕ) → (kmemset ptr c size m).1 x ≡ (if within ptr size x then c % 2 ^ 8 else m x))
unfolding kmemset
kmemset_lem ptr c size m = (refl, λ x. set_loop_lem size ptr c 0 m x ∙ ground arith)

-- Where the `size` bytes at `src` do not reach `dst`, or `dst` is not behind `src`, `kmemcpy` leaves at
-- `dst` the bytes that stood at `src` before, also where the two overlap, and no other byte changes;
-- it returns `dst`.
pub kmemcpy_lem :
    (dst src size : ℕ) (m : Bytes)
    → ((dst ≤ src) ⊎ (src + size ≤ dst))
    → ((kmemcpy dst src size m).0 ≡ dst)
      × ((x : ℕ)
          → (kmemcpy dst src size m).1 x ≡ (if within dst size x then m (src + (x - dst)) else m x))
unfolding kmemcpy
kmemcpy_lem dst src size m apart =
    let apart0 : (dst ≤ src) ⊎ (src + (0 + size) ≤ dst) = elim apart [
      | inl h ↦ inl h
      | inr h ↦ inr (omega (arith, h))
    ] in
    (refl, λ x. copy_loop_lem size dst src 0 m x apart0 ∙ ground arith)

-- A string of `n` bytes stands at `src`.
abbrev pub IsString : Bytes → ℕ → ℕ → Type 0
IsString m src n = ((j : ℕ) → j < n → m (src + j) ≢ 0) × (m (src + n) ≡ 0)

-- the bytes that `kstrcpy` has still to read when it has written the first
unread :
    (n dest src v j : ℕ) (m : Bytes)
    → ((dest ≤ src) ⊎ (src + suc n < dest))
    → j ≤ n
    → store dest v m (src + 1 + j) ≡ m (src + (j + 1))
unread n dest src v j m apart le =
    let e : src + 1 + j ≡ src + (j + 1) = omega arith in
    let other : src + (j + 1) ≢ dest =
      λ h. elim apart [ inl k ↦ omega (arith, h, k) | inr k ↦ omega (arith, h, k, le) ] in
    rw (e, ne→== (src + (j + 1)) dest other) refl

rest_IsString :
    (n dest src v : ℕ) (m : Bytes)
    → ((dest ≤ src) ⊎ (src + suc n < dest))
    → IsString m src (suc n)
    → IsString (store dest v m) (src + 1) n
rest_IsString n dest src v m apart s = (
  λ j lt. rw (unread n dest src v j m apart (omega (arith, lt))) (s.0 (j + 1) (omega (arith, lt))),
  unread n dest src v n m apart (omega arith) ∙ ap (λ k. m (src + k)) (omega arith) ∙ s.1,
)

-- the byte at `x`, after the first and the others
copied_byte :
    (n dest src x : ℕ) (m : Bytes)
    → ((dest ≤ src) ⊎ (src + suc n < dest))
    → let m1 = store dest (m src) m in
      (if within (dest + 1) (n + 1) x then m1 (src + 1 + (x - (dest + 1))) else m1 x)
      ≡ (if within dest (suc n + 1) x then m (src + (x - dest)) else m x)
copied_byte n dest src x m apart = elim (Bool-cases (within (dest + 1) (n + 1) x)) [
  | inl h ↦
      let le : x - (dest + 1) ≤ n = ground (arith, h) in
      let byte = unread n dest src (m src) (x - (dest + 1)) m apart le in
      let j : x - (dest + 1) + 1 ≡ x - dest = ground (arith, h) in
      let whole : within dest (suc n + 1) x ≡ true = ground (arith, h) in
      rw (h, whole) (byte ∙ ap (λ k. m (src + k)) j)
  | inr h ↦ elim (==_cases x dest) [
    | inl e ↦
        let whole : within dest (suc n + 1) x ≡ true = ground (arith, e) in
        let here : src + (x - dest) ≡ src = omega (arith, e) in
        let self : (x == dest) ≡ true = ground (arith, e) in rw (h, whole, here, self) refl
    | inr ne ↦
        let whole : within dest (suc n + 1) x ≡ false = ground (arith, h, ne) in
        rw (h, whole, ne→== x dest ne) refl
  ]
]

-- For a string of `n` bytes at `src` that does not reach `dest`, or a `dest` that is not behind `src`,
-- `kstrcpy` ends after `n` turns of its loop. It leaves at `dest` the string that stood at `src` before,
-- with its final 0, and no other byte changes. It returns the address of the final 0.
pub kstrcpy_lem :
    (fuel n dest src : ℕ) (m : Bytes)
    → IsString m src n
    → ((dest ≤ src) ⊎ (src + n < dest))
    → n < fuel
    → (m' : Bytes) × (kstrcpy fuel dest src m ≡ some (dest + n, m'))
      × ((x : ℕ) → m' x ≡ (if within dest (n + 1) x then m (src + (x - dest)) else m x))
unfolding kstrcpy
kstrcpy_lem zero n dest src m s apart lt = absurd (omega (arith, lt))
kstrcpy_lem (suc fuel) zero dest src m s apart lt =
    let end : m src ≡ 0 = ap m (omega arith) ∙ s.1 in
    let byte : (x : ℕ)
        → store dest 0 m x ≡ (if within dest (0 + 1) x then m (src + (x - dest)) else m x) =
      λ x. elim (==_cases x dest) [
        | inl e ↦
            let here : src + (x - dest) ≡ src = omega (arith, e) in rw here (ground (arith, e, end))
        | inr ne ↦ ground (arith, ne)
      ] in
    let at : dest ≡ dest + 0 = omega arith in
    (store dest 0 m, rw end (ap (λ d. some (d, store dest 0 m)) at), byte)
kstrcpy_lem (suc fuel) (suc n) dest src m s apart lt =
    let more : (m src == 0) ≡ false =
      ne→== (m src) 0 (subst (λ k. m k ≢ 0) (omega arith) (s.0 0 (omega arith))) in
    let m1 = store dest (m src) m in
    let apart1 : (dest + 1 ≤ src + 1) ⊎ (src + 1 + n < dest + 1) = elim apart [
      | inl h ↦ inl (omega (arith, h))
      | inr h ↦ inr (omega (arith, h))
    ] in
    let (m', e, bytes) =
      kstrcpy_lem fuel n (dest + 1) (src + 1) m1 (rest_IsString n dest src (m src) m apart s) apart1
        (omega (arith, lt)) in
    let at : dest + 1 + n ≡ dest + suc n = omega arith in
    (m', rw more (e ∙ ap (λ d. some (d, m')) at), λ x. bytes x ∙ copied_byte n dest src x m apart)
