-- ===== src/Endpoint/Pages.antt =====
-- The reads of /dev/mem in crates/daphne-sc-server/src/endpoint.rs and the page that is mapped for them.
use daphne_sc.Prelude.{
  ℕ, zero, suc, ◌+◌, ◌-◌, ◌*◌, ◌/◌, ◌%◌, ◌^◌, ◌<◌, ◌≤◌, ◌≡◌, sym, ap, ap₂, ◌∙◌, bit_and, ok, arith,
}
use daphne_sc.Prelude.Bits.{bit_and_join, bit_and_mask, bit_and-zero}
use native.Mathlib.Nat.{
  zero-add, pow-suc, one-le-pow, div-add-mod', mod-lt, mod-eq_of_lt, lt_of_mul-lt-mul_right,
}
use daphne_sc.Endpoint.{DevMem, read_le_u32, page_base, page_size, read_phys_u32}

pow_split : (p q : ℕ) → 2 ^ (p + q) ≡ 2 ^ q * 2 ^ p
pow_split zero q = omega (arith, ap (λ (t : ℕ). 2 ^ t) (zero-add q))
pow_split (suc p) q =
    let e : suc p + q ≡ suc (p + q) = omega arith in
    rw e (grind (arith, pow_split p q, pow-suc 2 (p + q), pow-suc 2 p))

pred_mul : (n m : ℕ) → 0 < n → (n - 1) * m + m ≡ n * m
pred_mul zero m h = absurd (omega arith)
pred_mul (suc n) m h = let e : suc n - 1 ≡ n = omega arith in rw e (grind arith)

-- The first address of the page.
page_base_lem :
    (p address : ℕ)
    → p ≤ 64
    → address < 2 ^ 64
    → page_base (2 ^ p) address ≡ address / 2 ^ p * 2 ^ p
unfolding page_base
page_base_lem p address le lt =
    let m = 2 ^ p in
    let n = 2 ^ (64 - p) in
    let page : ℕ = address / m in
    let rest : ℕ = address % m in
    let sum : p + (64 - p) ≡ 64 = omega arith in
    let whole : n * m ≡ 2 ^ 64 = sym (pow_split p (64 - p)) ∙ ap (λ (t : ℕ). 2 ^ t) sum in
    let positive : 0 < m = one-le-pow p 2 (omega arith) in
    let some_page : 0 < n = one-le-pow (64 - p) 2 (omega arith) in
    let split : address ≡ page * m + rest = sym (div-add-mod' address m) in
    let fits : page < n = lt_of_mul-lt-mul_right m (omega (arith, split, whole)) in
    let mask : 2 ^ 64 - 1 - (m - 1) ≡ (n - 1) * m + 0 =
      omega (arith, pred_mul n m some_page, whole) in
    let joined = bit_and_join p page (n - 1) rest 0 (mod-lt address positive) positive in
    let high : bit_and page (n - 1) ≡ page = bit_and_mask (64 - p) page ∙ mod-eq_of_lt fits in
    ap₂ bit_and split mask ∙ joined ∙ omega (arith, ap (λ (t : ℕ). t * m) high, bit_and-zero rest)

-- An aligned word does not cross the end of a page.
word_in_page : (p address : ℕ) → 2 ≤ p → address % 4 ≡ 0 → address % 2 ^ p + 3 < 2 ^ p
word_in_page p address above aligned =
    let quarter : ℕ = 2 ^ (p - 2) in
    let page : ℕ = address / 2 ^ p in
    let sum : p - 2 + 2 ≡ p = omega arith in
    let fours : 2 ^ p ≡ 4 * quarter = ap (λ (t : ℕ). 2 ^ t) (sym sum) ∙ pow_split (p - 2) 2 in
    let scaled : page * 2 ^ p ≡ 4 * (page * quarter) =
      ap (λ (t : ℕ). page * t) fours ∙ grind arith in
    let inside = mod-lt address (one-le-pow p 2 (omega arith)) in
    omega (arith, div-add-mod' address (2 ^ p), fours, scaled, inside)

-- /dev/mem as a memory of bytes with pages of `2 ^ p` bytes: a page is mapped at its first address, and
-- the mapping shows the bytes of the page, and beyond it any bytes.
pub record IsPaged {K : Type 0} (memory : DevMem K) (byte : ℕ → ℕ) (p : ℕ) (k : K) : Type 0 where
  pub opens : memory.open_mem k ≡ ok tt
  pub sized : memory.sysconf_page_size k ≡ ok (2 ^ p)
  pub maps :
      (page : ℕ)
      → (mapping : ℕ → ℕ) × (memory.mmap k (2 ^ p) (page * 2 ^ p) ≡ ok mapping)
        × ((i : ℕ) → i < 2 ^ p → mapping i ≡ byte (page * 2 ^ p + i))
  pub unmaps : memory.munmap k ≡ ok tt

-- On a memory that maps pages of `2 ^ p` bytes at their first addresses, with `p` from 2 to 64, and
-- shows the bytes of the page and beyond it any bytes, the read of a register at an aligned address
-- of 64 bits succeeds and gives the four bytes there, the lowest first.
pub read_phys_u32_lem :
    {K : Type 0} (memory : DevMem K) (byte : ℕ → ℕ) (p : ℕ) (k : K) (address : ℕ)
    → IsPaged memory byte p k
    → 2 ≤ p
    → p ≤ 64
    → address < 2 ^ 64
    → address % 4 ≡ 0
    → read_phys_u32 memory address k
      ≡ ok (
          byte address
          + byte (address + 1) * 2 ^ 8
          + byte (address + 2) * 2 ^ 16
          + byte (address + 3) * 2 ^ 24)
unfolding read_phys_u32 page_size read_le_u32
read_phys_u32_lem memory byte p k address paged above le lt aligned =
    let m = 2 ^ p in
    let page : ℕ = address / m in
    let (mapping, mapped, shows) = paged.maps page in
    let base = page_base_lem p address le lt in
    let words = word_in_page p address above aligned in
    let whole = div-add-mod' address m in
    let at : (i : ℕ) → i ≤ 3 → mapping (address - page * m + i) ≡ byte (address + i) = λ i small.
      shows (address - page * m + i) (omega (arith, words, whole))
      ∙ ap byte (omega (arith, whole)) in
    let first : mapping (address - page * m) ≡ byte address =
      ap mapping (omega arith) ∙ at 0 (omega arith) ∙ ap byte (omega arith) in
    rw (paged.opens, paged.sized, base, mapped, paged.unmaps)
      (ap ok (omega (arith, first, at 1 (omega arith), at 2 (omega arith), at 3 (omega arith))))
