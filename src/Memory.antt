-- ===== src/Memory.antt =====
-- Memory as os/rt-thread-nano/src/kservice.c reads and writes it on the RV32 core: bytes at addresses,
-- and words (`long`) of four bytes, the lowest first.
pub mod Fill
pub mod Copy
pub mod Strings
use lltrisc_v.Prelude.{
  ℕ, ◌+◌, ◌-◌, ◌*◌, ◌/◌, ◌%◌, ◌<◌, ◌≡◌, Bool, ◌&&◌, if◌then◌else◌, arith, update, ltb, leb, ◌==◌,
}

abbrev pub Memory : Type 0
Memory = ℕ → ℕ

-- Every cell holds a byte.
abbrev pub IsBytes : Memory → Type 0
IsBytes m = (a : ℕ) → m a < 256

-- Is the address one of the `n` from `start` on?
abbrev pub within : (start n address : ℕ) → Bool
within start n address = leb start address && ltb address (start + n)

-- `*(long *)a`
unfoldable pub read_word : Memory → ℕ → ℕ
read_word m a = m a + 256 * (m (a + 1) + 256 * (m (a + 2) + 256 * m (a + 3)))

-- `*(long *)a = w`
unfoldable pub write_word : Memory → ℕ → ℕ → Memory
write_word m a w =
    let one = w / 256 in
    let two = one / 256 in
    let three = two / 256 in
    update (update (update (update m a (w % 256)) (a + 1) (one % 256)) (a + 2) (two % 256)) (a + 3)
      (three % 256)

-- The four bytes of a word.
pub word_bytes :
    (w p q r s : ℕ)
    → p < 256
    → q < 256
    → r < 256
    → s < 256
    → w ≡ p + 256 * (q + 256 * (r + 256 * s))
    → (w % 256 ≡ p)
      × (w / 256 % 256 ≡ q)
      × (w / 256 / 256 % 256 ≡ r)
      × (w / 256 / 256 / 256 % 256 ≡ s)
word_bytes w p q r s hp hq hr hs e =
    let first : w / 256 ≡ q + 256 * (r + 256 * s) = omega (arith, e, hp) in
    let second : w / 256 / 256 ≡ r + 256 * s = omega (arith, first, hq) in
    let third : w / 256 / 256 / 256 ≡ s = omega (arith, second, hr) in
    (
      omega (arith, e, hp),
      omega (arith, first, hq),
      omega (arith, second, hr),
      omega (arith, third, hs),
    )
