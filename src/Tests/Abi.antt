-- ===== src/Tests/Abi.antt =====
-- A `malloc` that gives 4096 bytes at 0x5010 to every request up to that size, of class 22.
use oxidalloc.Prelude.{
  ℕ, ◌+◌, ◌≤◌, ◌≡◌, ◌^◌, refl, arith, Bool, true, false, Option, none, some, ltb, leb, ◌&&◌,
  if◌then◌else◌,
}
use oxidalloc.Prelude.Word.{complement}
use oxidalloc.Outcome.{Returns}
use oxidalloc.Abi.Align.{Memory, done, posix_memalign, aligned_at, power_below}
use oxidalloc.Abi.Align.Aligned.{Places, posix_memalign-Places, Recovers, raw_of-posix_memalign}
use oxidalloc.Abi.Calloc.{actual_size, calloc}
use oxidalloc.Abi.Calloc.Zeroes.{Clears, calloc-Clears}

abbrev malloc_call : (call size : ℕ) → Option ℕ
malloc_call call size = if leb size 4096 then some 0x5010 else none

fits : (call size raw : ℕ) → malloc_call call size ≡ some raw → raw + size ≤ 2 ^ 64
fits call size raw e = ground arith

abbrev zeros : Memory
zeros p = 0

abbrev our : ℕ → Bool
our addr = leb 0x5000 addr && ltb addr 0x6010

ours : (call raw : ℕ) → malloc_call call 372 ≡ some raw → our raw ≡ true
ours call raw e = ground arith

posix_memalign-Places_example :
    Places malloc_call false 256 100 zeros (posix_memalign malloc_call false 256 100 zeros)
posix_memalign-Places_example = posix_memalign-Places malloc_call false 256 100 zeros fits

abbrev memory_of : Memory
memory_of = (posix_memalign malloc_call false 256 100 zeros).2

placed_at : posix_memalign malloc_call false 256 100 zeros ≡ (done, some 0x5100, memory_of)
unfolding posix_memalign power_below aligned_at complement
placed_at = refl

abbrev malloc_one : (size : ℕ) → Option ℕ
malloc_one size = if leb size 4096 then some 0x5010 else none

abbrev class_at : (header : ℕ) → ℕ
class_at header = 22

abbrev big_size : (header : ℕ) → Option ℕ
big_size header = none

sized :
    (bytes ptr : ℕ)
    → malloc_one bytes ≡ some ptr
    → Returns (actual_size class_at big_size ptr) (λ actual. bytes ≤ actual)
unfolding actual_size
sized bytes ptr e = (4096, refl, ground arith)

held :
    (call raw : ℕ)
    → malloc_call call 372 ≡ some raw
    → Returns (actual_size class_at big_size raw) (λ n. 372 ≤ n)
unfolding actual_size
held call raw e = (4096, refl, omega arith)

raw_of-posix_memalign_example :
    Recovers malloc_call false 256 100 zeros fits our (λ p. 0) class_at big_size memory_of 0x5100
raw_of-posix_memalign_example =
    raw_of-posix_memalign malloc_call false 256 100 zeros fits our (λ p. 0) class_at big_size ours
      held memory_of 0x5100 refl placed_at

calloc-Clears_example :
    Returns
      (calloc malloc_one class_at big_size 30 100 (λ p. 7))
      (Clears malloc_one class_at big_size 30 100 (λ p. 7))
calloc-Clears_example = calloc-Clears malloc_one class_at big_size 30 100 (λ p. 7) sized
