-- ===== src/Va/Reserve/Halving.antt =====
-- `get_va_from_kernel` of src/va/bitmap.rs: its loop ends, and the range that it gives.
use oxidalloc.Prelude.{
  ℕ, zero, suc, ◌+◌, ◌/◌, ◌^◌, ◌≤◌, ◌<◌, ◌≡◌, ◌≢◌, refl, ap, arith, Bool, true, false, ◌&&◌, ◌||◌,
  inl, inr, Option, none, some, leb, ◌==◌, Bool-cases, Option-cases, not_leb→lt,
}
use oxidalloc.Prelude.Word.{two_pow_suc}
use oxidalloc.Outcome.{Outcome, ok, panic}
use oxidalloc.Va.Radix.{chunk_size}
use oxidalloc.Va.Reserve.{
  Reserve, Range, randomize_base_hint, reserved, target_of, hint_full, halved, first_size, probe,
  max_size, get_va_from_kernel,
}

-- no size is so large that it overflows when it is rounded up to pages
pub record IsBounded (r : Reserve) : Type 0 where
  pub tried : r.latest_tried < 2 ^ 63
  pub most : r.max_reservation < 2 ^ 63

module _ (mmap : (call target size : ℕ) → Option ℕ) (getrandom : (call : ℕ) → Option ℕ) where
  -- The calls for sizes from `from` down to twice `to` are refused, one after the other, and `s` is
  -- the state behind them.
  pub data Halves (from : ℕ) (r : Reserve) : (to : ℕ) → Reserve → Type 0 where
    begun : Halves from r from r
    refused :
        {size : ℕ} {s : Reserve}
        → Halves from r size s
        → mmap s.calls (target_of s) size ≡ none
        → chunk_size < size
        → s.base_hint + size < 2 ^ 64
        → Halves from r (size / 2) (halved s size)

  -- In a run from `r` the state `s` asks for `size`, when every larger size was refused.
  pub record Asks (r : Reserve) (size : ℕ) (s : Reserve) : Type 0 where
    pub hinted : Reserve
    pub run : randomize_base_hint mmap getrandom r ≡ ok hinted
    pub halves : Halves (first_size hinted) ((max_size hinted).1) size s

  -- the smallest size was refused, in a state where `init` says whether there is a hint
  pub record Refused (r : Reserve) (init : Bool) : Type 0 where
    pub size : ℕ
    pub state : Reserve
    pub asks : Asks r size state
    pub smallest : size ≤ chunk_size
    pub answer : mmap state.calls (target_of state) size ≡ none
    pub hint : state.base_init ≡ init

  -- why a run aborts: it had no random bytes, no memory was to be had anywhere, or the next hint or
  -- the end of the range does not fit 64 bits
  pub data Aborts (r : Reserve) : Type 0 where
    no_random : r.latest_tried ≢ 0 → getrandom r.calls ≡ none → Aborts r
    nowhere : Refused r false → Aborts r
    no_end :
        {size output : ℕ} {s : Reserve}
        → Asks r size s
        → mmap s.calls (target_of s) size ≡ some output
        → (s.base_init && hint_full s size || leb (2 ^ 64) (output + size)) ≡ true
        → Aborts r
    no_hint :
        {size : ℕ} {s : Reserve}
        → Asks r size s
        → mmap s.calls (target_of s) size ≡ none
        → 2 ^ 64 ≤ s.base_hint + size
        → Aborts r

  -- what a run gives
  pub data Reserves (r : Reserve) : Outcome (Option Range × Reserve) → Type 0 where
    got :
        {size output : ℕ} {s : Reserve}
        → Asks r size s
        → mmap s.calls (target_of s) size ≡ some output
        → chunk_size / 2 ≤ size
        → output + size < 2 ^ 64
        → IsBounded (reserved s output size)
        → Reserves r (
            ok (
              some (record { output = output; end = output + size; size = size }),
              reserved s output size,
            ))
    nothing : {s : Reserve} → Refused r true → IsBounded s → Reserves r (ok (none, s))
    aborted : Aborts r → Reserves r panic

  reserved-IsBounded :
      (r : Reserve) (output size : ℕ)
      → size < 2 ^ 63
      → IsBounded r
      → IsBounded (reserved r output size)
  reserved-IsBounded r output size word bounded = record {
    tried = ground arith;
    most = bounded.most;
  }

  other-IsBounded :
      (r : Reserve) (hint calls : ℕ) (init : Bool)
      → IsBounded r
      → IsBounded (record r { base_hint = hint; base_init = init; calls = calls })
  other-IsBounded r hint calls init bounded = record { tried = bounded.tried; most = bounded.most }

  next-Asks :
      (r : Reserve) (size : ℕ) (s : Reserve)
      → Asks r size s
      → mmap s.calls (target_of s) size ≡ none
      → chunk_size < size
      → s.base_hint + size < 2 ^ 64
      → Asks r (size / 2) (halved s size)
  next-Asks r size s a e large room = record {
    hinted = a.hinted;
    run = a.run;
    halves = refused a.halves e large room;
  }

  probe-Reserves :
      (r : Reserve) (fuel size : ℕ) (s : Reserve)
      → Asks r size s
      → chunk_size / 2 ≤ size
      → size < 2 ^ (fuel + 31)
      → size < 2 ^ 63
      → IsBounded s
      → Reserves r (probe mmap getrandom fuel size s)
  unfolding probe
  probe-Reserves r zero size s asks low high word bounded = absurd (omega arith)
  probe-Reserves r (suc fuel) size s asks low high word bounded =
      elim (Option-cases (mmap s.calls (target_of s) size)) [
        | inr (output, e) ↦
            elim (Bool-cases (s.base_init && hint_full s size || leb (2 ^ 64) (output + size))) [
              | inl full ↦ rw (e, probe, full) (aborted (no_end asks e full))
              | inr room ↦
                  rw (e, probe, room)
                    (got asks e low (ground (arith, room))
                      (reserved-IsBounded s output size word bounded))
            ]
        | inl e ↦ elim (Bool-cases (leb size chunk_size)) [
          | inl small ↦ elim (Bool-cases (s.base_init)) [
            | inl init ↦
                rw (e, probe, small, init)
                  (nothing
                    (record {
                      size = size;
                      state = s;
                      asks = asks;
                      smallest = ground (arith, small);
                      answer = e;
                      hint = init;
                    })
                    (other-IsBounded s _ _ _ bounded))
            | inr first ↦
                rw (e, probe, small, first)
                  (aborted (
                    nowhere (record {
                      size = size;
                      state = s;
                      asks = asks;
                      smallest = ground (arith, small);
                      answer = e;
                      hint = first;
                    })))
          ]
          | inr large ↦ elim (Bool-cases (hint_full s size)) [
            | inl full ↦
                rw (e, probe, large, full) (aborted (no_hint asks e (ground (arith, full))))
            | inr room ↦
                let same : suc fuel + 31 ≡ suc (fuel + 31) = omega arith in
                let half : size / 2 < 2 ^ (fuel + 31) =
                  omega (arith, ap (λ (k : ℕ). 2 ^ k) same, two_pow_suc (fuel + 31)) in
                let more = not_leb→lt size chunk_size large in
                rw (e, probe, large, room)
                  (probe-Reserves r fuel (size / 2) (halved s size)
                    (next-Asks r size s asks e more (ground (arith, room))) (omega (arith, more))
                    half (omega arith) (other-IsBounded s _ _ _ bounded))
          ]
        ]
      ]

  after_hint-Reserves :
      (r hinted : Reserve)
      → randomize_base_hint mmap getrandom r ≡ ok hinted
      → IsBounded hinted
      → Reserves r (probe mmap getrandom 64 (first_size hinted) ((max_size hinted).1))
  after_hint-Reserves r hinted run bounded =
      let less : (max_size hinted).0 < 2 ^ 63 = ground arith in
      let kept : IsBounded ((max_size hinted).1) = record {
        tried = ground arith;
        most = ground arith;
      } in
      probe-Reserves r 64 (first_size hinted) ((max_size hinted).1)
        (record { hinted = hinted; run = run; halves = begun }) (ground arith)
        (ground (arith, less)) (ground (arith, less)) kept

  -- With sizes below 2 ^ 63 `get_va_from_kernel` ends. It gives a range of at least 2 GiB, which
  -- the system gave for a size that comes from the first one by halving, after this run had asked
  -- for every larger one and was refused. Or it gives none, where there is a hint and the system
  -- has refused all these sizes down to the smallest. Or it aborts, where it gets no random bytes,
  -- where the system has refused all sizes without a hint, or where the next hint or the end of the
  -- range does not fit 64 bits. The sizes stay below 2 ^ 63.
  pub get_va_from_kernel-Reserves :
      (r : Reserve) → IsBounded r → Reserves r (get_va_from_kernel mmap getrandom r)
  unfolding get_va_from_kernel randomize_base_hint
  get_va_from_kernel-Reserves r bounded = elim (Bool-cases (r.latest_tried == 0)) [
    | inl unset ↦ rw unset (after_hint-Reserves r r (rw unset refl) bounded)
    | inr set ↦ elim (Option-cases (getrandom r.calls)) [
      | inl e ↦ rw (set, e) (aborted (no_random (λ z. ground (arith, set, z)) e))
      | inr (rand, e) ↦
          rw (set, e) (after_hint-Reserves r _ (rw (set, e) refl) (other-IsBounded r _ _ _ bounded))
    ]
  ]
