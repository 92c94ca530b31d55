-- ===== src/Va/Segment/Multi/Turns.antt =====
-- One turn of the loop over a range, for each of its branches.
use oxidalloc.Prelude.{
  ℕ, suc, ◌+◌, ◌-◌, ◌*◌, ◌/◌, ◌%◌, ◌≤◌, ◌<◌, ◌≡◌, min, true, false, ltb, leb, ◌==◌, ◌&&◌, some,
  bit_and, lt→ltb, le→not_ltb, arith,
}
use oxidalloc.Prelude.Word.{u64_max, ◌<<<◌}
use oxidalloc.Outcome.{ok, ◌>>=◌}
use oxidalloc.Va.Words.{load}
use oxidalloc.Va.Segment.Defs.{Segment, block_size, max_bits}
use oxidalloc.Va.Segment.View.{IsValid, AllFree}
use oxidalloc.Va.Segment.Claim.{Takes, try_claim_free}
use oxidalloc.Va.Segment.Multi.{found, ended, claim_run, scan_range}
use oxidalloc.Va.Segment.Multi.Run.{begin}

-- a run that is free is claimed
pub claim_run_free :
    (s : Segment) (first count : ℕ)
    → IsValid s
    → first + count ≤ max_bits s
    → AllFree s first (first + count)
    → (addr : ℕ) × (s' : Segment) × (claim_run s first count ≡ ok (some addr, s'))
      × Takes s count first (some addr, s')
unfolding claim_run
claim_run_free s first count valid inside free =
    let (s', run, taken) =
      try_claim_free s first count (first / 64) (let h = valid.bounded in omega arith) valid inside
        free in
    (s'.va_start + first * block_size, record s' { hint = first / 64 }, rw run, taken)

module _ (s : Segment) (count hi fuel bit run start : ℕ) where
  pub turn_end : hi ≤ bit → scan_range count hi (suc fuel) bit run start s ≡ ok (ended run start s)
  unfolding scan_range
  turn_end over = rw (le→not_ltb bit hi over, scan_range)

  module _ (more : bit < hi) (loaded : bit / 64 < s.map_len) where
    go : ltb bit hi ≡ true
    go = lt→ltb bit hi more

    reads : ltb (bit / 64) s.map_len ≡ true
    reads = lt→ltb _ _ loaded

    module _ (zero : (bit % 64 == 0 && s.map (bit / 64) == 0) ≡ true) where
      pub turn_zero_claim :
          (addr : ℕ) (s' : Segment)
          → leb count (run + min 64 (hi - bit)) ≡ true
          → claim_run s (begin bit run start) count ≡ ok (some addr, s')
          → scan_range count hi (suc fuel) bit run start s ≡ ok (found addr s')
      unfolding scan_range load
      turn_zero_claim addr s' enough claimed =
          rw (go, scan_range) (rw (reads, ◌>>=◌) (rw zero (rw enough (rw claimed))))

      pub turn_zero_skip :
          leb count (run + min 64 (hi - bit)) ≡ false
          → scan_range count hi (suc fuel) bit run start s
            ≡ scan_range count hi fuel
                (bit + min 64 (hi - bit))
                (run + min 64 (hi - bit))
                (begin bit run start)
                s
      unfolding scan_range load
      turn_zero_skip few = rw (go, scan_range) (rw (reads, ◌>>=◌) (rw zero (rw few)))

    module _ (mixed : (bit % 64 == 0 && s.map (bit / 64) == 0) ≡ false) where
      pub turn_full :
          (s.map (bit / 64) == u64_max) ≡ true
          → scan_range count hi (suc fuel) bit run start s
            ≡ scan_range count hi fuel ((bit / 64 + 1) * 64) 0 start s
      unfolding scan_range load
      turn_full full = rw (go, scan_range) (rw (reads, ◌>>=◌) (rw mixed (rw full)))

      module _ (part : (s.map (bit / 64) == u64_max) ≡ false) where
        pub turn_used :
            (bit_and (s.map (bit / 64)) (1 <<< (bit % 64)) == 0) ≡ false
            → scan_range count hi (suc fuel) bit run start s
              ≡ scan_range count hi fuel (bit + 1) 0 start s
        unfolding scan_range load
        turn_used set = rw (go, scan_range) (rw (reads, ◌>>=◌) (rw mixed (rw part (rw set))))

        module _ (clear : (bit_and (s.map (bit / 64)) (1 <<< (bit % 64)) == 0) ≡ true) where
          pub turn_claim :
              (addr : ℕ) (s' : Segment)
              → (run + 1 == count) ≡ true
              → claim_run s (begin bit run start) count ≡ ok (some addr, s')
              → scan_range count hi (suc fuel) bit run start s ≡ ok (found addr s')
          unfolding scan_range load
          turn_claim addr s' enough claimed =
              rw (go, scan_range)
                (rw (reads, ◌>>=◌) (rw mixed (rw part (rw clear (rw enough (rw claimed))))))

          pub turn_more :
              (run + 1 == count) ≡ false
              → scan_range count hi (suc fuel) bit run start s
                ≡ scan_range count hi fuel (bit + 1) (run + 1) (begin bit run start) s
          unfolding scan_range load
          turn_more few =
              rw (go, scan_range) (rw (reads, ◌>>=◌) (rw mixed (rw part (rw clear (rw few)))))
