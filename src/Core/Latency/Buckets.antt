-- ===== src/Core/Latency/Buckets.antt =====
-- src/core/latency.cpp: the bucket of a value, and the value that a bucket stands for.
use iocp_echo_server.Base.{ℕ, ◌+◌, ◌-◌, ◌*◌, ◌/◌, ◌≤◌, ◌<◌, ◌≡◌, ◌⊎◌, arith}
use iocp_echo_server.Core.Latency.{
  bucket_loop, bucket_of, upper_loop, bucket_upper, bucket_count, overflow,
}

-- Every value has a bucket inside the array.
pub bucket_of_bound : (us : ℕ) → bucket_of us < bucket_count
unfolding bucket_of bucket_loop
bucket_of_bound us = ground arith

-- The range that a value falls into, and its bucket there.
abbrev Lies : ℕ → ℕ → ℕ → ℕ → ℕ → Type 0
Lies us from to step first = (from ≤ us) × (us < to) × (bucket_of us ≡ first + (us - from) / step)

classify :
    (us : ℕ)
    → Lies us 0 100 1 0
      ⊎ Lies us 100 1000 10 100
      ⊎ Lies us 1000 10000 100 190
      ⊎ Lies us 10000 100000 1000 280
      ⊎ Lies us 100000 1000000 10000 370
      ⊎ Lies us 1000000 10000000 100000 460
      ⊎ (10000000 ≤ us) × (bucket_of us ≡ overflow)
unfolding bucket_of bucket_loop
classify us = ground arith

upper_classify :
    (i : ℕ)
    → (i < 100) × (bucket_upper i ≡ i + 1)
      ⊎ (100 ≤ i) × (i < 190) × (bucket_upper i ≡ 100 + (i - 100 + 1) * 10)
      ⊎ (190 ≤ i) × (i < 280) × (bucket_upper i ≡ 1000 + (i - 190 + 1) * 100)
      ⊎ (280 ≤ i) × (i < 370) × (bucket_upper i ≡ 10000 + (i - 280 + 1) * 1000)
      ⊎ (370 ≤ i) × (i < 460) × (bucket_upper i ≡ 100000 + (i - 370 + 1) * 10000)
      ⊎ (460 ≤ i) × (i < 550) × (bucket_upper i ≡ 1000000 + (i - 460 + 1) * 100000)
      ⊎ (550 ≤ i)
unfolding bucket_upper upper_loop
upper_classify i = ground arith

-- Below ten seconds a value lies under the upper end of its bucket, by at most a tenth of the
-- value and one; above, the bucket is the last.
pub bucket_upper_bounds :
    (us : ℕ)
    → (us < 10000000
        → (us < bucket_upper (bucket_of us)) × (bucket_upper (bucket_of us) ≤ us + 1 + us / 10))
      × (10000000 ≤ us → bucket_of us ≡ overflow)
bucket_upper_bounds us = omega (arith, upper_classify (bucket_of us), classify us)

-- A larger value never has a lower bucket.
pub bucket_of_mono : (a b : ℕ) → a ≤ b → bucket_of a ≤ bucket_of b
bucket_of_mono a b h = let c = classify a in let d = classify b in omega arith
