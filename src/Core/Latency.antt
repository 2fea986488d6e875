-- ===== src/Core/Latency.antt =====
-- src/core/latency.h and latency.cpp. `buckets_` is a list of 551 counts. The unsigned sums are
-- plain numbers. A duration is a number: `add` takes a negative one for 0. The rank that
-- `percentile` computes in floating point is its argument.
pub mod Buckets
pub mod Counts
use iocp_echo_server.Base.{
  ℕ, zero, suc, ◌+◌, ◌-◌, ◌*◌, ◌/◌, Bool, true, false, List, [], ◌∷◌, ltb, leb, ◌==◌, if◌then◌else◌,
  replicate, min, max,
}

pub record Range : Type 0 where
  pub from : ℕ
  pub step : ℕ
  pub first : ℕ
  pub slots : ℕ

-- `kRanges`, in the order in which both loops go through it: from the last to the first.
abbrev pub ranges : List Range
ranges =
    record { from = 1000000; step = 100000; first = 460; slots = 90 }
    ∷ record { from = 100000; step = 10000; first = 370; slots = 90 }
    ∷ record { from = 10000; step = 1000; first = 280; slots = 90 }
    ∷ record { from = 1000; step = 100; first = 190; slots = 90 }
    ∷ record { from = 100; step = 10; first = 100; slots = 90 }
    ∷ record { from = 0; step = 1; first = 0; slots = 100 }
    ∷ []

abbrev pub bucket_count : ℕ
bucket_count = 551

abbrev pub overflow : ℕ
overflow = 550

unfoldable pub bucket_loop : List Range → ℕ → ℕ
bucket_loop [] us = 0
bucket_loop (r ∷ rs) us =
    if ltb us r.from
    then bucket_loop rs us
    else let offset = (us - r.from) / r.step in
      if leb r.slots offset then overflow else r.first + offset

unfoldable pub bucket_of : ℕ → ℕ
bucket_of us = if us == 0 then 0 else bucket_loop ranges us

unfoldable pub upper_loop : List Range → ℕ → ℕ
upper_loop [] index = 0
upper_loop (r ∷ rs) index =
    if ltb index r.first then upper_loop rs index else r.from + (index - r.first + 1) * r.step

-- The upper end of the last range: 1000000 + 100000 * 90.
unfoldable pub bucket_upper : ℕ → ℕ
bucket_upper index = if leb overflow index then 1000000 + 100000 * 90 else upper_loop ranges index

pub record LatencyHistogram : Type 0 where
  pub buckets : List ℕ
  pub count : ℕ
  pub sum_us : ℕ
  pub max_us : ℕ

unfoldable pub reset : LatencyHistogram
reset = record { buckets = replicate bucket_count 0; count = 0; sum_us = 0; max_us = 0 }

-- `++buckets_[i]`
unfoldable pub bump : ℕ → List ℕ → List ℕ
bump i [] = []
bump zero (b ∷ bs) = suc b ∷ bs
bump (suc i) (b ∷ bs) = b ∷ bump i bs

unfoldable pub add : ℕ → LatencyHistogram → LatencyHistogram
add us h = record {
  buckets = bump (bucket_of us) h.buckets;
  count = h.count + 1;
  sum_us = h.sum_us + us;
  max_us = max h.max_us us;
}

unfoldable pub merge_buckets : List ℕ → List ℕ → List ℕ
merge_buckets (a ∷ as_) (b ∷ bs) = (a + b) ∷ merge_buckets as_ bs
merge_buckets as_ _ = as_

unfoldable pub merge : LatencyHistogram → LatencyHistogram → LatencyHistogram
merge other h = record {
  buckets = merge_buckets h.buckets other.buckets;
  count = h.count + other.count;
  sum_us = h.sum_us + other.sum_us;
  max_us = if ltb h.max_us other.max_us then other.max_us else h.max_us;
}

-- The search over the buckets from index `i` on, of which `seen` samples lie below.
unfoldable pub find_rank : ℕ → ℕ → ℕ → ℕ → List ℕ → ℕ
find_rank target max_us i seen [] = max_us
find_rank target max_us i seen (b ∷ bs) =
    let more = find_rank target max_us (i + 1) (seen + b) bs in
    if leb target (seen + b) then min (bucket_upper i) max_us else more

-- `rank` is `static_cast<std::uint64_t>(count * p + 0.5)`.
unfoldable pub percentile : ℕ → LatencyHistogram → ℕ
percentile rank h =
    if h.count == 0
    then 0
    else let target = if rank == 0 then 1 else rank in
      let target' = if ltb h.count target then h.count else target in
      find_rank target' h.max_us 0 0 h.buckets
