-- ===== src/Core/Latency/Counts.antt =====
-- src/core/latency.cpp: counts, merging and percentiles.
use iocp_echo_server.Base.{
  ℕ, zero, suc, ◌+◌, ◌≡◌, refl, sym, ap, ap₂, ◌∙◌, List, [], ◌∷◌, arith, length, replicate,
  length-replicate,
}
use iocp_echo_server.Core.Latency.{
  LatencyHistogram, add, reset, merge, merge_buckets, bump, bucket_of, bucket_count,
}

-- The histogram of a list of durations.
unfoldable pub adds : List ℕ → LatencyHistogram → LatencyHistogram
adds [] h = h
adds (us ∷ more) h = adds more (add us h)

unfoldable pub total : List ℕ → ℕ
total [] = 0
total (b ∷ bs) = b + total bs

merge-bump :
    (i : ℕ) (xs ys : List ℕ)
    → length xs ≡ length ys
    → merge_buckets xs (bump i ys) ≡ bump i (merge_buckets xs ys)
unfolding merge_buckets bump
merge-bump i [] [] h = refl
merge-bump i [] (y ∷ ys) h = absurd (omega arith)
merge-bump i (x ∷ xs) [] h = absurd (omega arith)
merge-bump zero (x ∷ xs) (y ∷ ys) h = ap (λ (n : ℕ). n ∷ merge_buckets xs ys) (omega arith)
merge-bump (suc i) (x ∷ xs) (y ∷ ys) h = ap (◌∷◌ (x + y)) (merge-bump i xs ys (omega arith))

length-bump : (i : ℕ) (xs : List ℕ) → length (bump i xs) ≡ length xs
unfolding bump
length-bump i [] = refl
length-bump zero (x ∷ xs) = refl
length-bump (suc i) (x ∷ xs) = ap suc (length-bump i xs)

merge-add :
    (us : ℕ) (h g : LatencyHistogram)
    → length h.buckets ≡ length g.buckets
    → merge (add us g) h ≡ add us (merge g h)
unfolding merge add
merge-add us h g e = ground (arith, merge-bump (bucket_of us) h.buckets g.buckets)

merge-adds :
    (xs : List ℕ) (h g : LatencyHistogram)
    → length h.buckets ≡ length g.buckets
    → merge (adds xs g) h ≡ adds xs (merge g h)
unfolding adds
merge-adds [] h g e = refl
merge-adds (us ∷ xs) h g e =
    merge-adds xs h (add us g) (unfold add in (e ∙ sym (length-bump (bucket_of us) g.buckets)))
    ∙ ap (adds xs) (merge-add us h g e)

merge_zeros : (n : ℕ) (xs : List ℕ) → length xs ≡ n → merge_buckets xs (replicate n 0) ≡ xs
unfolding merge_buckets
merge_zeros zero [] h = refl
merge_zeros zero (x ∷ xs) h = absurd (omega arith)
merge_zeros (suc n) [] h = absurd (omega arith)
merge_zeros (suc n) (x ∷ xs) h = ap₂ ◌∷◌ (omega arith) (merge_zeros n xs (omega arith))

merge-reset : (h : LatencyHistogram) → length h.buckets ≡ bucket_count → merge reset h ≡ h
unfolding merge reset
merge-reset h e = ground (arith, merge_zeros bucket_count h.buckets e)

length-adds : (xs : List ℕ) (h : LatencyHistogram) → length (adds xs h).buckets ≡ length h.buckets
unfolding adds add
length-adds [] h = refl
length-adds (us ∷ xs) h = length-adds xs (add us h) ∙ length-bump (bucket_of us) h.buckets

-- Merging the histograms of two lanes gives the histogram of all their samples.
pub merge-adds_all :
    (xs ys : List ℕ) → merge (adds ys reset) (adds xs reset) ≡ adds ys (adds xs reset)
merge-adds_all xs ys =
    merge-adds ys (adds xs reset) reset (length-adds xs reset)
    ∙ ap (adds ys) (
        merge-reset (adds xs reset)
          (length-adds xs reset ∙ (unfold reset in length-replicate {A = ℕ} bucket_count 0)))
