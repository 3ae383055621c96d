-- ===== src/Voice/Seq.antt =====
-- internal/voicegateway/seq_allocator.go: `SeqAllocator` and `TurnRefAllocator`. An atomic
-- operation is one step; a nil allocator is `none`.
use fluentwork_backend.Base.{
  ℕ, zero, suc, ◌+◌, ◌-◌, ◌%◌, ◌^◌, ◌<◌, ◌≡◌, ◌≢◌, ◌↔◌, Option, none, some, List, [], ◌∷◌, arith,
}

pub record SeqAllocator : Type 0 where
  pub next : ℕ  -- atomic.Uint32

-- `a.next.Add(1)` wraps at 2^32.
unfoldable pub add_one : SeqAllocator → SeqAllocator
add_one a = record a { next = (a.next + 1) % 2 ^ 32 }

-- `SeqAllocator.Next`
unfoldable pub next : Option SeqAllocator → ℕ × Option SeqAllocator
unfolding add_one
next none = (0, none)
next (some a) = ((add_one a).next, some (add_one a))

-- `SeqAllocator.Peek`
unfoldable pub peek : Option SeqAllocator → ℕ
peek none = 0
peek (some a) = a.next

-- `TurnRefAllocator.Next`: nil when there is no allocator.
unfoldable pub next_ref : Option SeqAllocator → Option ℕ × Option SeqAllocator
unfolding add_one
next_ref none = (none, none)
next_ref (some a) = (some (add_one a).next, some (add_one a))

-- The numbers that `n` calls of `Next` hand out, in order, and the allocator after them.
unfoldable pub take_numbers : ℕ → Option SeqAllocator → List ℕ × Option SeqAllocator
unfolding next
take_numbers zero a = ([], a)
take_numbers (suc n) a = let (k, a') = next a in let (ks, a'') = take_numbers n a' in (k ∷ ks, a'')

-- The numbers first + 1, ..., first + n.
abbrev pub count_from : ℕ → ℕ → List ℕ
count_from first zero = []
count_from first (suc n) = suc first ∷ count_from (suc first) n

-- From a fresh or used allocator, the next n frames are numbered one after another with no gap and
-- no repeat, as long as the numbering stays below 2^32; the allocator then stands at the last of them.
pub take_numbers-consecutive :
    (n first : ℕ)
    → first + n < 2 ^ 32
    → (take_numbers n (some (record { next = first }))
        ≡ (count_from first n, some (record { next = first + n })))
unfolding take_numbers
take_numbers-consecutive zero first h = ground arith
take_numbers-consecutive (suc n) first h = ground (arith, take_numbers-consecutive n (suc first))

-- `Next` hands out 0, the number reserved for "unset", exactly when the allocator's last number is
-- 2^32 - 1; from any other number it hands out a larger one.
pub next-wraps_to_zero :
    (a : SeqAllocator)
    → a.next < 2 ^ 32
    → (((next (some a)).0 ≡ 0) ↔ (a.next ≡ 2 ^ 32 - 1))
      × (a.next ≢ 2 ^ 32 - 1 → (next (some a)).0 ≡ a.next + 1)
unfolding next
next-wraps_to_zero a h = ground arith
