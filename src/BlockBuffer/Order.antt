-- ===== src/BlockBuffer/Order.antt =====
-- The order and the bounds that the block buffer keeps: blocks leave it in sequence.
use test_v.Prelude.{
  ℕ, zero, suc, ◌+◌, ◌≤◌, ◌<◌, ◌≡◌, refl, List, [], ◌∷◌, ◌++◌, some, false, inl, inr, arith, u64,
  ◌==◌, eq→≡, nat_key, Option-cases, Bool-cases,
}
use test_v.Prelude.Int.{pos, ◌≤ℤ◌}
use test_v.Prelude.Lists.{length}
use test_v.Prelude.Maps.{
  lookup, erase, contains, lookup-insert, lookup-erase, length-erase_lt, length-erase_le,
  length-insert_le,
}
use test_v.Protocol.{OrchestratorShardBlock}
use test_v.BlockBuffer.{BlockBuffer, drain, release, store, process_block, process_all, released}

-- The blocks have consecutive heights, from the first up to (and not including) the last.
abbrev pub Consecutive : ℕ → ℕ → List OrchestratorShardBlock → Type 0
Consecutive from to [] = from ≡ to
Consecutive from to (b ∷ bs) = (b.height ≡ from) × Consecutive (u64 (from + 1)) to bs

-- Every buffered block is filed under its own height.
abbrev pub IsFiled : BlockBuffer → Type 0
IsFiled b =
    (h : ℕ) (block : OrchestratorShardBlock) → lookup h b.buffered ≡ some block → block.height ≡ h

-- The next block to release is not waiting in the buffer.
abbrev pub IsDrained : BlockBuffer → Type 0
IsDrained b = contains b.expected b.buffered ≡ false

abbrev advance : BlockBuffer → BlockBuffer
advance b = record b { expected = u64 (b.expected + 1); buffered = erase b.expected b.buffered }

advance-IsFiled : (b : BlockBuffer) → IsFiled b → IsFiled (advance b)
advance-IsFiled b f h block e = ground (arith, lookup-erase b.expected h b.buffered, f h block)

drain-IsFiled : (fuel : ℕ) (b : BlockBuffer) → IsFiled b → IsFiled (drain fuel b).0
unfolding drain
drain-IsFiled zero b f = f
drain-IsFiled (suc fuel) b f = elim (Option-cases (lookup b.expected b.buffered)) [
  | inl e ↦ rw (e, drain) f
  | inr (next, e) ↦ rw (e, drain) (drain-IsFiled fuel (advance b) (advance-IsFiled b f))
]

drain-Consecutive :
    (fuel : ℕ) (b : BlockBuffer)
    → IsFiled b
    → Consecutive b.expected (drain fuel b).0.expected (drain fuel b).1
unfolding drain
drain-Consecutive zero b f = refl
drain-Consecutive (suc fuel) b f = elim (Option-cases (lookup b.expected b.buffered)) [
  | inl e ↦ rw (e, drain) refl
  | inr (next, e) ↦
      rw (e, drain) (f b.expected next e, drain-Consecutive fuel (advance b) (advance-IsFiled b f))
]

-- With enough fuel the loop ends by its own test.
pub drain-IsDrained :
    (fuel : ℕ) (b : BlockBuffer) → length b.buffered < fuel → IsDrained (drain fuel b).0
unfolding drain
drain-IsDrained zero b l = elim l [ ]
drain-IsDrained (suc fuel) b l = elim (Option-cases (lookup b.expected b.buffered)) [
  | inl e ↦ rw (e, drain) (rw e)
  | inr (next, e) ↦
      rw (e, drain)
        (drain-IsDrained fuel (advance b)
          (omega (arith, length-erase_lt b.expected b.buffered (rw e))))
]

release-IsFiled :
    (b : BlockBuffer) (block : OrchestratorShardBlock) → IsFiled b → IsFiled (release b block).0
unfolding release
release-IsFiled b block f = drain-IsFiled (suc (length b.buffered)) _ f

store-IsFiled :
    (b : BlockBuffer) (block : OrchestratorShardBlock) → IsFiled b → IsFiled (store b block)
unfolding store
store-IsFiled b block f h x = ground (arith, lookup-insert block.height h block b.buffered, f h x)

-- Filing is kept by every arrival.
pub process_block-IsFiled :
    (b : BlockBuffer) (block : OrchestratorShardBlock)
    → IsFiled b
    → IsFiled (process_block b block).0
unfolding process_block
process_block-IsFiled b block f h x =
    ground (arith, release-IsFiled b block f h x, store-IsFiled b block f h x, f h x)

store-expected :
    (b : BlockBuffer) (block : OrchestratorShardBlock) → (store b block).expected ≡ b.expected
unfolding store
store-expected b block = ground arith

-- What one arrival releases starts at the height that was expected and leads to the new one.
process_block-Consecutive :
    (b : BlockBuffer) (block : OrchestratorShardBlock)
    → IsFiled b
    → let (b', out) = process_block b block in Consecutive b.expected b'.expected (released out)
unfolding process_block release
process_block-Consecutive b block f = elim (Bool-cases (block.height == b.expected)) [
  | inl e ↦ rw e (
    eq→≡ block.height b.expected e,
    drain-Consecutive (suc (length b.buffered)) (record b { expected = u64 (b.expected + 1) }) f,
  )
  | inr n ↦ rw n (ground (arith, store-expected b block))
]

Consecutive-append :
    (from mid to : ℕ) (xs ys : List OrchestratorShardBlock)
    → Consecutive from mid xs
    → Consecutive mid to ys
    → Consecutive from to (xs ++ ys)
Consecutive-append from mid to [] ys c d = rw c d
Consecutive-append from mid to (x ∷ xs) ys c d =
    (c.0, Consecutive-append (u64 (from + 1)) mid to xs ys c.1 d)

-- Whatever blocks arrive, in whatever order and however often, the blocks released have consecutive
-- heights, from the height first expected up to the one expected at the end, where heights wrap at
-- 2 ^ 64. The buffer holds each block under its own height at the start.
pub process_all-Consecutive :
    (b : BlockBuffer) (blocks : List OrchestratorShardBlock)
    → IsFiled b
    → let (b', out) = process_all b blocks in Consecutive b.expected b'.expected out
unfolding process_all
process_all-Consecutive b [] f = refl
process_all-Consecutive b (block ∷ rest) f =
    Consecutive-append b.expected (process_block b block).0.expected
      (process_all (process_block b block).0 rest).0.expected (released (process_block b block).1)
      (process_all (process_block b block).0 rest).1 (process_block-Consecutive b block f)
      (process_all-Consecutive (process_block b block).0 rest (process_block-IsFiled b block f))

-- The memory bound.
abbrev pub IsBounded : BlockBuffer → Type 0
IsBounded b = pos (length b.buffered) ≤ℤ b.max_buffer

pub drain-length :
    (fuel : ℕ) (b : BlockBuffer) → length (drain fuel b).0.buffered ≤ length b.buffered
unfolding drain
drain-length zero b = omega arith
drain-length (suc fuel) b = elim (Option-cases (lookup b.expected b.buffered)) [
  | inl e ↦ rw (e, drain) (omega arith)
  | inr (next, e) ↦
      rw (e, drain)
        (omega (arith, drain-length fuel (advance b), length-erase_le b.expected b.buffered))
]

drain-max_buffer : (fuel : ℕ) (b : BlockBuffer) → (drain fuel b).0.max_buffer ≡ b.max_buffer
unfolding drain
drain-max_buffer zero b = refl
drain-max_buffer (suc fuel) b = elim (Option-cases (lookup b.expected b.buffered)) [
  | inl e ↦ rw (e, drain)
  | inr (next, e) ↦ rw (e, drain) (drain-max_buffer fuel (advance b))
]

pub process_block-max_buffer :
    (b : BlockBuffer) (block : OrchestratorShardBlock)
    → (process_block b block).0.max_buffer ≡ b.max_buffer
unfolding process_block release store
process_block-max_buffer b block = ground (
  arith,
  drain-max_buffer (suc (length b.buffered)) (record b { expected = u64 (b.expected + 1) }),
)

-- No arrival takes a buffer that is within its limit beyond it, and none changes the limit.
pub process_block-IsBounded :
    (b : BlockBuffer) (block : OrchestratorShardBlock)
    → IsBounded b
    → IsBounded (process_block b block).0 × ((process_block b block).0.max_buffer ≡ b.max_buffer)
unfolding process_block release store
process_block-IsBounded b block v =
    let b' : BlockBuffer = record b { expected = u64 (b.expected + 1) } in
    ground (
      arith,
      drain-length (suc (length b.buffered)) b',
      drain-max_buffer (suc (length b.buffered)) b',
      length-insert_le block.height block b.buffered,
    )
