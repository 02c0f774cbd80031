-- ===== src/BlockBuffer/Delivery.antt =====
-- Completeness of the block buffer: what has arrived is released as soon as the gap before it is
-- filled, whatever the order of arrival, while the buffer has room.
use test_v.Prelude.{
  ℕ, zero, suc, ◌+◌, ◌≤◌, ◌<◌, ◌≡◌, refl, ap, List, [], ◌∷◌, map, some, true, ◌⊎◌, inl, inr, arith,
  u64, ltb, ◌==◌, if◌then◌else◌, eq→≡, nat_key, Option-cases, Bool-cases,
}
use native.Mathlib.Decide.{dec_le}
use test_v.Prelude.Int.{ℤ, pos, ◌≤ℤ◌, pos_part, neg_part}
use test_v.Prelude.Lists.{length, In, All}
use test_v.Prelude.Maps.{
  lookup, insert, erase, contains, lookup-insert, lookup-erase, length-insert_le,
}
use test_v.Protocol.{OrchestratorShardBlock}
use test_v.BlockBuffer.{
  BlockBuffer, new_block_buffer, drain, release, store, process_block, process_all,
}
use test_v.BlockBuffer.Order.{
  IsDrained, Consecutive, drain-IsDrained, drain-length, process_block-max_buffer,
  process_all-Consecutive,
}

-- The largest uint64, which no block's height reaches.
abbrev top : ℕ
top = 18446744073709551615

record Kept (start : ℕ) (arrived : List ℕ) (b : BlockBuffer) : Type 0 where
  above : start ≤ b.expected
  low : b.expected ≤ top
  keys : (h : ℕ) → contains h b.buffered ≡ true → h < top
  drained : IsDrained b
  kept : (h : ℕ) → In h arrived → (h < b.expected) ⊎ (contains h b.buffered ≡ true)
  few : length b.buffered ≤ length arrived

-- What the release loop does to one height `h`.
record Drained (h : ℕ) (b b' : BlockBuffer) : Type 0 where
  forward : b.expected ≤ b'.expected
  low : b'.expected ≤ top
  keys : contains h b'.buffered ≡ true → h < top
  kept : contains h b.buffered ≡ true → (h < b'.expected) ⊎ (contains h b'.buffered ≡ true)

abbrev advance : BlockBuffer → BlockBuffer
advance b = record b { expected = u64 (b.expected + 1); buffered = erase b.expected b.buffered }

advance_keys :
    (b : BlockBuffer)
    → ((h : ℕ) → contains h b.buffered ≡ true → h < top)
    → (h : ℕ) → contains h (advance b).buffered ≡ true
    → h < top
advance_keys b k h e = ground (arith, lookup-erase b.expected h b.buffered, k h)

drain-Drained :
    (fuel : ℕ) (b : BlockBuffer) (h : ℕ)
    → b.expected ≤ top
    → ((h : ℕ) → contains h b.buffered ≡ true → h < top)
    → Drained h b (drain fuel b).0
unfolding drain
drain-Drained zero b h l k = record {
  forward = omega arith;
  low = l;
  keys = k h;
  kept = λ c. inr c;
}
drain-Drained (suc fuel) b h l k = elim (Option-cases (lookup b.expected b.buffered)) [
  | inl e ↦ rw (e, drain) (record { forward = omega arith; low = l; keys = k h; kept = λ c. inr c })
  | inr (next, e) ↦
      let below : b.expected < top = k b.expected (rw e) in
      let d = drain-Drained fuel (advance b) h (omega arith) (advance_keys b k) in
      rw (e, drain)
        (record {
          forward = omega (arith, d.forward);
          low = d.low;
          keys = d.keys;
          kept =
              λ c. ground (arith, d.kept, d.forward, below, lookup-erase b.expected h b.buffered);
        })
]

-- The block that was expected arrives.
release-Kept :
    (start : ℕ) (arrived : List ℕ) (b : BlockBuffer) (block : OrchestratorShardBlock)
    → block.height ≡ b.expected
    → block.height < top
    → Kept start arrived b
    → Kept start (block.height ∷ arrived) (release b block).0
unfolding release
release-Kept start arrived b block e t v =
    let b₁ : BlockBuffer = record b { expected = u64 (b.expected + 1) } in
    let fuel : ℕ = suc (length b.buffered) in
    let low : b₁.expected ≤ top = omega arith in
    let d = λ (h : ℕ). drain-Drained fuel b₁ h low v.keys in
    record {
      above = omega (arith, v.above, (d 0).forward);
      low = (d 0).low;
      keys = λ h. (d h).keys;
      drained = drain-IsDrained fuel b₁ (omega arith);
      kept = λ h m. elim m [
        | inl q ↦ inl (omega (arith, (d 0).forward))
        | inr i ↦ elim (v.kept h i) [
          | inl l ↦ inl (omega (arith, (d 0).forward))
          | inr c ↦ (d h).kept c
        ]
      ];
      few = omega (arith, drain-length fuel b₁, v.few);
    }

-- A block ahead of its turn arrives while there is room.
store-Kept :
    (start : ℕ) (arrived : List ℕ) (b : BlockBuffer) (block : OrchestratorShardBlock)
    → b.expected < block.height
    → block.height < top
    → pos (suc (length arrived)) ≤ℤ b.max_buffer
    → Kept start arrived b
    → Kept start (block.height ∷ arrived) (store b block)
unfolding store
store-Kept start arrived b block l t room v = record {
  above = ground (arith, v.above);
  low = ground (arith, v.low);
  keys = λ h. ground (arith, stored h, v.keys h);
  drained = ground (arith, stored b.expected, v.drained);
  kept = λ h. ground (arith, stored h, v.kept h, v.few);
  few = ground (arith, v.few, length-insert_le block.height block b.buffered);
}
  where
    stored :
        (h : ℕ)
        → lookup h (insert block.height block b.buffered)
          ≡ (if block.height == h then some block else lookup h b.buffered)
    stored h = lookup-insert block.height h block b.buffered

-- A block of the past arrives.
old-Kept :
    (start : ℕ) (arrived : List ℕ) (b : BlockBuffer) (h : ℕ)
    → h < b.expected
    → Kept start arrived b
    → Kept start (h ∷ arrived) b
old-Kept start arrived b h l v = record {
  above = v.above;
  low = v.low;
  keys = v.keys;
  drained = v.drained;
  kept = λ k. ground (arith, v.kept k);
  few = omega (arith, v.few);
}

process_block-Kept :
    (start : ℕ) (arrived : List ℕ) (b : BlockBuffer) (block : OrchestratorShardBlock)
    → block.height < top
    → pos (suc (length arrived)) ≤ℤ b.max_buffer
    → Kept start arrived b
    → Kept start (block.height ∷ arrived) (process_block b block).0
unfolding process_block
process_block-Kept start arrived b block t room v = elim (Bool-cases (block.height == b.expected)) [
  | inl e ↦ rw e (release-Kept start arrived b block (eq→≡ block.height b.expected e) t v)
  | inr n ↦ elim (Bool-cases (ltb b.expected block.height)) [
    | inl l ↦ rw (n, l) (store-Kept start arrived b block (ground arith) t room v)
    | inr g ↦ rw (n, g) (old-Kept start arrived b block.height (ground arith) v)
  ]
]

abbrev pub heights : List OrchestratorShardBlock → List ℕ
heights = map (λ b. b.height)

process_all-Kept :
    (start : ℕ) (arrived : List ℕ) (b : BlockBuffer) (blocks : List OrchestratorShardBlock)
    → All (λ h. h < top) (heights blocks)
    → pos (length arrived + length blocks) ≤ℤ b.max_buffer
    → Kept start arrived b
    → (after : List ℕ) × Kept start after (process_all b blocks).0
      × ((h : ℕ) → In h arrived ⊎ In h (heights blocks) → In h after)
unfolding process_all
process_all-Kept start arrived b [] t room v = (arrived, v, λ h. ground arith)
process_all-Kept start arrived b (block ∷ rest) t room v =
    let b' : BlockBuffer = (process_block b block).0 in
    let (after, v', covers) =
      process_all-Kept start (block.height ∷ arrived) b' rest t.1
        (omega (
          arith,
          ap pos_part (process_block-max_buffer b block),
          ap neg_part (process_block-max_buffer b block),
        ))
        (process_block-Kept start arrived b block t.0 (omega arith) v) in
    (after, v', λ h. ground (arith, covers h))

-- Consecutive heights are all there, below a height that is not beyond the wrap.
Consecutive-In :
    (from to h : ℕ) (out : List OrchestratorShardBlock)
    → Consecutive from to out
    → from ≤ h
    → h < to
    → to ≤ top
    → In h (heights out)
Consecutive-In from to h [] c l u t = absurd (omega (arith, c))
Consecutive-In from to h (b ∷ bs) c l u t = elim (Bool-cases (from == h)) [
  | inl e ↦ inl (rw (c.0, eq→≡ from h e) refl)
  | inr n ↦ inr (Consecutive-In (u64 (from + 1)) to h bs c.1 (ground arith) u t)
]

-- Blocks arrive in any order, with any repetitions and any others among them, at a fresh buffer. If
-- every one of the `n` heights from its start has arrived, a block of each of these heights has been
-- released, and the buffer expects a height past them. This holds if no more blocks arrive than the
-- buffer may hold, and the start and all heights stay below the largest uint64.
pub process_all_complete :
    (shard_id : ℤ) (start n : ℕ) (max_buffer : ℤ) (blocks : List OrchestratorShardBlock)
    → start ≤ top
    → All (λ h. h < top) (heights blocks)
    → pos (length blocks) ≤ℤ max_buffer
    → ((h : ℕ) → start ≤ h → h < start + n → In h (heights blocks))
    → let (b', out) = process_all (new_block_buffer shard_id start max_buffer) blocks in
      ((h : ℕ) → start ≤ h → h < start + n → In h (heights out)) × (start + n ≤ b'.expected)
unfolding new_block_buffer lookup
process_all_complete shard_id start n max_buffer blocks s t room arrives =
    let b : BlockBuffer = new_block_buffer shard_id start max_buffer in
    let fresh : Kept start [] b = record {
      above = omega arith;
      low = s;
      keys = λ h c. cc;
      drained = refl;
      kept = λ h m. elim m [ ];
      few = omega arith;
    } in
    let (after, v, covers) = process_all-Kept start [] b blocks t (omega arith) fresh in
    let e : ℕ = (process_all b blocks).0.expected in
    let past : start + n ≤ e = elim (dec_le (start + n) e) [
      | yes done ↦ done
      | no short ↦ elim (v.kept e (covers e (inr (arrives e v.above (omega arith))))) [
        | inl absurd_lt ↦ absurd (omega arith)
        | inr waits ↦ cc (v.drained)
      ]
    ] in
    let out = (process_all b blocks).1 in
    let in_order = process_all-Consecutive b blocks (λ h block c. cc) in
    (λ h l u. Consecutive-In start e h out in_order l (omega (arith, past)) v.low, past)
