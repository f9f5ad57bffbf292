-- ===== src/PacketsBuffer.antt =====
-- `struct PacketsBuffer_s` of pandarGeneral_internal.h: the ring of 36000 packets between the
-- receiving thread (`push_back`) and the processing thread (`hasEnoughPackets`, `moveIterCalc`).
-- The array is a function of the index; an iterator is its index, and `end()` is index 36000.
pub mod Invariant
pub mod Fifo
use go2_setup.Shared.{
  ℕ, ◌+◌, ◌-◌, ◌<◌, Bool, true, false, ◌&&◌, ◌||◌, Option, none, some, ltb, ◌==◌, if◌then◌else◌,
  update,
}

-- `PktArray` has 36000 elements, and `end()` is this index.
abbrev pub capacity : ℕ
capacity = 36000

pub record PacketsBuffer {ℓ} (A : Type ℓ) : Type ℓ where
  pub buffers : ℕ → A
  pub iter_push : ℕ
  pub iter_calc : ℕ
  pub start_flag : Bool

module _ {ℓ} {A : Type ℓ} where
  -- The constructor: both iterators at `begin()`. The argument is the array's initial contents.
  unfoldable pub init : (ℕ → A) → PacketsBuffer A
  init slots = record { buffers = slots; iter_push = 0; iter_calc = 0; start_flag = false }

  -- The buffer after the call, and the number that the call returns.
  unfoldable pub push_back : PacketsBuffer A → A → PacketsBuffer A × ℕ
  push_back b pkt =
      let next = b.iter_push + 1 in
      if b.start_flag
      then (if next == b.iter_calc
          then (record b { iter_push = next }, 0)
          else if capacity == next
          then (record b { iter_push = 0; buffers = update b.buffers 0 pkt }, 1)
          else (record b { iter_push = next; buffers = update b.buffers next pkt }, 1))
      else (record b { buffers = update b.buffers b.iter_push pkt; start_flag = true }, 1)

  -- The second case is the reader near the end with the writer just past the start.
  unfoldable pub has_enough_packets : PacketsBuffer A → Bool
  has_enough_packets b =
      ltb b.iter_calc b.iter_push
      || (ltb b.iter_calc (b.iter_push + capacity)
          && ltb (capacity - b.iter_calc) 1000
          && ltb b.iter_push 1000)

  unfoldable pub move_iter_calc : PacketsBuffer A → PacketsBuffer A
  move_iter_calc b =
      let next = b.iter_calc + 1 in
      if capacity == next then record b { iter_calc = 0 } else record b { iter_calc = next }

  -- The reader's part of one round of `ProcessLiarPacket`: the packet at `m_iterCalc`, if any.
  unfoldable pub poll : PacketsBuffer A → PacketsBuffer A × Option A
  poll b =
      if has_enough_packets b then (move_iter_calc b, some (b.buffers b.iter_calc)) else (b, none)
