-- ===== src/PacketsBuffer/Invariant.antt =====
-- The iterators of `PacketsBuffer_s`, and the packets that it holds as a list.
use go2_setup.Shared.{
  ℕ, zero, suc, ◌⊎◌, ◌+◌, ◌-◌, ◌%◌, ◌<◌, ◌≤◌, ◌≡◌, refl, ap, true, List, [], ◌∷◌, ◌++◌, arith,
  length, update, if◌then◌else◌, ap₂,
}
use go2_setup.PacketsBuffer.{
  PacketsBuffer, capacity, init, push_back, has_enough_packets, move_iter_calc, poll,
}

module _ {ℓ} {A : Type ℓ} where
  -- No iterator stands at `end()`, so each may be dereferenced, and before the first packet both
  -- stand at one slot.
  pub record IsValid (b : PacketsBuffer A) : Type 0 where
    pub push_in : b.iter_push < capacity
    pub calc_in : b.iter_calc < capacity
    pub idle : (b.start_flag ≡ true) ⊎ (b.iter_push ≡ b.iter_calc)

  pub init-IsValid : (slots : ℕ → A) → IsValid (init slots)
  unfolding init
  init-IsValid slots = ground arith

  -- How many steps the reader is behind the writer, going round the array.
  abbrev pub lag : PacketsBuffer A → ℕ
  lag b = (b.iter_push + capacity - b.iter_calc) % capacity

  -- `n` packets from slot `h` on, going round the array.
  abbrev pub window : (ℕ → A) → ℕ → ℕ → List A
  window f h zero = []
  window f h (suc n) = f h ∷ window f ((h + 1) % capacity) n

  -- The packets that were pushed and not yet taken, oldest first: those from `m_iterCalc` up to and
  -- with the one at `m_iterPush`.
  abbrev pub held : PacketsBuffer A → List A
  held b = if b.start_flag then window b.buffers b.iter_calc (suc (lag b)) else []

  pub length-window : (f : ℕ → A) (h n : ℕ) → length (window f h n) ≡ n
  length-window f h zero = refl
  length-window f h (suc n) = ap suc (length-window f ((h + 1) % capacity) n)

  -- A write outside a window leaves it alone.
  window-update_far :
      (f : ℕ → A) (x : A) (n h i : ℕ)
      → h < capacity
      → i < capacity
      → n ≤ (i + capacity - h) % capacity
      → window (update f i x) h n ≡ window f h n
  window-update_far f x zero h i hh hi far = refl
  window-update_far f x (suc n) h i hh hi far =
      ap₂ ◌∷◌ (ground arith)
        (window-update_far f x n ((h + 1) % capacity) i (omega arith) hi (omega arith))

  -- A write just behind a window extends it.
  pub window-update_end :
      (f : ℕ → A) (x : A) (n h i : ℕ)
      → h < capacity
      → n < capacity
      → i ≡ (h + n) % capacity
      → window (update f i x) h (suc n) ≡ window f h n ++ (x ∷ [])
  window-update_end f x zero h i hh hn e = ground arith
  window-update_end f x (suc n) h i hh hn e =
      ap₂ ◌∷◌ (ground arith)
        (window-update_end f x n ((h + 1) % capacity) i (omega arith) (omega arith) (omega arith))

  -- `push_back` keeps a valid state valid on every branch: both iterators stay inside the array,
  -- and until the first push they stand together.
  pub push_back-IsValid : {b : PacketsBuffer A} (x : A) → IsValid b → IsValid (push_back b x).0
  unfolding push_back
  push_back-IsValid x v = ground arith

  -- A round of the reader keeps a valid state valid, whether it takes a packet or not.
  pub poll-IsValid : {b : PacketsBuffer A} → IsValid b → IsValid (poll b).0
  unfolding poll move_iter_calc has_enough_packets
  poll-IsValid {b} v = ground arith
