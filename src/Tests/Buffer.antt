-- ===== src/Tests/Buffer.antt =====
-- The packet buffer at concrete states.
use go2_setup.Shared.{ℕ, ◌<◌, ◌≡◌, refl, true, false, arith, length, none, inl, inr}
use go2_setup.PacketsBuffer.{PacketsBuffer, capacity, push_back, poll}
use go2_setup.PacketsBuffer.Invariant.{IsValid, lag, held}
use go2_setup.PacketsBuffer.Fifo.{push_back_overflow, poll_stalls}

-- Numbers for packets; slot i holds i.
abbrev started : ℕ → ℕ → PacketsBuffer ℕ
started p c = record { buffers = λ i. i; iter_push = p; iter_calc = c; start_flag = true }

abbrev empty_buffer : PacketsBuffer ℕ
empty_buffer = record { buffers = λ i. i; iter_push = 0; iter_calc = 0; start_flag = false }

started-IsValid : (p c : ℕ) → p < capacity → c < capacity → IsValid (started p c)
started-IsValid p c hp hc = record { push_in = hp; calc_in = hc; idle = inl refl }

empty-IsValid : IsValid empty_buffer
empty-IsValid = record { push_in = omega arith; calc_in = omega arith; idle = inr refl }

push_back_overflow_example :
    (length (held (push_back (started 35999 0) 7).0) ≡ 1)
    × (poll (push_back (started 35999 0) 7).0 ≡ ((push_back (started 35999 0) 7).0, none))
    × ((push_back (started 35999 0) 7).1 ≡ 1)
push_back_overflow_example =
    push_back_overflow 7 (started-IsValid 35999 0 (omega arith) (omega arith)) refl (omega arith)

poll_stalls_example :
    (0 < lag (started 10 20000)) × (poll (started 10 20000) ≡ (started 10 20000, none))
poll_stalls_example =
    poll_stalls (started-IsValid 10 20000 (omega arith) (omega arith)) (omega arith) (omega arith)
