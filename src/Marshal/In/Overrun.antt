-- ===== src/Marshal/In/Overrun.antt =====
-- The length test of unmarshall::rawbytes wraps around, and then reads outside of the buffer.
use mit6_824_2012spring_yfs.Prelude.{ℕ, ◌+◌, ◌^◌, ◌≤◌, ◌<◌, ◌≡◌, ◌↔◌, none, arith, u32}
use mit6_824_2012spring_yfs.Marshal.In.{Unmarshall, rawbytes}

-- On an object whose head is in its buffer, a read of `n` bytes for a 32-bit `n` leaves the buffer
-- exactly when the sum of the head position and `n` does not fit 32 bits and wraps to a position
-- inside of the buffer; otherwise the read is refused or stays in the buffer.
pub rawbytes_overrun :
    (u : Unmarshall) (n : ℕ)
    → u.ind ≤ u.sz
    → u.sz < 2 ^ 31
    → n < 2 ^ 32
    → (rawbytes n u ≡ none) ↔ ((2 ^ 32 ≤ u.ind + n) × (u32 (u.ind + n) ≤ u.sz))
unfolding rawbytes
rawbytes_overrun u n i s h = (λ e. ground arith, λ e. ground arith)
