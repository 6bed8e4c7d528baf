-- ===== src/Random.antt =====
-- src/runtime/random.c: the generator of one thread. The seed is read from /dev/urandom.
pub mod Carry
pub mod Examples
use ssr.Base.{ℕ, ◌+◌, ◌*◌, ◌/◌, ◌^◌, u32, u64}
use Prim.Native.Nat.{bit_xor}

-- The thread-local `rx_`, `ry_`, `rz_` and `rc_`.
pub record Rnd : Type 0 where
  pub rx : ℕ
  pub ry : ℕ
  pub rz : ℕ
  pub rc : ℕ

-- The end of `rnd_thread_init`, from the four words that were read on.
pub rnd_thread_init : (x y z c : ℕ) → Rnd
rnd_thread_init x y z c = record { rx = x; ry = y; rz = z; rc = z }

-- The shift register.
pub xor_shift : ℕ → ℕ
xor_shift ry =
    let a = bit_xor ry (u32 (ry * 2 ^ 13)) in
    let b = bit_xor a (a / 2 ^ 17) in bit_xor b (u32 (b * 2 ^ 5))

pub nbd_rand : Rnd → ℕ × Rnd
unfolding xor_shift
nbd_rand rnd =
    let rx = u32 (69069 * rnd.rx + 12345) in
    let ry = xor_shift rnd.ry in
    let t = u64 (rnd.rz * 698769069 + rnd.rc) in
    let r = u64 (u32 (rx + ry) + t) in
    (r, record { rx = rx; ry = ry; rz = u32 t; rc = u32 (t / 2 ^ 32) })
