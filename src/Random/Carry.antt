-- ===== src/Random/Carry.antt =====
-- The multiply-with-carry generator in src/runtime/random.c.
use ssr.Base.{◌+◌, ◌*◌, ◌^◌, ◌<◌, ◌≡◌, arith}
use ssr.Random.{Rnd, nbd_rand}

-- From words of 32 bits, the multiply-with-carry part of nbd_rand loses nothing: the new rz_ and
-- rc_ are the halves of rz_ * 698769069 + rc_, and the new carry is at most the multiplier.
pub nbd_rand-carry :
    (rnd : Rnd)
    → rnd.rz < 2 ^ 32
    → rnd.rc < 2 ^ 32
    → ((nbd_rand rnd).1.rc * 2 ^ 32 + (nbd_rand rnd).1.rz ≡ rnd.rz * 698769069 + rnd.rc)
      × ((nbd_rand rnd).1.rz < 2 ^ 32)
      × ((nbd_rand rnd).1.rc < 698769070)
unfolding nbd_rand
nbd_rand-carry rnd lz lc = (omega arith, omega arith, omega arith)
