-- ===== src/Random/Examples.antt =====
-- A step of src/runtime/random.c.
use ssr.Base.{◌+◌, ◌*◌, ◌^◌, ◌<◌, ◌≡◌, arith}
use ssr.Random.{Rnd, nbd_rand}
use ssr.Random.Carry.{nbd_rand-carry}

abbrev seed : Rnd
seed = record { rx = 1; ry = 2; rz = 3; rc = 3 }

nbd_rand-carry_example :
    ((nbd_rand seed).1.rc * 2 ^ 32 + (nbd_rand seed).1.rz ≡ seed.rz * 698769069 + seed.rc)
    × ((nbd_rand seed).1.rz < 2 ^ 32)
    × ((nbd_rand seed).1.rc < 698769070)
nbd_rand-carry_example = nbd_rand-carry seed (omega arith) (omega arith)
