-- ===== src/Records/Laws.antt =====
-- What is written is read back.
use ocolos_public.Prelude.{ℕ, ◌^◌, ◌<◌, ◌≡◌, ◌++◌, some, Bytes, arith}
use ocolos_public.Records.{put_long, get_long}

pub get_long-put_long :
    (n : ℕ) (rest : Bytes) → n < 2 ^ 64 → get_long (put_long n ++ rest) ≡ some (n, rest)
unfolding put_long get_long
get_long-put_long n rest h = ground arith
