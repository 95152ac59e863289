-- ===== src/SeqFile/Loading.antt =====
-- Loading and unloading lab4_seq_file leaves nothing behind.
use os_bmstu.Common.{ℕ, ◌≡◌, ◌≢◌, ◌⊎◌, true, arith}
use os_bmstu.ProcFs.{Calls, nothing}
use os_bmstu.SeqFile.{enomem, fortune_init, fortune_exit}

-- Whichever calls fail: a load that fails returns -ENOMEM and has given back all that it took; a
-- load that succeeds holds the /proc file and one block, and unloading gives back everything.
pub fortune_init_exit :
    (page : ℕ) (calls : Calls)
    → let (result, held) = fortune_init page calls nothing in
      ((result ≡ enomem) × (held ≡ nothing))
      ⊎ ((result ≢ enomem)
          × (held.file ≡ true)
          × (held.blocks ≡ 1)
          × (fortune_exit true held ≡ nothing))
unfolding fortune_init fortune_exit
fortune_init_exit page calls = ground arith
