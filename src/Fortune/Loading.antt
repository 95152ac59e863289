-- ===== src/Fortune/Loading.antt =====
-- Loading and unloading the fortune module of lab4_2 leaves nothing behind.
use os_bmstu.Common.{ℕ, ◌≡◌, ◌≢◌, ◌⊎◌, true, arith}
use os_bmstu.ProcFs.{Calls, nothing}
use os_bmstu.Fortune.{enomem, init_fortune_module, exit_fortune_module}

-- Whichever calls fail: a load that fails returns -ENOMEM and has given back all that it took; a
-- load that succeeds holds the /proc file and one block, and unloading gives back everything.
pub init_exit :
    (page : ℕ) (calls : Calls)
    → let (result, held) = init_fortune_module page calls nothing in
      ((result ≡ enomem) × (held ≡ nothing))
      ⊎ ((result ≢ enomem)
          × (held.file ≡ true)
          × (held.blocks ≡ 1)
          × (exit_fortune_module true true held ≡ nothing))
unfolding init_fortune_module exit_fortune_module
init_exit page calls = ground arith
