-- ===== src/Hw/Cpu/Laws.antt =====
-- Boost: what is written is read back.
use legion_linux_toolkit_rus.Prelude.{Bool, ◌≡◌, some}
use legion_linux_toolkit_rus.Prelude.Result.{ok}
use legion_linux_toolkit_rus.Hw.Sysfs.{Sysfs, Kernel}
use legion_linux_toolkit_rus.Hw.Sysfs.Laws.{IsAttribute}
use legion_linux_toolkit_rus.Hw.Ideapad.Laws.{bit-write}
use legion_linux_toolkit_rus.Hw.Cpu.{boost_file, get_boost, set_boost}

-- Where `boost` is an attribute that keeps what is written, boost reads as it was set once a write
-- of it succeeds.
pub get_boost-set_boost :
    (K : Kernel) (on : Bool) (root : Sysfs)
    → IsAttribute K boost_file
    → (set_boost K on root).0 ≡ ok tt
    → get_boost (set_boost K on root).1 ≡ some on
unfolding get_boost set_boost
get_boost-set_boost K on root A h = bit-write K boost_file on root A h
