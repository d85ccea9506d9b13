-- ===== src/Kernel/Boot/Running.antt =====
-- The processes from the start on.
use linux_operating_system.Prelude.{ℕ}
use linux_operating_system.Kernel.{Kernel}
use linux_operating_system.Kernel.Boot.Start.{Machine, Setup, initialise}
use linux_operating_system.Kernel.Boot.Ready.{initialise-IsForest}
use linux_operating_system.Kernel.Forest.{IsForest}
use linux_operating_system.Kernel.Forest.Reach.{Reach, Reach-IsForest}

-- In every state that the kernel gets to from the one in which entry executes the first shell, by
-- interrupts, exceptions and system calls in any order, each of which runs to its end before the next one
-- begins, and where read and getargs are given buffers in the program's page: next_p_id and total_progs count the processes, six at
-- most; the block of each has its number, its parent's block and number and its kernel stack; each
-- terminal's slot holds its last process or NULL; and that of the running terminal is the current one,
-- with its page and its kernel stack in place.
pub initialise-Reach :
    (u : Setup) (addr : ℕ) (b : Machine) (k : Kernel)
    → Reach (initialise u addr b).kernel k
    → IsForest k
initialise-Reach u addr b k r = Reach-IsForest (initialise-IsForest u addr b) r
