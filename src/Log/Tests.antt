-- ===== src/Log/Tests.antt =====
-- A transaction of two blocks, cut off by a power failure, and the theorems of the log there.
use mitcppos.Prelude.{◌+◌, ℕ, ◌≡◌, refl, ◌⊎◌, arith, true, [], ◌∷◌}
use mitcppos.Mem.{load_le, store_le}
use mitcppos.Log.{
  Disk, Log, Run, done, asleep, crashed, panicked, update, commit, recover_from_log, reboot, bwrite,
  begin_op, end_enter, header, set_header, get_blocks, put_blocks, install_loop, install_trans,
  write_log_loop, write_log, write_head, read_head, max_op_blocks,
}
use mitcppos.Log.Header.{header-set_header}
use mitcppos.Log.Recover.{Clean}
use mitcppos.Log.Crash.{Ready, after, finished, crash_atomicity, Either, commit_lem}
use mitcppos.Log.Loops.{Ensures}
use mitcppos.Log.Total.{commit_writes, commit-Returns}
use mitcppos.Log.Allowance.{sum}
use mitcppos.Log.Reserve.{System, system, Reserved, here, next, begins, Allowed, Reach-Allowed}

-- The log is the 31 blocks from block 2 on. Blocks 50 and 60 are to become 7s and 8s.
abbrev changed : ℕ → Log
changed n = record {
  disk = λ _ _. 0;
  view = update (update (λ _ _. 0) 50 (λ _. 7)) 60 (λ _. 8);
  pins = λ _. 1;
  blocks = 50 ∷ 60 ∷ [];
  outstanding = 0;
  committing = true;
  budget = n;
}

abbrev disk_of : Run → Disk
disk_of (done s) = s.disk
disk_of (asleep s) = s.disk
disk_of (crashed d) = d
disk_of (panicked p) = λ _ _. 0

changed-Ready : (n : ℕ) → Ready 2 31 (changed n)
unfolding header get_blocks load_le
changed-Ready n = record {
  empty = refl;
  home = λ c h. ground arith;
  words = omega arith;
  fits = omega arith;
  small = omega arith;
}

-- The power fails after the header is written and block 50 installed.
abbrev cut_off : Disk
cut_off = disk_of (commit 2 (changed 4))

abbrev recovered : Disk
recovered = disk_of (recover_from_log 2 (reboot cut_off 9))

new_contents : (recovered 50 3 ≡ 7) × (recovered 60 3 ≡ 8) × (recovered 70 3 ≡ 0)
unfolding commit recover_from_log reboot bwrite install_loop install_trans write_log_loop write_log
    write_head read_head header set_header get_blocks put_blocks load_le store_le
new_contents = (refl, refl, refl)

crash_atomicity_example :
    Clean 2 31 (changed 4).disk recovered ⊎ Clean 2 31 (after 2 31 (changed 4)) recovered
unfolding commit recover_from_log reboot bwrite install_loop install_trans write_log_loop write_log
    write_head read_head header set_header get_blocks put_blocks load_le store_le
crash_atomicity_example =
    crash_atomicity 2 31 (changed 4) cut_off recovered (changed-Ready 4) refl (finished 9 refl)

commit_lem_example :
    Ensures
      (Either 2 31 (changed 4))
      (λ s'. Clean 2 31 (after 2 31 (changed 4)) s'.disk)
      (commit 2 (changed 4))
commit_lem_example = commit_lem 2 31 (changed 4) (changed-Ready 4)

commit-Returns_example :
    (s' : Log) × (commit 2 (changed 6) ≡ done s')
    × (s'.blocks ≡ [])
    × (s'.budget + commit_writes 2 ≡ 6)
commit-Returns_example = commit-Returns 2 (changed 6) (omega arith)

header-set_header_example : header (set_header (50 ∷ 60 ∷ []) (λ _. 9)) ≡ 50 ∷ 60 ∷ []
header-set_header_example = header-set_header (50 ∷ 60 ∷ []) (λ _. 9) (omega arith) (omega arith)

abbrev started : Log
started = reboot (λ _ _. 0) 100

started-Reserved : Reserved (system started [])
unfolding reboot sum
started-Reserved = record { counted = refl; room = omega arith; each = tt; quiet = λ e. refl }

abbrev log_of : Run → Log
log_of (done s) = s
log_of _ = started

abbrev one_op : System
one_op = system (log_of (begin_op started)) (max_op_blocks ∷ [])

Reach-Allowed_example : Allowed 30 50 one_op.log 10 × ((u : Log) × (end_enter one_op.log ≡ done u))
unfolding begin_op reboot
Reach-Allowed_example =
    Reach-Allowed {start = 2} {size = 30} 0 10 50 (omega arith) started-Reserved
      (next here (begins refl)) refl
