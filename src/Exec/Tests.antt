-- ===== src/Exec/Tests.antt =====
-- One argument, "hi" at 100, for a stack from 4096 to 8192.
use mitcppos.Prelude.{◌≡◌, refl, ◌==◌, if◌then◌else◌, arith}
use mitcppos.Kalloc.{Kmem}
use mitcppos.Exec.{maxarg, push, push_args}
use mitcppos.Exec.Stack.{Ends, push_args-Ends}

abbrev one_arg : Kmem
one_arg = record {
  mem = λ a. if a == 0 then 100 else (if a == 100 then 104 else (if a == 101 then 105 else 0));
  freelist = 0;
}

push_three : push 8192 3 ≡ 8176
push_three = refl

push_args-Ends_example :
    Ends 10 4096 0 4096 8192 one_arg (push_args maxarg 10 4096 0 4096 0 8192 (λ _. 0) one_arg)
push_args-Ends_example =
    push_args-Ends 10 4096 0 4096 8192 one_arg (omega arith) (omega arith) (omega arith)
