-- ===== src/File/Tests.antt =====
-- A table with one open file, at place 0.
use mitcppos.Prelude.{ℕ, ◌≡◌, refl, true, false, Option, none, some, ◌==◌, if◌then◌else◌}
use mitcppos.File.{Ftable, filealloc, filealloc_loop, fd_none}

abbrev one_file : Ftable
one_file = λ f. record {
  type = fd_none;
  ref = if f == 0 then 1 else 0;
  readable = true;
  writable = false;
  pipe = 0;
  ip = 0;
  off = 0;
  major = 0;
}

abbrev number : Option (ℕ × Ftable) → Option ℕ
number none = none
number (some (f, t)) = some f

first_free : number (filealloc one_file) ≡ some 1
unfolding filealloc filealloc_loop
first_free = refl
