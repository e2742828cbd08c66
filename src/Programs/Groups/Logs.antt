-- ===== src/Programs/Groups/Logs.antt =====
-- lib/mp_multigroup.c on the devices of several groups.
use aosv_project.Prelude.{ℕ, List}
use aosv_project.Prelude.Bytes.{replicate}
use aosv_project.Programs.Workers.{here_text}

-- The messages of the child with the number `i`.
abbrev pub texts_of : (tids : ℕ → ℕ) → ℕ → List (List ℕ)
texts_of tids i = replicate i (here_text (tids i))
