-- ===== src/Tests/Stdin.antt =====
-- `read_stdin` at a concrete input.
use diary.Prelude.{◌≡◌, true, [], some, codes}
use diary.Client.Stdin.{Buffer, Holds, read_stdin, read_stdin_lem}

read_stdin_lem_example :
    (b : Buffer) × (read_stdin true [] (codes "dear diary") ≡ some b) × Holds (codes "dear diary") b
read_stdin_lem_example = read_stdin_lem (codes "dear diary")
