-- ===== src/Examples/Files.antt =====
-- Files over a stream that gives two bytes at a time and takes three.
use paramiko.Base.{
  ℕ, suc, ◌≡◌, refl, [], ◌∷◌, ◌++◌, Bytes, length, take, drop, length-take, take-append-drop, min,
  pos, none, some, arith,
}
use paramiko.BufferedFile.State.{BufferedFile, init, has, set_bufsize, set_mode}
use paramiko.BufferedFile.Reading.{Device, ReadsInOrder, read}
use paramiko.BufferedFile.Lines.{readline, readlines}
use paramiko.BufferedFile.Writing.{WritesSome, write, writelines}
use paramiko.BufferedFile.Exact.{IsRead, read-IsRead}
use paramiko.BufferedFile.Lined.{IsLine, readline-IsLine}
use paramiko.BufferedFile.Split.{IsSplit, readlines-IsSplit}
use paramiko.BufferedFile.Kept.{IsKept, write-IsKept}
use paramiko.BufferedFile.Delivered.{IsDeliveredAfter, writelines-close-IsDelivered}

-- What is still to come, and what has gone.
abbrev Stream : Type 0
Stream = Bytes × Bytes

abbrev slow : Device Stream
slow = record {
  read_some = λ n s. (take (min n 2) s.0, (drop (min n 2) s.0, s.1));
  write_some = λ b s. (min (length b) 3, (s.0, s.1 ++ take (min (length b) 3) b));
  remaining = λ s. s.0;
  sink = λ s. s.1;
}

none_left : (n : ℕ) (b : Bytes) → length (take (min (suc n) 2) b) ≡ 0 → b ≡ []
none_left n [] h = refl
none_left n (x ∷ b) h =
    let taken = length-take (min (suc n) 2) (x ∷ b) in absurd (omega (arith, taken, h))

slow-ReadsInOrder : ReadsInOrder slow
slow-ReadsInOrder = record {
  in_order = λ n s. take-append-drop (min n 2) s.0;
  within = λ n s. let taken = length-take (min n 2) s.0 in omega (arith, taken);
  ends = λ n s h. none_left n s.0 h;
}

slow-WritesSome : WritesSome slow
slow-WritesSome = record {
  takes_front = λ b s. refl;
  at_most = λ b s. omega arith;
  takes_some = λ b s h. omega (arith, h);
}

-- "ab\ncd" in two streams.
abbrev two_lines : Stream
two_lines = (97 ∷ 98 ∷ 10 ∷ 99 ∷ 100 ∷ [], [])

-- The modes "r", and "w" with line buffering and with blocks of four.
abbrev reader : BufferedFile
reader = set_mode (114 ∷ []) (pos 4) 0 init

abbrev line_writer : BufferedFile
line_writer = set_mode (119 ∷ []) (pos 1) 0 init

abbrev block_writer : BufferedFile
block_writer = set_mode (119 ∷ []) (pos 4) 0 init

read-IsRead_example : IsRead slow (some 3) reader two_lines (read slow 9 (some 3) reader two_lines)
unfolding set_mode set_bufsize init has
read-IsRead_example =
    read-IsRead slow slow-ReadsInOrder 9 (some 3) reader two_lines refl refl refl (omega arith)

readline-IsLine_example : IsLine slow none reader two_lines (readline slow 9 none reader two_lines)
unfolding set_mode set_bufsize init has
readline-IsLine_example =
    readline-IsLine slow slow-ReadsInOrder 9 none reader two_lines refl refl refl (omega arith) refl
      (omega arith)

readlines-IsSplit_example :
    IsSplit slow [] (97 ∷ 98 ∷ 10 ∷ 99 ∷ 100 ∷ []) (readlines slow 9 9 none reader two_lines)
unfolding set_mode set_bufsize init has
readlines-IsSplit_example =
    readlines-IsSplit slow slow-ReadsInOrder 9 9 reader two_lines refl refl refl (omega arith) refl
      (omega arith) (omega arith)

write-IsKept_example :
    IsKept slow
      (97 ∷ 10 ∷ 98 ∷ [])
      line_writer
      ([], [])
      (write slow (97 ∷ 10 ∷ 98 ∷ []) line_writer ([], []))
unfolding set_mode set_bufsize init has
write-IsKept_example =
    write-IsKept slow slow-WritesSome (97 ∷ 10 ∷ 98 ∷ []) line_writer ([], []) refl refl
      (omega arith) refl

writelines-close-IsDelivered_example :
    IsDeliveredAfter slow
      (7 ∷ 97 ∷ 10 ∷ 98 ∷ 99 ∷ 10 ∷ [])
      (writelines slow ((97 ∷ 10 ∷ []) ∷ (98 ∷ 99 ∷ 10 ∷ []) ∷ []) block_writer ([], 7 ∷ []))
unfolding set_mode set_bufsize init has
writelines-close-IsDelivered_example =
    writelines-close-IsDelivered slow slow-WritesSome ((97 ∷ 10 ∷ []) ∷ (98 ∷ 99 ∷ 10 ∷ []) ∷ [])
      block_writer ([], 7 ∷ []) refl refl (omega arith) (omega arith)
