-- ===== src/BufferedFile/Delivered.antt =====
-- What a file has delivered when it is closed.
use mathlib.Core.Path.{subst}
use paramiko.Base.{
  ◌<◌, ◌≡◌, refl, sym, ap, ◌∙◌, true, false, List, [], ◌∷◌, ◌++◌, Bytes, length, append_assoc,
  append-nil, Option, none, some, arith, Result, ok, err,
}
use paramiko.BufferedFile.State.{BufferedFile, concat}
use paramiko.BufferedFile.Reading.{Device}
use paramiko.BufferedFile.Writing.{
  WritesSome, write_all, set_wbuffer, flush, write, close, writelines,
}
use paramiko.BufferedFile.Settled.{IsSettled}
use paramiko.BufferedFile.Kept.{written, Writes, write_all-Writes, Kept, IsKept, write-IsKept}

module _ {S : Type 0} (device : Device S) where
  -- A closed file whose bytes have all gone to the stream.
  abbrev pub IsDelivered : Bytes → Option (BufferedFile × S) → Type 0
  IsDelivered b none = ⊥
  IsDelivered b (some (f', s')) = (device.sink s' ≡ b) × (f'.wbuffer ≡ []) × (f'.closed ≡ true)

  -- What is closed after lines have been written.
  abbrev pub IsDeliveredAfter : Bytes → Result (Option (BufferedFile × S)) → Type 0
  IsDeliveredAfter b (err e) = ⊥
  IsDeliveredAfter b (ok none) = ⊥
  IsDeliveredAfter b (ok (some (f', s'))) = IsDelivered b (close device f' s')

  module _ (promise : WritesSome device) where
    Kept-again :
        (b c : Bytes) (f g : BufferedFile) (s t : S) (r : Result (Option (BufferedFile × S)))
        → Kept device b f s g t
        → IsKept device c g t r
        → IsKept device (b ++ c) f s r
    Kept-again b c f g s t (err e) h k = k
    Kept-again b c f g s t (ok none) h k = k
    Kept-again b c f g s t (ok (some (f', s'))) h k = record {
      whole = k.whole ∙ ap (λ l. l ++ c) h.whole ∙ append_assoc (written device f s) b c;
      settled = k.settled;
      same = k.same ∙ h.same;
    }

    writelines-IsKept :
        (sequence : List Bytes) (f : BufferedFile) (s : S)
        → f.closed ≡ false
        → f.flag_write ≡ true
        → 0 < f.bufsize
        → IsSettled f
        → IsKept device (concat sequence) f s (writelines device sequence f s)
    unfolding writelines
    writelines-IsKept [] f s open_ writing blocks settled = record {
      whole = sym (append-nil (written device f s));
      settled = settled;
      same = refl;
    }
    writelines-IsKept (line ∷ sequence) f s open_ writing blocks settled =
        let later = writelines-IsKept sequence in
        elim (write device line f s)
            as (λ r.
              IsKept device line f s r
              → IsKept device (concat (line ∷ sequence)) f s (elim r [
                | err e ↦ err e
                | ok none ↦ ok none
                | ok (some (f', s')) ↦ writelines device sequence f' s'
              ])) [
                | err e ↦ λ h. h
                | ok none ↦ λ h. h
                | ok (some (f', s')) ↦ λ h. Kept-again line (concat sequence) f f' s s' _ h (
                    later f' s' (ap (λ m. m.0) h.same ∙ open_) (ap (λ m. m.1) h.same ∙ writing)
                      (omega (arith, blocks, ap (λ m. m.4) h.same)) h.settled)
              ]
          (write-IsKept device promise line f s open_ writing blocks settled)

    close-IsDelivered :
        (f : BufferedFile) (s : S) → IsDelivered (written device f s) (close device f s)
    unfolding close flush set_wbuffer
    close-IsDelivered f s =
        elim (write_all device (length f.wbuffer) f.wbuffer f s)
            as (λ o.
              Writes device f.wbuffer f s o
              → IsDelivered (written device f s) (elim (set_wbuffer device [] o) [
                | none ↦ none
                | some (f', s') ↦ some (record f' { closed = true }, s')
              ])) [ none ↦ λ h. h | some (f', s') ↦ λ h. (h.sent, refl, refl) ]
          (write_all-Writes device promise (length f.wbuffer) f.wbuffer f s (omega arith))

    -- Over a stream that takes some of what it is given, from the front, `writelines` ends without an
    -- exception, and a `close` behind it ends too: the stream has then been given, behind what it had
    -- and what was in the buffer, all the lines in their order, each byte once, whatever the mode of
    -- buffering; nothing is left in the buffer, and the file is closed. The file is open, open for
    -- writing and settled, and the block size is not zero.
    pub writelines-close-IsDelivered :
        (sequence : List Bytes) (f : BufferedFile) (s : S)
        → f.closed ≡ false
        → f.flag_write ≡ true
        → 0 < f.bufsize
        → IsSettled f
        → IsDeliveredAfter (written device f s ++ concat sequence) (writelines device sequence f s)
    writelines-close-IsDelivered sequence f s open_ writing blocks settled =
        elim (writelines device sequence f s)
            as (λ r.
              IsKept device (concat sequence) f s r
              → IsDeliveredAfter (written device f s ++ concat sequence) r) [
                | err e ↦ λ h. h
                | ok none ↦ λ h. h
                | ok (some (f', s')) ↦ λ h.
                    subst (λ b. IsDelivered b (close device f' s')) h.whole
                      (close-IsDelivered f' s')
              ]
          (writelines-IsKept sequence f s open_ writing blocks settled)
