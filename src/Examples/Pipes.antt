-- ===== src/Examples/Pipes.antt =====
-- Buffered pipes at concrete inputs.
use paramiko.Base.{ℕ, ◌≡◌, ◌≢◌, refl, Bool, true, false, List, [], ◌∷◌, ◌++◌, Bytes, none, some}
use paramiko.BufferedPipe
use paramiko.BufferedPipe.{
  BufferedPipe, signal, set_event, feed, read, read_woken, empty, close, received, blocked,
}
use paramiko.BufferedPipe.Laws.{ReadSpec, WokenSpec, read-ReadSpec, Signals, Signals-kept}
use paramiko.BufferedPipe.Fifo.{Call, feed_call, read_call, close_call, call, run, run_fifo}

abbrev calls : List Call
calls =
    feed_call (1 ∷ 2 ∷ 3 ∷ [])
    ∷ read_call false 2
    ∷ close_call
    ∷ feed_call (4 ∷ [])
    ∷ read_call true 9
    ∷ []

calls-run :
    run calls BufferedPipe.new
    ≡ (1 ∷ 2 ∷ 3 ∷ 4 ∷ [], record { buffer = []; closed = true; event = none })
unfolding run call feed read close BufferedPipe.take_buffered
calls-run = refl

run_fifo_example :
    (run calls BufferedPipe.new).0 ++ (run calls BufferedPipe.new).1.buffer ≡ 1 ∷ 2 ∷ 3 ∷ 4 ∷ []
run_fifo_example = run_fifo calls BufferedPipe.new

abbrev two_bytes : BufferedPipe
two_bytes = record { buffer = 7 ∷ 8 ∷ []; closed = false; event = some true }

read-ReadSpec_example :
    ReadSpec true 1 two_bytes (read true 1 two_bytes)
    × WokenSpec false 1 two_bytes (read_woken false 1 two_bytes)
read-ReadSpec_example = read-ReadSpec true false 1 two_bytes

Signals-kept_example :
    Signals (set_event two_bytes)
    × Signals (close two_bytes)
    × ((bytes : Bytes) → bytes ≢ [] → Signals (feed bytes two_bytes))
    × ((no_wait : Bool) (n : ℕ) → Signals two_bytes → Signals (read no_wait n two_bytes).1)
    × ((expired : Bool) (n : ℕ) → Signals two_bytes → Signals (read_woken expired n two_bytes).1)
    × (Signals two_bytes → Signals (empty two_bytes).1)
Signals-kept_example = Signals-kept two_bytes

abbrev quiet : BufferedPipe
quiet = record { buffer = []; closed = false; event = some false }

-- No bytes set the event all the same.
nothing_fed_runs : (feed [] quiet).event ≡ some true
unfolding feed signal
nothing_fed_runs = refl
