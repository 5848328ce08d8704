-- ===== src/Packetizer/Stream.antt =====
-- What `read_all` makes of the bytes of the peer, however they arrive.
use mathlib.Core.Path.{subst}
use paramiko.Base.{
  ℕ, suc, zero, ◌+◌, ◌-◌, ◌≤◌, ◌≡◌, refl, sym, ap, ◌∙◌, min, Bool, true, false, ◌&&◌, List, [], ◌∷◌,
  ◌++◌, Bytes, length, take, drop, ◌==◌, if◌then◌else◌, if_cases, All, append_assoc,
  take-append-drop, take-append_left, length-take, length-append, length-drop, arith, Error,
  eof_error, need_rekey_exception, socket_error,
}
use paramiko.Packetizer.Reading.{
  gives, times_out, fails, Event, ReadAll, got, raised, waits, after_timeout, read_on, read_all,
}

-- Nothing is lost, doubled or put out of order: what was read, before `out` and in all, and what is
-- left is what there was, and the result is as long as it was meant to be. A request for new keys
-- leaves everything unread.
abbrev pub IsExact : Bool → ℕ → Bytes → Bytes → ReadAll → Type 0
IsExact check_rekey n out stream (got read rest es) =
    (read ++ rest ≡ out ++ stream) × (length read ≡ length out + n)
IsExact check_rekey n out stream (raised e read rest es) =
    (read ++ rest ≡ out ++ stream)
    × (e ≡ need_rekey_exception → (check_rekey ≡ true) × (length read ≡ 0))
IsExact check_rekey n out stream (waits read rest) = read ++ rest ≡ out ++ stream

eof_is_no_rekey : (P : Type 0) → eof_error ≡ need_rekey_exception → P
eof_is_no_rekey P e = cc

-- What a call takes, and what it leaves.
taken_left : (m : ℕ) (s : Bytes) → take m s ++ drop (length (take m s)) s ≡ s
taken_left zero s = refl
taken_left (suc m) [] = refl
taken_left (suc m) (b ∷ s) = ap (λ l. b ∷ l) (taken_left m s)

-- The reading goes on with more read and less to go.
IsExact-further :
    (check_rekey : Bool) (n m : ℕ) (out stream : Bytes) (r : ReadAll)
    → m ≤ n
    → IsExact check_rekey
        (n - length (take m stream))
        (out ++ take m stream)
        (drop (length (take m stream)) stream)
        r
    → IsExact check_rekey n out stream r
IsExact-further check_rekey n m out stream r small h =
    let x = take m stream in
    let same : (out ++ x) ++ drop (length x) stream ≡ out ++ stream =
      append_assoc out x (drop (length x) stream) ∙ ap (λ l. out ++ l) (taken_left m stream) in
    let short : length x ≤ n = omega (arith, length-take m stream) in
    (elim r
        as (λ r.
          IsExact check_rekey (n - length x) (out ++ x) (drop (length x) stream) r
          → IsExact check_rekey n out stream r) [
            | got read rest es ↦
                λ (kept, long). (kept ∙ same, omega (arith, long, length-append out x, short))
            | raised e read rest es ↦ λ (kept, rekey). (kept ∙ same, rekey)
            | waits read rest ↦ λ kept. kept ∙ same
          ])
      h

after_timeout-IsExact :
    (check_rekey : Bool) (n : ℕ) (e : Event) (out stream : Bytes) (es : List Event) (next : ReadAll)
    → IsExact check_rekey n out stream next
    → IsExact check_rekey n out stream (after_timeout check_rekey e out stream es next)
unfolding after_timeout
after_timeout-IsExact check_rekey n e out stream es next h =
    if_cases (IsExact check_rekey n out stream) e.closed _ _ (λ _. (refl, λ k. eof_is_no_rekey _ k))
      λ _.
        if_cases (IsExact check_rekey n out stream)
          (check_rekey && (length out == 0 && e.need_rekey)) _ _
          (λ asked. (refl, λ _. ground arith)) (λ _. h)

read_on-IsExact :
    (check_rekey : Bool) (n : ℕ) (out stream : Bytes) (es : List Event)
    → IsExact check_rekey n out stream (read_on check_rekey n out stream es)
unfolding read_on
read_on-IsExact check_rekey zero out stream es = (refl, omega arith)
read_on-IsExact check_rekey (suc n) out stream [] = refl
read_on-IsExact check_rekey (suc n) out stream (e ∷ es) =
    let again = read_on-IsExact check_rekey (suc n) out stream es in
    let further = λ (x : Bytes).
      read_on-IsExact check_rekey (suc n - length x) (out ++ x) (drop (length x) stream) es in
    let exact = IsExact check_rekey (suc n) out stream in
    if_cases exact e.handshake_timed_out _ _ (λ _. (refl, λ k. eof_is_no_rekey _ k))
      λ _.
        elim e.recv
          as (λ r. exact (elim r [
            | gives k ↦
                let x = take (min (suc n) (suc k)) stream in
                if length x == 0
                then raised eof_error out stream es
                else read_on check_rekey (suc n - length x) (out ++ x) (drop (length x) stream) es
            | times_out ↦
                after_timeout check_rekey e out stream es
                  (read_on check_rekey (suc n) out stream es)
            | fails ↦ raised (if e.closed then eof_error else socket_error) out stream es
          ])) [
            | gives k ↦
                let x = take (min (suc n) (suc k)) stream in
                if_cases exact (length x == 0) _ _ (λ _. (refl, λ k. eof_is_no_rekey _ k))
                  λ _.
                    IsExact-further check_rekey (suc n) (min (suc n) (suc k)) out stream _
                      (omega arith) (further x)
            | times_out ↦ after_timeout-IsExact check_rekey (suc n) e out stream es _ again
            | fails ↦ (
              refl,
              λ k. absurd (
                  if_cases (λ (x : Error). x ≡ need_rekey_exception → ⊥) e.closed eof_error
                    socket_error (λ _ z. cc) (λ _ z. cc) k),
            )
          ]

-- However the bytes of the peer arrive, and whatever other threads do, `read_all` reads them in
-- their order, after what the banner left over, and loses none: if it returns, with the `n` bytes
-- that come first, and if it raises or waits, with what it has read so far; and it gives way to new
-- keys only where the caller lets it, before it has read anything.
pub read_all-IsExact :
    (check_rekey : Bool) (n : ℕ) (remainder stream : Bytes) (es : List Event)
    → let (r, left) = read_all check_rekey n remainder stream es in
      IsExact check_rekey (n - length (take n remainder)) (take n remainder) stream r
      × (take n remainder ++ left ≡ remainder)
unfolding read_all
read_all-IsExact check_rekey n remainder stream es = (
  read_on-IsExact check_rekey (n - length (take n remainder)) (take n remainder) stream es,
  take-append-drop n remainder,
)

-- Calls that all give something, before the handshake has timed out.
abbrev pub Gives : Event → Type 0
Gives e = (e.handshake_timed_out ≡ false) × ((k : ℕ) × (e.recv ≡ gives k))

take-take_append : (n : ℕ) (r s : Bytes) → take n (take n r ++ s) ≡ take n (r ++ s)
take-take_append zero r s = refl
take-take_append (suc n) [] s = refl
take-take_append (suc n) (b ∷ r) s = ap (λ l. b ∷ l) (take-take_append n r s)

no_zero : (n : ℕ) → 1 ≤ n → (n == 0) ≡ false
no_zero n h = ground arith

read_on_returns :
    (check_rekey : Bool) (n : ℕ) (out stream : Bytes) (es : List Event)
    → All Gives es
    → n ≤ length es
    → n ≤ length stream
    → (read : Bytes) × (rest : Bytes) × (later : List Event) × (read_on check_rekey n out stream es
        ≡ got read rest later)
unfolding read_on
read_on_returns check_rekey zero out stream es all enough long = (out, stream, es, refl)
read_on_returns check_rekey (suc n) out stream [] all enough long = absurd (omega arith)
read_on_returns check_rekey (suc n) out [] (e ∷ es) all enough long = absurd (omega arith)
read_on_returns check_rekey (suc n) out (b ∷ stream) (e ∷ es) ((in_time, (k, given)), all) enough
      long =
    let x = take (min (suc n) (suc k)) (b ∷ stream) in
    let size = length-take (min (suc n) (suc k)) (b ∷ stream) in
    let left = length-drop (length x) (b ∷ stream) in
    let some_read : (length x == 0) ≡ false = no_zero _ (omega (arith, size)) in
    let (read, rest, later, same) =
      read_on_returns check_rekey (suc n - length x) (out ++ x) (drop (length x) (b ∷ stream)) es
        all (omega (arith, size, enough)) (omega (arith, size, left, long)) in
    (read, rest, later, rw (in_time, given, some_read) same)

-- When nothing but data comes, at least as many calls and as many bytes as are wanted, `read_all`
-- returns the bytes that come first.
pub read_all_returns :
    (check_rekey : Bool) (n : ℕ) (remainder stream : Bytes) (es : List Event)
    → All Gives es
    → n ≤ length es
    → n ≤ length remainder + length stream
    → (rest : Bytes) × (later : List Event) × ((read_all check_rekey n remainder stream es).0
        ≡ got (take n (remainder ++ stream)) rest later)
unfolding read_all
read_all_returns check_rekey n remainder stream es all enough long =
    let out = take n remainder in
    let size = length-take n remainder in
    let (read, rest, later, same) =
      read_on_returns check_rekey (n - length out) out stream es all (omega (arith, size))
        (omega (arith, size)) in
    let exact =
      subst (IsExact check_rekey (n - length out) out stream) same
        (read_on-IsExact check_rekey (n - length out) out stream es) in
    let (kept, counted) = exact in
    let whole : n ≡ length read = omega (arith, counted, size) in
    let first =
      sym (take-append_left read rest n whole)
      ∙ ap (take n) kept
      ∙ take-take_append n remainder stream in
    (rest, later, same ∙ ap (λ l. got l rest later) first)
