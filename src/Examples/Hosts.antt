-- ===== src/Examples/Hosts.antt =====
-- Host keys with a small library: a key is its kind and its bytes.
use paramiko.Base.{
  ◌≡◌, refl, true, List, [], ◌∷◌, ◌++◌, Bytes, some, binascii_error, assertion_error, Result, ok,
  err, starts_with, contains, eq_bytes, ◌==◌, if◌then◌else◌, arith,
}
use paramiko.HostKeys.Entry.{
  Library, HostKeyEntry, new_entry, hash_mark, hash_host, salt_of, split_by, to_line,
}
use paramiko.HostKeys.Table.{
  hostname_matches, matching, lookup, sub_get, without_key_error, check, add, drop_known, nth,
  remove,
}
use paramiko.HostKeys.Added.{IsCheckedAfter, add-check}
use paramiko.HostKeys.RoundTrip.{IsReadBack, from_line-to_line}

abbrev Key : Type 0
Key = Bytes × Bytes

-- Base64 is a mark before the bytes.
abbrev unmark : Bytes → Result Bytes
unmark [] = err binascii_error
unmark (c ∷ b) = if c == 61 then ok b else err binascii_error

abbrev small : Library Key
small = record {
  get_name = λ k. k.0;
  asbytes = λ k. k.1;
  get_base64 = λ k. 61 ∷ k.1;
  from_type_string = λ name b. ok (some (name, b));
  decodebytes = unmark;
  encodebytes = λ b. b;
  hmac = λ salt b. salt ++ b;
}

-- Hosts "a" and "b", and a line for both of "c" and "d".
abbrev hosts : List (HostKeyEntry Key)
hosts =
    record { valid = true; hostnames = (97 ∷ []) ∷ []; key = some (1 ∷ [], 7 ∷ []) }
    ∷ record { valid = true; hostnames = (98 ∷ []) ∷ []; key = some (1 ∷ [], 8 ∷ []) }
    ∷ record { valid = true; hostnames = (99 ∷ []) ∷ (100 ∷ []) ∷ []; key = some (1 ∷ [], 9 ∷ []) }
    ∷ []

add-check_example :
    IsCheckedAfter small
      (97 ∷ [])
      (1 ∷ [], 5 ∷ [])
      (98 ∷ [])
      (1 ∷ [], 8 ∷ [])
      hosts
      (add small (97 ∷ []) (1 ∷ []) (1 ∷ [], 5 ∷ []) hosts)
unfolding starts_with contains eq_bytes
add-check_example =
    add-check small (97 ∷ []) (1 ∷ [], 5 ∷ []) (98 ∷ []) (1 ∷ [], 8 ∷ []) hosts refl
      ((tt, (refl, tt)), ((tt, (refl, tt)), ((tt, (refl, (refl, tt))), tt)))
      (refl, (refl, (refl, tt)))

-- A key that is added for "c" is the key of "d" from then on, which is on the same line.
shared_line_runs :
    (elim (add small (99 ∷ []) (1 ∷ []) (1 ∷ [], 5 ∷ []) hosts) [
      | err e ↦ err e
      | ok entries ↦ check small (100 ∷ []) (1 ∷ [], 5 ∷ []) entries
    ])
    ≡ ok true
unfolding add check lookup matching hostname_matches sub_get without_key_error contains eq_bytes
    starts_with
shared_line_runs = refl

-- Of three known names, the second is passed over.
passed_over_runs :
    drop_known small 3 (some (1 ∷ [], 7 ∷ [])) hosts 0 ((97 ∷ []) ∷ (97 ∷ []) ∷ [])
    ≡ ok ((97 ∷ []) ∷ [])
unfolding drop_known nth remove check lookup matching hostname_matches sub_get without_key_error
    contains eq_bytes starts_with
passed_over_runs = refl

-- A hashed name without a salt of twenty bytes raises an exception for every other name.
short_salt_runs :
    check small
      (97 ∷ [])
      (1 ∷ [], 7 ∷ [])
      (new_entry ((hash_mark ++ (61 ∷ 5 ∷ [])) ∷ []) (some (1 ∷ [], 9 ∷ [])) ∷ hosts)
    ≡ err assertion_error
unfolding check lookup matching hostname_matches hash_host salt_of split_by new_entry sub_get
    without_key_error contains eq_bytes starts_with
short_salt_runs = refl

from_line-to_line_example :
    IsReadBack small
      (new_entry ((97 ∷ 98 ∷ []) ∷ (99 ∷ []) ∷ []) (some (1 ∷ [], 65 ∷ [])))
      (to_line small (new_entry ((97 ∷ 98 ∷ []) ∷ (99 ∷ []) ∷ []) (some (1 ∷ [], 65 ∷ []))))
from_line-to_line_example =
    from_line-to_line small 97 (98 ∷ []) ((99 ∷ []) ∷ []) (1 ∷ [], 65 ∷ []) 61 (65 ∷ [])
      ((refl, (refl, tt)), ((refl, tt), tt))
      (
        ((λ e. absurd (omega (arith, e))), ((λ e. absurd (omega (arith, e))), tt)),
        (((λ e. absurd (omega (arith, e))), tt), tt),
      )
      (refl, tt) refl (refl, (refl, tt)) refl refl
