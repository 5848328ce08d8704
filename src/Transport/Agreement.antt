-- ===== src/Transport/Agreement.antt =====
-- A client and a server that read each other's KEXINIT.
use paramiko.Base.{
  ◌≡◌, refl, sym, ap, ◌∙◌, inl, inr, true, false, List, [], ◌∷◌, ◌++◌, Bytes, Bool-cases,
  starts_with, filter, contains, eq_bytes, filter_drops, contains-filter_keeps,
  contains-filter_drops, Result, ok, err, ◌>>=◌, arith,
}
use paramiko.Transport.State.{
  Agreed, Transport, preferred_ciphers, preferred_macs, preferred_keys, preferred_kex,
  preferred_compression, is_ext_info, is_kex_strict,
}
use paramiko.Transport.Negotiation.{as_read, signals, agree_on, first_agreed, agree_both}
use paramiko.Transport.Signals.{is_algorithm, algorithms, algorithms-signals}

-- No preference is the empty string.
abbrev pub Unnamed : List Bytes → Type 0
Unnamed names = contains names [] ≡ false

abbrev pub AreNames : Transport → Type 0
AreNames t =
    Unnamed (preferred_kex t)
    × Unnamed (preferred_keys t)
    × Unnamed (preferred_ciphers t)
    × Unnamed (preferred_macs t)
    × Unnamed (preferred_compression t)

-- An empty list, read back as one empty name, offers nothing all the same.
filter-contains-as_read :
    (ours theirs : List Bytes)
    → Unnamed ours
    → filter (contains ours) (as_read theirs) ≡ filter (contains ours) theirs
unfolding as_read
filter-contains-as_read ours [] h = filter_drops (contains ours) [] [] h
filter-contains-as_read ours (x ∷ xs) h = refl

contains_only_empty :
    (ours : List Bytes)
    → Unnamed ours
    → filter (contains ([] ∷ [])) ours ≡ filter (contains []) ours
unfolding filter contains eq_bytes
contains_only_empty [] h = refl
contains_only_empty ([] ∷ ns) h = absurd (ground arith)
contains_only_empty ((x ∷ n) ∷ ns) h = contains_only_empty ns (ground arith)

filter-contains_read :
    (ours theirs : List Bytes)
    → Unnamed ours
    → filter (contains (as_read theirs)) ours ≡ filter (contains theirs) ours
unfolding as_read
filter-contains_read ours [] h = contains_only_empty ours h
filter-contains_read ours (x ∷ xs) h = refl

-- What the two ends agree on, from their own preferences and what they read of the other's.
pub agree_on-crossed :
    (client server : List Bytes)
    → Unnamed client
    → Unnamed server
    → agree_on false client (as_read server) ≡ agree_on true server (as_read client)
unfolding agree_on
agree_on-crossed client server hc hs =
    filter-contains_read client server hc ∙ sym (filter-contains-as_read server client hs)

-- The same for key exchange, where each end drops what is no algorithm from the other's list.
filter-contains-algorithms :
    (client server : List Bytes)
    → filter (contains (algorithms server)) client ≡ filter (contains server) (algorithms client)
unfolding filter
filter-contains-algorithms [] server = refl
filter-contains-algorithms (x ∷ xs) server =
    let more = filter-contains-algorithms xs server in
    let kept = contains-filter_keeps is_algorithm server x in
    let dropped = contains-filter_drops is_algorithm server x in
    elim (Bool-cases (is_algorithm x)) [
      | inl e ↦ elim (Bool-cases (contains server x)) [
        | inl k ↦ rw (e, kept e, k, more)
        | inr k ↦ rw (e, kept e, k, more)
      ]
      | inr e ↦ rw (e, dropped e, more)
    ]

agree_on_read :
    (ours names : List Bytes)
    → Unnamed ours
    → (filter (contains (algorithms (as_read names))) ours
        ≡ filter (contains (algorithms names)) ours)
      × (filter (contains ours) (algorithms (as_read names))
          ≡ filter (contains ours) (algorithms names))
unfolding as_read filter is_ext_info is_kex_strict starts_with
agree_on_read ours [] h = (contains_only_empty ours h, filter_drops (contains ours) [] [] h)
agree_on_read ours (x ∷ xs) h = (refl, refl)

pub kex-crossed :
    (c s : Transport) (client server : List Bytes)
    → Unnamed client
    → Unnamed server
    → agree_on false client (algorithms (as_read (server ++ signals s)))
      ≡ agree_on true server (algorithms (as_read (client ++ signals c)))
unfolding agree_on
kex-crossed c s client server hc hs =
    (agree_on_read client (server ++ signals s) hc).0
    ∙ ap (λ l. filter (contains l) client) (algorithms-signals s server)
    ∙ filter-contains-algorithms client server
    ∙ ap (filter (contains server)) (sym (algorithms-signals c client))
    ∙ sym (agree_on_read server (client ++ signals c) hs).1

-- Both directions are agreed on from the same lists, since both ends offer one list for both.
abbrev pub crossed_pair : Result (Bytes × Bytes) → Result (Bytes × Bytes)
crossed_pair (err e) = err e
crossed_pair (ok (out, back)) = ok (back, out)

twice-crossed :
    (r : Result Bytes)
    → (do out ← r; back ← r; ok (out, back)) ≡ crossed_pair (do out ← r; back ← r; ok (out, back))
twice-crossed (err e) = refl
twice-crossed (ok a) = refl

pub both-crossed :
    (client server : List Bytes)
    → Unnamed client
    → Unnamed server
    → agree_both false client (as_read server) (as_read server)
      ≡ crossed_pair (agree_both true server (as_read client) (as_read client))
unfolding agree_both
both-crossed client server hc hs =
    rw (agree_on-crossed client server hc hs)
      (twice-crossed (first_agreed (agree_on true server (as_read client))))

-- The agreement from the other end's point of view.
abbrev pub crossed : Result Agreed → Result Agreed
crossed (err e) = err e
crossed (ok a) = ok (record a {
  local_cipher = a.remote_cipher;
  remote_cipher = a.local_cipher;
  local_mac = a.remote_mac;
  remote_mac = a.local_mac;
  local_compression = a.remote_compression;
  remote_compression = a.local_compression;
})

abbrev pub assemble :
    Result Bytes
    → Result Bytes
    → Result (Bytes × Bytes)
    → Result (Bytes × Bytes)
    → Result (Bytes × Bytes)
    → Result Agreed
assemble kex key cipher mac compression = do
  k ← kex
  h ← key
  c ← cipher
  m ← mac
  z ← compression
  ok (record {
    kex_engine = k;
    host_key_type = h;
    local_cipher = c.0;
    remote_cipher = c.1;
    local_mac = m.0;
    remote_mac = m.1;
    local_compression = z.0;
    remote_compression = z.1;
  })

pub assemble-crossed :
    (kex key : Result Bytes) (cipher mac compression : Result (Bytes × Bytes))
    → assemble kex key (crossed_pair cipher) (crossed_pair mac) (crossed_pair compression)
      ≡ crossed (assemble kex key cipher mac compression)
assemble-crossed (err e) key cipher mac compression = refl
assemble-crossed (ok k) (err e) cipher mac compression = refl
assemble-crossed (ok k) (ok h) (err e) mac compression = refl
assemble-crossed (ok k) (ok h) (ok c) (err e) compression = refl
assemble-crossed (ok k) (ok h) (ok c) (ok m) (err e) = refl
assemble-crossed (ok k) (ok h) (ok c) (ok m) (ok z) = refl
